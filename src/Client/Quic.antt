-- ===== src/Client/Quic.antt =====
-- client/quic.go: the QUIC client. The connection's answers are arguments.
use Prim.Native.String.{String}
use gopher_socks.Common.{ℕ, ◌++◌, List, [], Option, none, some, ◌||◌, take, if◌then◌else◌}
use gopher_socks.Common.Int.{pos, pos_part, max_ℤ}
use gopher_socks.Common.Assoc.{lookup, str_eq}
use gopher_socks.Errors.{
  Error, sentinel, errorf, message, message_of, not_connected, Result, ok, err,
}
use gopher_socks.Framing.Reader.{Reader}
use gopher_socks.Framing.Codec.{Codec}
use gopher_socks.Framing.Legacy.{codec, new_legacy}
use gopher_socks.Client.Config.{
  QuicConfig, quic, other, ClientConfig, default_config, default_quic_config, default_alpn,
}

-- What an open stream has: the codec, what the connection has taken from Write so far, and the reader.
pub record Stream : Type 0 where
  pub codec : Codec
  pub wire : List ℕ
  pub reader : Reader

-- `QUICClient`. `protocol` is the negotiated one, of a `conn` that is not nil; `stream` is nil before
-- Connect. `sendBuf` only saves space.
pub record QuicClient : Type 0 where
  pub addr : String
  pub config : ClientConfig
  pub protocol : Option String
  pub stream : Option Stream

-- `NewQUICClient`; `none` is a nil config.
unfoldable pub new_quic_client : String → Option ClientConfig → Result QuicClient
new_quic_client addr config =
    if str_eq addr ""
    then err (message "address is required")
    else ok (record {
      addr = addr;
      config = elim config [ none ↦ default_config | some c ↦ c ];
      protocol = none;
      stream = none;
    })

-- `quicConfig`.
abbrev pub quic_config : ClientConfig → QuicConfig
quic_config c = elim c.protocol_config [ quic q ↦ q | other n ↦ default_quic_config ]

-- `codecFor`.
unfoldable pub codec_for : ClientConfig → String → Result Codec
codec_for c alpn = elim (lookup alpn (quic_config c).codecs) [
  | some own ↦ ok own
  | none ↦
      if str_eq alpn default_alpn || str_eq alpn ""
      then elim (new_legacy c.delimiter) [ err e ↦ err e | ok l ↦ ok (codec l) ]
      else err (message_of "gophersocks client: no codec for ALPN %q" alpn)
]

-- What Connect meets: the answer of DialAddr with the negotiated protocol, and of OpenStreamSync with
-- what the server will send and the error at its end.
pub record ConnectEnv : Type 0 where
  pub dial : Result String
  pub open_stream : Result (List ℕ × Error)

abbrev pub reader_size : ClientConfig → ℕ
reader_size c = pos_part (max_ℤ c.buffer_size (pos 4096))

-- `Connect`; a connection without codec or stream is closed and forgotten.
unfoldable pub connect : ConnectEnv → QuicClient → Option Error × QuicClient
connect env c = elim env.dial [
  | err e ↦ (some (errorf "failed to dial QUIC: %w" [] e), c)
  | ok protocol ↦ elim (codec_for c.config protocol) [
    | err e ↦ (some e, c)
    | ok own ↦ elim env.open_stream [
      | err e ↦ (some (errorf "failed to open QUIC stream: %w" [] e), c)
      | ok s ↦ (
        none,
        record c {
          protocol = some protocol;
          stream = some (record {
            codec = own;
            wire = [];
            reader = record { bytes = s.0; size = reader_size c.config; fail = s.1 };
          });
        },
      )
    ]
  ]
]

abbrev pub wrote : Option (ℕ × Error) → List ℕ → Stream → Option Error × Stream
wrote none frame s = (none, record s { wire = s.wire ++ frame })
wrote (some (n, e)) frame s = (
  some (errorf "failed to write to QUIC stream: %w" [] e),
  record s { wire = s.wire ++ take n frame },
)

abbrev pub framed : Option (ℕ × Error) → List ℕ × Option Error → Stream → Option Error × Stream
framed write (frame, some e) s = (some e, s)
framed write (frame, none) s = wrote write frame s

abbrev pub put : QuicClient → Option Error × Stream → Option Error × QuicClient
put c (e, s) = (e, record c { stream = some s })

-- `Send`; `write` is how much Write takes if it fails, and its error.
unfoldable pub send : Option (ℕ × Error) → List ℕ → QuicClient → Option Error × QuicClient
send write msg c = elim c.stream [
  | none ↦ (some (sentinel not_connected), c)
  | some s ↦ put c (framed write (s.codec.append [] msg) s)
]

abbrev pub got :
    QuicClient → Stream → Option (Result (List ℕ) × Reader) → Option (Result (List ℕ) × QuicClient)
got c s none = none
got c s (some (res, r)) = some (res, record c { stream = some (record s { reader = r }) })

-- `Receive`.
unfoldable pub receive : QuicClient → Option (Result (List ℕ) × QuicClient)
receive c = elim c.stream [
  | none ↦ some (err (sentinel not_connected), c)
  | some s ↦ got c s (s.codec.read s.reader c.config.max_length)
]

-- `NegotiatedProtocol`.
unfoldable pub negotiated_protocol : QuicClient → String
negotiated_protocol c = elim c.protocol [ none ↦ "" | some p ↦ p ]

-- `Close`, with the answer of the stream's Close; the fields stay.
unfoldable pub close : Option Error → QuicClient → Option Error
close answer c = elim c.stream [
  | none ↦ none
  | some s ↦ elim answer [
    | none ↦ none
    | some e ↦ some (errorf "failed to close QUIC stream: %w" [] e)
  ]
]

-- `LocalAddr` and `RemoteAddr`, with the connection's address; `none` is nil.
unfoldable pub local_addr : String → QuicClient → Option String
local_addr address c = elim c.protocol [ none ↦ none | some p ↦ some address ]

unfoldable pub remote_addr : String → QuicClient → Option String
remote_addr address c = elim c.protocol [ none ↦ none | some p ↦ some address ]
