-- ===== src/Listener/Quic.antt =====
-- listener/quic.go: the QUIC server.
pub mod Codecs
pub mod Serving
use Prim.Native.String.{String}
use gopher_socks.Common.{
  ℕ, ◌*◌, ◌≡◌, List, [], ◌∷◌, Option, none, some, Bool, true, false, ◌||◌, if◌then◌else◌,
}
use gopher_socks.Common.Int.{ℤ, pos, ltb_ℤ, min_ℤ}
use gopher_socks.Common.Assoc.{lookup, insert, str_eq}
use gopher_socks.Errors.{
  Error, sentinel, message, message_of, quic_closed, server_stopped, connection, configuration,
  network, errors_is, Result, ok, err,
}
use gopher_socks.Framing.Codec.{Codec}
use gopher_socks.Framing.Legacy.{Legacy, codec, new_legacy}
use gopher_socks.Listener.Config.{
  TlsConfig, QuicConfig, ProtocolConfig, web_socket, quic, other, ServerConfig, default_config,
  default_quic_config, default_alpn, validate_config, second,
}
use gopher_socks.Listener.Config.Options.{ServerOption, apply_options}
use gopher_socks.Listener.HostPort.{host_port}
use gopher_socks.Listener.Server.{
  SessionRef, Server, World, stop_to_wait, new_server, enter, release, add, wg_done,
}
use gopher_socks.Listener.Stream.{StreamTransport, new_reader}
use gopher_socks.Listener.Accept.{Admission, over, stopping, admitted, admit}

-- quicCodeClosed, quicCodeServerFull and quicCodeProtocol.
pub data CloseCode : Type 0 where
  code_closed : CloseCode
  code_server_full : CloseCode
  code_protocol : CloseCode

abbrev pub default_stream_timeout : ℕ
default_stream_timeout = 10 * second

-- tls.VersionTLS13.
abbrev pub tls_13 : ℕ
tls_13 = 0x0304

-- `QUICServer`. Numbers name the socket, the quic.Transport and the quic.Listener.
pub record QuicServer : Type 0 where
  pub server : Server
  pub cfg : ServerConfig
  pub addr : String
  pub qcfg : QuicConfig
  pub udp : Option ℕ
  pub tr : Option ℕ
  pub ln : Option ℕ
  pub codecs : List (String × Codec)

-- The QUICConfig that the options leave, or the default.
abbrev pub quic_config_of : ProtocolConfig → QuicConfig
quic_config_of (quic q) = q
quic_config_of (web_socket w) = default_quic_config
quic_config_of (other n) = default_quic_config

-- `NewQUIC`.
unfoldable pub new_quic : String → ℕ → Option Error → List ServerOption → Result QuicServer
new_quic host port parent opts =
    let config =
      apply_options opts (record default_config { protocol_config = quic default_quic_config }) in
    elim (validate_config config) [
      | some e ↦ err (network configuration "invalid configuration" e)
      | none ↦ ok (record {
        server = new_server parent config.max_connections;
        cfg = config;
        addr = host_port host port;
        qcfg = quic_config_of config.protocol_config;
        udp = none;
        tr = none;
        ln = none;
        codecs = [];
      })
    ]

-- The codec of one ALPN protocol in `resolveCodecs`.
unfoldable pub resolve_one : QuicConfig → String → Result Codec
resolve_one q alpn = elim (lookup alpn q.codecs) [
  | some c ↦ ok c
  | none ↦
      if str_eq alpn default_alpn
      then elim (new_legacy q.delimiter) [ err e ↦ err e | ok l ↦ ok (codec l) ]
      else err (message_of "no codec for ALPN %q" alpn)
]

unfoldable pub resolve_loop :
    QuicConfig → List String → List (String × Codec) → Result (List (String × Codec))
resolve_loop q [] out = ok out
resolve_loop q (alpn ∷ alpns) out = elim (resolve_one q alpn) [
  | err e ↦ err e
  | ok c ↦ resolve_loop q alpns (insert alpn c out)
]

abbrev pub not_empty : Result (List (String × Codec)) → Result (List (String × Codec))
not_empty (err e) = err e
not_empty (ok []) = err (message "no ALPN protocols configured")
not_empty (ok (e ∷ out)) = ok (e ∷ out)

-- `resolveCodecs`.
unfoldable pub resolve_codecs : QuicConfig → Result (List (String × Codec))
resolve_codecs q = not_empty (resolve_loop q q.alpn [])

abbrev pub fill_protos : List String → TlsConfig → TlsConfig
fill_protos alpn c = elim c.next_protos [ [] ↦ record c { next_protos = alpn } | p ∷ ps ↦ c ]

-- `tlsConfig`, with the answer of selfSignedCert.
unfoldable pub tls_config : Result ℕ → QuicConfig → Result TlsConfig
tls_config cert q = elim q.tls_config [
  | some c ↦ ok (fill_protos q.alpn c)
  | none ↦ elim cert [
    | err e ↦ err e
    | ok n ↦ ok (record { certificates = n ∷ []; next_protos = q.alpn; min_version = tls_13 })
  ]
]

-- What `Listen` asks for: selfSignedCert, net.ResolveUDPAddr, net.ListenUDP, the new quic.Transport
-- and its Listen.
pub record ListenEnv : Type 0 where
  pub cert : Result ℕ
  pub resolve : Option Error
  pub listen_udp : Result ℕ
  pub transport : ℕ
  pub listen_quic : Result ℕ

unfoldable pub bind : ListenEnv → List (String × Codec) → QuicServer → Option Error × QuicServer
bind env codecs q = elim env.resolve [
  | some e ↦ (some (network connection "failed to resolve address" e), q)
  | none ↦ elim env.listen_udp [
    | err e ↦ (some (network connection "failed to start listener" e), q)
    | ok udp ↦ elim env.listen_quic [
      | err e ↦ (some (network connection "failed to start QUIC listener" e), q)
      | ok ln ↦ (
        none,
        record q { udp = some udp; tr = some (env.transport); ln = some ln; codecs = codecs },
      )
    ]
  ]
]

-- `Listen`.
unfoldable pub listen : ListenEnv → QuicServer → Option Error × QuicServer
unfolding bind
listen env q = elim q.ln [
  | some ln ↦ (none, q)
  | none ↦ elim (resolve_codecs q.qcfg) [
    | err e ↦ (some (network configuration "invalid QUIC framing" e), q)
    | ok codecs ↦ elim (tls_config env.cert q.qcfg) [
      | err e ↦ (some (network configuration "TLS setup failed" e), q)
      | ok tls ↦ bind env codecs q
    ]
  ]
]

-- How long handleConn waits for the stream.
unfoldable pub stream_timeout : ServerConfig → ℤ
stream_timeout cfg =
    if ltb_ℤ (pos 0) cfg.read_timeout then cfg.read_timeout else pos default_stream_timeout

-- The codec that handleConn takes for the negotiated protocol.
unfoldable pub pick_codec : List (String × Codec) → String → Option Codec
pick_codec codecs negotiated = elim (lookup negotiated codecs) [
  | some c ↦ some c
  | none ↦ lookup default_alpn codecs
]

-- The transport that `handleConn` makes of a stream with the codec `c`, on which the peer will send
-- `bytes` and then fail with `fail`.
unfoldable pub quic_transport : ServerConfig → Codec → List ℕ → Error → StreamTransport
unfolding new_reader
quic_transport cfg c bytes fail = record {
  reader = new_reader bytes fail;
  codec = c;
  max = min_ℤ (pos cfg.max_length) (pos c.max_payload);
  read_timeout = pos 0;
  write_timeout = cfg.write_timeout;
  idle_timeout = false;
  deadlines = 0;
  wire = [];
  retained = 0;
}

-- How `handleConn` goes on: the connection is closed, or the session is served with this codec and
-- length limit.
pub data Handled : Type 0 where
  closed_with : CloseCode → Handled
  serving : Codec → ℤ → Handled

-- `handleConn` up to serveSession, with the answer of AcceptStream.
unfoldable pub handle_conn : Option Error → String → SessionRef → QuicServer → Handled × QuicServer
handle_conn (some e) negotiated sess q =
    (closed_with code_protocol, record q { server = release q.server })
handle_conn none negotiated sess q = elim (pick_codec q.codecs negotiated) [
  | none ↦ (closed_with code_protocol, record q { server = release q.server })
  | some c ↦ (
    serving c (min_ℤ (pos q.cfg.max_length) (pos c.max_payload)),
    record q { server = add sess q.server },
  )
]

-- `StopListener` up to the wg.Wait of `stop`, with the answer of the quic.Listener's Close.
unfoldable pub stop_listener : Option Error → QuicServer → World → Option Error × World
stop_listener answer q world = (elim q.ln [ none ↦ none | some ln ↦ answer ], stop_to_wait world)
