-- ===== src/Client/Tests.antt =====
-- client/quic.go on concrete inputs.
use Prim.Native.String.{String}
use gopher_socks.Common.{ℕ, ◌≡◌, ◌≢◌, refl, List, [], ◌∷◌, none, some, All, true}
use gopher_socks.Common.Int.{pos}
use gopher_socks.Common.Assoc.{lookup}
use gopher_socks.Errors.{sentinel, eof, ok}
use gopher_socks.Framing.Prefix.{uvarint_codec}
use gopher_socks.Framing.Legacy.{new_legacy}
use gopher_socks.Listener.Quic.{resolve_one}
use gopher_socks.Listener.Quic.Codecs.{Resolvable}
use gopher_socks.Listener.Stream.{StreamTransport, ReadEnv}
use gopher_socks.Client.Config.{default_config, default_quic_config, with_client_quic_codec}
use gopher_socks.Client.Quic.{Stream, QuicClient, codec_for}
use gopher_socks.Client.Exchange.{add_codec-agrees}
use gopher_socks.Client.Sending.{send_all, wire_of}

add_codec-agrees_example :
    let q' =
      gopher_socks.Listener.Config.Options.add_codec "nixie/2" uvarint_codec
        gopher_socks.Listener.Config.default_quic_config in
    let c' = with_client_quic_codec "nixie/2" uvarint_codec default_config in
    (resolve_one q' "nixie/2" ≡ ok uvarint_codec)
    × (codec_for c' "nixie/2" ≡ ok uvarint_codec)
    × ((p : String)
        → "nixie/2" ≢ p
        → (resolve_one q' p ≡ resolve_one gopher_socks.Listener.Config.default_quic_config p)
          × (codec_for c' p ≡ codec_for default_config p))
add_codec-agrees_example =
    add_codec-agrees "nixie/2" uvarint_codec gopher_socks.Listener.Config.default_quic_config
      default_config default_quic_config refl

default-Resolvable :
    All
      (Resolvable gopher_socks.Listener.Config.default_quic_config)
      gopher_socks.Listener.Config.default_quic_config.alpn
unfolding resolve_one lookup new_legacy
default-Resolvable = ((_, refl), tt)

abbrev stream : Stream
stream = record {
  codec = uvarint_codec;
  wire = [];
  reader = record { bytes = []; size = 4096; fail = sentinel eof };
}

abbrev client : QuicClient
client = record {
  addr = "192.0.2.1:9000";
  config = default_config;
  protocol = some "nixie/2";
  stream = some stream;
}

abbrev two : List (List ℕ)
two = (1 ∷ 2 ∷ []) ∷ [] ∷ []

abbrev session : StreamTransport
session = record {
  reader = record { bytes = wire_of (send_all two client).1; size = 32768; fail = sentinel eof };
  codec = uvarint_codec;
  max = pos 100;
  read_timeout = pos 0;
  write_timeout = pos 0;
  idle_timeout = true;
  deadlines = 0;
  wire = [];
  retained = 0;
}

abbrev idle : ReadEnv
idle = record { buffered = 0; set_deadline = none }
