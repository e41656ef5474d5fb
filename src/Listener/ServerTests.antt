-- ===== src/Listener/ServerTests.antt =====
-- tcp.go, udp.go, quic.go, websocket.go and hostPort on concrete inputs.
use Prim.Native.String.{String}
use gopher_socks.Common.{
  ◌≡◌, refl, List, [], ◌∷◌, ◌++◌, none, some, arith, Bool, All, true, false, if◌then◌else◌, ◌||◌,
  ltb,
}
use gopher_socks.Common.Int.{pos}
use gopher_socks.Common.Assoc.{lookup}
use gopher_socks.Errors.{sentinel, timeout, ok}
use gopher_socks.Framing.Codec.{Codec}
use gopher_socks.Framing.Legacy.{new_legacy}
use gopher_socks.Listener.Config.{default_config, default_quic_config}
use gopher_socks.Listener.HostPort.{Plain, trim_open, trim_close}
use gopher_socks.Listener.Server.{SessionRef, Server, new_server}
use gopher_socks.Listener.Tcp.Serving.{passes, accept_all, verdict, serve_loop-passes}
use gopher_socks.Listener.Udp.{UdpServer, receive, deliver, idle}
use gopher_socks.Listener.Udp.Datagrams.{receive_lem}
use gopher_socks.Listener.Quic.{resolve_one, resolve_codecs, pick_codec}
use gopher_socks.Listener.Quic.Codecs.{Resolvable, elem, resolve_codecs-resolves}

abbrev carol : SessionRef
carol = record { id = 3; addr = "192.0.2.3:9000" }

abbrev empty : Server
empty = new_server none (pos 2)

-- hostPort.
loopback-Plain : Plain "::1"
unfolding trim_open trim_close
loopback-Plain = (refl, refl)

abbrev events : List (Bool × gopher_socks.Listener.Tcp.Incoming)
events =
    (false, gopher_socks.Listener.Tcp.failed (sentinel timeout))
    ∷ (false, gopher_socks.Listener.Tcp.connected carol)
    ∷ []

serve_loop-passes_example :
    (gopher_socks.Listener.Tcp.serve_loop events empty ≡ (none, accept_all events empty))
    × ((last : Bool × gopher_socks.Listener.Tcp.Incoming)
          (rest : List (Bool × gopher_socks.Listener.Tcp.Incoming))
        → passes last ≡ false
        → gopher_socks.Listener.Tcp.serve_loop (events ++ last ∷ rest) empty
          ≡ (some (verdict last), accept_all events empty))
serve_loop-passes_example = serve_loop-passes events empty (refl, (refl, tt))

-- A UDP server with carol's session.
abbrev udp : UdpServer
udp = record {
  world = record {
    server = record empty { by_addr = ("192.0.2.3:9000", carol) ∷ [] };
    closed = λ i. none;
  };
  cfg = default_config;
  addr = ":9000";
  conn = some 1;
  inbox = λ i. [];
  last = λ i. pos 0;
}

receive_lem_example : receive (pos 5) "192.0.2.3:9000" 4 (1 ∷ 2 ∷ []) udp ≡ (
    if false || ltb default_config.max_length 2
    then udp
    else deliver (pos 5) "192.0.2.3:9000" 4 (1 ∷ 2 ∷ []) udp)
receive_lem_example = receive_lem (pos 5) "192.0.2.3:9000" 4 (1 ∷ 2 ∷ []) udp (omega arith)

idle-carol : idle (pos 30_000_000_001) udp carol ≡ true
idle-carol = refl

-- QUIC codecs.
default-Resolvable : All (Resolvable default_quic_config) default_quic_config.alpn
unfolding resolve_one lookup new_legacy
default-Resolvable = ((_, refl), tt)

resolve_codecs-resolves_example :
    (out : List (String × Codec)) × ((resolve_codecs default_quic_config ≡ ok out)
      × ((k : String) (c : Codec)
          → elem k default_quic_config.alpn ≡ true
          → resolve_one default_quic_config k ≡ ok c
          → pick_codec out k ≡ some c))
resolve_codecs-resolves_example =
    resolve_codecs-resolves default_quic_config (λ e. cc) default-Resolvable
