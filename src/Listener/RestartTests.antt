-- ===== src/Listener/RestartTests.antt =====
-- The four servers on concrete inputs: each is stopped and started again.
use gopher_socks.Common.{refl, [], ◌∷◌, none, some, false}
use gopher_socks.Common.Int.{pos}
use gopher_socks.Errors.{ok}
use gopher_socks.Listener.Config.{WebSocketConfig, default_config, default_quic_config}
use gopher_socks.Listener.Server.{SessionRef, World, new_server, stop_to_wait}
use gopher_socks.Listener.Lifecycle.{
  start_tcp, start_udp, start_quic, start_web_socket, serve_tcp, serve_udp, serve_quic,
  serve_web_socket,
}
use gopher_socks.Listener.Interface.{Unserved}
use gopher_socks.Listener.Restart.{start_after_stop}
use gopher_socks.Listener.Tcp as Tcp
use gopher_socks.Listener.Udp as Udp
use gopher_socks.Listener.Quic as Quic
use gopher_socks.Listener.Quic.Serving as QuicServing
use gopher_socks.Listener.WebSocket as WebSocket

abbrev gina : SessionRef
gina = record { id = 9; addr = "192.0.2.9:9000" }

-- A server with gina's session, which is then stopped.
abbrev running : World
running = record {
  server = record (new_server none (pos 2)) {
    by_addr = ("192.0.2.9:9000", gina) ∷ [];
    active = pos 1;
  };
  closed = λ i. none;
}

abbrev tcp : Tcp.TcpServer
tcp = record {
  server = (stop_to_wait running).server;
  cfg = default_config;
  addr = ":8000";
  ln = some 1;
}

abbrev udp : Udp.UdpServer
udp = record {
  world = stop_to_wait running;
  cfg = default_config;
  addr = ":8002";
  conn = some 1;
  inbox = λ i. [];
  last = λ i. pos 0;
}

abbrev quic : Quic.QuicServer
quic = record {
  server = (stop_to_wait running).server;
  cfg = default_config;
  addr = ":8443";
  qcfg = default_quic_config;
  udp = some 1;
  tr = some 2;
  ln = some 3;
  codecs = [];
}

abbrev ws_config : WebSocketConfig
ws_config = record {
  read_buffer_size = pos 1024;
  write_buffer_size = pos 1024;
  path = "/ws";
  check_origin = none;
}

abbrev web_socket : WebSocket.WebSocketServer
web_socket = record {
  server = (stop_to_wait running).server;
  cfg = default_config;
  addr = ":8001";
  ws_cfg = ws_config;
  upgrader = record {
    read_buffer_size = pos 1024;
    write_buffer_size = pos 1024;
    check_origin = WebSocket.allow_any_origin;
  };
  ln = some 1;
  http = none;
}

abbrev listening : Quic.ListenEnv
listening = record {
  cert = ok 5;
  resolve = none;
  listen_udp = ok 6;
  transport = 7;
  listen_quic = ok 8;
}

start_after_stop_example :
    Unserved (start_tcp (ok 4)) (serve_tcp (ok 4) ((false, Tcp.connected gina) ∷ [])) tcp
    × Unserved (start_udp none (ok 4)) (serve_udp none (ok 4) []) udp
    × Unserved
        (start_quic listening)
        (serve_quic listening ((false, QuicServing.connected) ∷ []))
        quic
    × Unserved
        (start_web_socket (ok 4))
        (serve_web_socket (ok 4) 10 ((none, gina) ∷ []) none)
        web_socket
start_after_stop_example =
    start_after_stop running (ok 4) none listening ((false, Tcp.connected gina) ∷ []) []
      ((false, QuicServing.connected) ∷ []) 10 ((none, gina) ∷ []) none tcp udp quic web_socket 1 1
      3 1 refl refl refl refl refl refl refl refl
