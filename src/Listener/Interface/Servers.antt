-- ===== src/Listener/Interface/Servers.antt =====
-- tcp.go, udp.go, quic.go and websocket.go: the four servers as Listeners.
use gopher_socks.Common.{ℕ, List, Option, Bool}
use gopher_socks.Errors.{Error, Result}
use gopher_socks.Listener.Server as Srv
use gopher_socks.Listener.Server.{SessionRef, Server, World, enter, stop_to_wait}
use gopher_socks.Listener.Tcp as Tcp
use gopher_socks.Listener.Udp as Udp
use gopher_socks.Listener.Quic as Quic
use gopher_socks.Listener.Quic.Serving as QuicServing
use gopher_socks.Listener.WebSocket as WebSocket
use gopher_socks.Listener.Lifecycle.{
  start_tcp, start_udp, start_quic, start_web_socket, serve_tcp, serve_udp, serve_quic,
  serve_web_socket,
}
use gopher_socks.Listener.Interface.{Listener}

-- What the network answers to the calls of one server, and the sessions that have been closed by then.
pub record Network : Type 0 where
  pub listening : Result ℕ
  pub resolve : Option Error
  pub quic : Quic.ListenEnv
  pub connections : List (Bool × Tcp.Incoming)
  pub datagrams : List (Bool × Udp.Incoming)
  pub quic_connections : List (Bool × QuicServing.Incoming)
  pub http_server : ℕ
  pub requests : List (Option Error × SessionRef)
  pub ending : Option (Option Error)
  pub close : Option Error
  pub http_close : Option Error
  pub closed : ℕ → Option Error

abbrev world_with : Network → Server → World
world_with env s = record { server = s; closed = env.closed }

unfoldable pub tcp : Listener Network Tcp.TcpServer
tcp = record {
  server_of = λ t. t.server;
  bound_to = λ t. t.ln;
  listen = λ env. Tcp.listen env.listening;
  serve = λ env. serve_tcp env.listening env.connections;
  start_listener = λ env. start_tcp env.listening;
  stop_listener = λ env t.
      let (e, w) = Tcp.stop_listener env.close t (world_with env t.server) in
      (e, record t { server = w.server });
  set_announce_new_session =
      λ fn opts t. record t { server = Srv.set_announce_new_session fn opts t.server };
  get_active_sessions = λ t. Srv.get_active_sessions t.server;
  get_session = λ t. Srv.get_session t.server;
}

unfoldable pub udp : Listener Network Udp.UdpServer
udp = record {
  server_of = λ u. u.world.server;
  bound_to = λ u. u.conn;
  listen = λ env. Udp.listen env.resolve env.listening;
  serve = λ env. serve_udp env.resolve env.listening env.datagrams;
  start_listener = λ env. start_udp env.resolve env.listening;
  stop_listener = λ env. Udp.stop_listener env.close;
  set_announce_new_session =
      λ fn opts u. Udp.with_server (Srv.set_announce_new_session fn opts u.world.server) u;
  get_active_sessions = λ u. Srv.get_active_sessions u.world.server;
  get_session = λ u. Srv.get_session u.world.server;
}

unfoldable pub quic : Listener Network Quic.QuicServer
quic = record {
  server_of = λ q. q.server;
  bound_to = λ q. q.ln;
  listen = λ env. Quic.listen env.quic;
  serve = λ env. serve_quic env.quic env.quic_connections;
  start_listener = λ env. start_quic env.quic;
  stop_listener = λ env q.
      let (e, w) = Quic.stop_listener env.close q (world_with env q.server) in
      (e, record q { server = w.server });
  set_announce_new_session =
      λ fn opts q. record q { server = Srv.set_announce_new_session fn opts q.server };
  get_active_sessions = λ q. Srv.get_active_sessions q.server;
  get_session = λ q. Srv.get_session q.server;
}

unfoldable pub web_socket : Listener Network WebSocket.WebSocketServer
web_socket = record {
  server_of = λ w. w.server;
  bound_to = λ w. w.ln;
  listen = λ env. WebSocket.listen env.listening;
  serve = λ env. serve_web_socket env.listening env.http_server env.requests env.ending;
  start_listener = λ env. start_web_socket env.listening;
  stop_listener = λ env w.
      let (e, world) =
        WebSocket.stop_listener env.http_close env.close w (world_with env w.server) in
      (e, record w { server = world.server });
  set_announce_new_session =
      λ fn opts w. record w { server = Srv.set_announce_new_session fn opts w.server };
  get_active_sessions = λ w. Srv.get_active_sessions w.server;
  get_session = λ w. Srv.get_session w.server;
}
