-- ===== src/Listener/Restart.antt =====
-- The four servers: what StartListener and Serve do after StopListener.
use gopher_socks.Common.{ℕ, ◌≡◌, sym, ap, subst, List, Option, none, some, Bool, false}
use gopher_socks.Errors.{Error, Result}
use gopher_socks.Listener.Server.{SessionRef, Server, World, enter, stop_to_wait}
use gopher_socks.Listener.Server.Stopping.{stop_to_wait-Stops}
use gopher_socks.Listener.Tcp as Tcp
use gopher_socks.Listener.Udp as Udp
use gopher_socks.Listener.Quic as Quic
use gopher_socks.Listener.Quic.Serving as QuicServing
use gopher_socks.Listener.WebSocket as WebSocket
use gopher_socks.Listener.Lifecycle.{
  start_tcp, start_udp, start_quic, start_web_socket, serve_tcp, serve_udp, serve_quic,
  serve_web_socket,
}
use gopher_socks.Listener.Interface.{Unserved, bound-Unserved}
use gopher_socks.Listener.Interface.Servers.{Network, tcp, udp, quic, web_socket}
use gopher_socks.Listener.Interface.Laws.{
  tcp-IsListener, udp-IsListener, quic-IsListener, web_socket-IsListener,
}

refused : (s : Server) (w : World) → s ≡ (stop_to_wait w).server → enter s ≡ (false, s)
refused s w same = subst (λ x. enter x ≡ (false, x)) (sym same) (stop_to_wait-Stops w).refuses

-- A server that has been bound to its address and stopped, as StopListener leaves it when it comes to wait
-- for the goroutines, over any of the four protocols: StartListener returns nil and starts a Serve, which returns ErrServerStopped whatever the network answers; the server
-- stays as it is, and no session is served.
pub start_after_stop :
    (world : World) (listening : Result ℕ) (resolve : Option Error) (env : Quic.ListenEnv)
    (connections : List (Bool × Tcp.Incoming)) (datagrams : List (Bool × Udp.Incoming))
    (conns : List (Bool × QuicServing.Incoming)) (srv : ℕ)
    (requests : List (Option Error × SessionRef)) (ending : Option (Option Error))
    (t : Tcp.TcpServer) (u : Udp.UdpServer) (q : Quic.QuicServer) (w : WebSocket.WebSocketServer)
    (t_ln u_conn q_ln w_ln : ℕ)
    → t.ln ≡ some t_ln
    → u.conn ≡ some u_conn
    → q.ln ≡ some q_ln
    → w.ln ≡ some w_ln
    → t.server ≡ (stop_to_wait world).server
    → u.world ≡ stop_to_wait world
    → q.server ≡ (stop_to_wait world).server
    → w.server ≡ (stop_to_wait world).server
    → Unserved (start_tcp listening) (serve_tcp listening connections) t
      × Unserved (start_udp resolve listening) (serve_udp resolve listening datagrams) u
      × Unserved (start_quic env) (serve_quic env conns) q
      × Unserved (start_web_socket listening) (serve_web_socket listening srv requests ending) w
unfolding tcp udp quic web_socket
start_after_stop world listening resolve env connections datagrams conns srv requests ending t u q w
      t_ln u_conn q_ln w_ln ht hu hq hw st su sq sw =
    let net : Network = record {
      listening = listening;
      resolve = resolve;
      quic = env;
      connections = connections;
      datagrams = datagrams;
      quic_connections = conns;
      http_server = srv;
      requests = requests;
      ending = ending;
      close = none;
      http_close = none;
      closed = λ i. none;
    } in
    (
      bound-Unserved tcp tcp-IsListener net t t_ln ht (refused t.server world st),
      bound-Unserved udp udp-IsListener net u u_conn hu
          (refused u.world.server world (ap (λ x. x.server) su)),
      bound-Unserved quic quic-IsListener net q q_ln hq (refused q.server world sq),
      bound-Unserved web_socket web_socket-IsListener net w w_ln hw (refused w.server world sw),
    )
