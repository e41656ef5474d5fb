-- ===== src/Listener/Interface/Laws.antt =====
-- The methods of the four servers have the laws of Listener.Interface.
use gopher_socks.Common.{◌≡◌, refl, ap, ◌∙◌, Option, none, some, false, arith}
use gopher_socks.Errors.{Error, sentinel, server_stopped}
use gopher_socks.Listener.Server.{enter}
use gopher_socks.Listener.Tcp as Tcp
use gopher_socks.Listener.Udp as Udp
use gopher_socks.Listener.Quic as Quic
use gopher_socks.Listener.Quic.Serving as QuicServing
use gopher_socks.Listener.WebSocket as WebSocket
use gopher_socks.Listener.Lifecycle.{
  start_tcp, start_udp, start_quic, start_web_socket, serve_tcp, serve_udp, serve_quic,
  serve_web_socket, udp_entered, web_socket_entered,
}
use gopher_socks.Listener.Interface.{IsListener}
use gopher_socks.Listener.Interface.Hosts.{IsHost, listener-IsListener}
use gopher_socks.Listener.Interface.Servers.{Network, tcp, udp, quic, web_socket}

tcp_rest : Network → Tcp.TcpServer → Option (Option Error) × Tcp.TcpServer
tcp_rest env t = let (r, s) = Tcp.serve env.connections t.server in (r, record t { server = s })

tcp-IsHost :
    IsHost {Env = Network} (λ t. t.server) (λ t. t.ln) (λ env. Tcp.listen env.listening) tcp_rest
unfolding Tcp.listen tcp_rest Tcp.serve
tcp-IsHost = record {
  once = λ env t n q. rw q;
  binds = λ env t h q. ground arith;
  unbound = λ env t e h. ground arith;
  same_server = λ env t. ground arith;
  refuses = λ env t no_entry.
      ap (λ e. let (r, s) = Tcp.looping env.connections e in (r, record t { server = s })) no_entry;
}

udp_rest : Network → Udp.UdpServer → Option (Option Error) × Udp.UdpServer
udp_rest env u = udp_entered env.datagrams u (enter u.world.server)

udp-IsHost :
    IsHost {Env = Network}
      (λ u. u.world.server)
      (λ u. u.conn)
      (λ env. Udp.listen env.resolve env.listening)
      udp_rest
unfolding Udp.listen udp_rest
udp-IsHost = record {
  once = λ env u n q. rw q;
  binds = λ env u h q. ground arith;
  unbound = λ env u e h. ground arith;
  same_server = λ env u. ground arith;
  refuses = λ env u no_entry. ap (udp_entered env.datagrams u) no_entry;
}

quic_rest : Network → Quic.QuicServer → Option (Option Error) × Quic.QuicServer
quic_rest env q =
    let (r, codes, s) = QuicServing.serve env.quic_connections q.server in
    (r, record q { server = s })

quic-IsHost :
    IsHost {Env = Network} (λ q. q.server) (λ q. q.ln) (λ env. Quic.listen env.quic) quic_rest
unfolding Quic.listen quic_rest QuicServing.serve
quic-IsHost = record {
  once = λ env q n e. rw e;
  binds = λ env q h e. ground arith;
  unbound = λ env q e h. ground arith;
  same_server = λ env q. ground arith;
  refuses = λ env q no_entry.
      ap
        (λ e.
          let (r, codes, s) = QuicServing.looping env.quic_connections e in
          (r, record q { server = s }))
        no_entry;
}

web_socket_rest :
    Network → WebSocket.WebSocketServer → Option (Option Error) × WebSocket.WebSocketServer
web_socket_rest env w =
    web_socket_entered env.http_server env.requests env.ending w (enter w.server)

web_socket_not_entered :
    (env : Network) (w : WebSocket.WebSocketServer) (o : Option (Option Error))
    → web_socket_entered env.http_server env.requests o w (false, w.server)
      ≡ (some (some (sentinel server_stopped)), w)
web_socket_not_entered env w none = refl
web_socket_not_entered env w (some x) = refl

web_socket-IsHost :
    IsHost {Env = Network}
      (λ w. w.server)
      (λ w. w.ln)
      (λ env. WebSocket.listen env.listening)
      web_socket_rest
unfolding WebSocket.listen web_socket_rest
web_socket-IsHost = record {
  once = λ env w n q. rw q;
  binds = λ env w h q. ground arith;
  unbound = λ env w e h. ground arith;
  same_server = λ env w. ground arith;
  refuses = λ env w no_entry.
      ap (web_socket_entered env.http_server env.requests env.ending w) no_entry
      ∙ web_socket_not_entered env w env.ending;
}

pub tcp-IsListener : IsListener tcp
unfolding tcp start_tcp serve_tcp Tcp.stop_listener tcp_rest
tcp-IsListener =
    listener-IsListener (λ t. t.server) (λ t. t.ln) (λ env. Tcp.listen env.listening) tcp_rest
      tcp-IsHost tcp.stop_listener tcp.set_announce_new_session (λ env t. (_, (refl, refl)))
      (λ env t. refl)

pub udp-IsListener : IsListener udp
unfolding udp start_udp serve_udp Udp.stop_listener udp_rest
udp-IsListener =
    listener-IsListener (λ u. u.world.server) (λ u. u.conn)
      (λ env. Udp.listen env.resolve env.listening) udp_rest udp-IsHost udp.stop_listener
      udp.set_announce_new_session (λ env u. (u.world, (refl, refl))) (λ env u. refl)

pub quic-IsListener : IsListener quic
unfolding quic start_quic serve_quic Quic.stop_listener quic_rest
quic-IsListener =
    listener-IsListener (λ q. q.server) (λ q. q.ln) (λ env. Quic.listen env.quic) quic_rest
      quic-IsHost quic.stop_listener quic.set_announce_new_session (λ env q. (_, (refl, refl)))
      (λ env q. refl)

pub web_socket-IsListener : IsListener web_socket
unfolding web_socket start_web_socket serve_web_socket WebSocket.stop_listener web_socket_rest
web_socket-IsListener =
    listener-IsListener (λ w. w.server) (λ w. w.ln) (λ env. WebSocket.listen env.listening)
      web_socket_rest web_socket-IsHost web_socket.stop_listener web_socket.set_announce_new_session
      (λ env w. (_, (refl, refl))) (λ env w. refl)
