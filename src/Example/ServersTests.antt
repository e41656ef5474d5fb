-- ===== src/Example/ServersTests.antt =====
-- example/: how the main functions of the four listener programs end, on a network that refuses nothing.
use gopher_socks.Common.{◌≡◌, refl, none}
use gopher_socks.Common.Assoc.{lookup, insert}
use gopher_socks.Framing.Legacy.{new_legacy}
use gopher_socks.Errors.{ok}
use gopher_socks.Listener.Config.{validate_config}
use gopher_socks.Listener.Config.Options.{ServerOption, apply_options}
use gopher_socks.Listener.Config.Options as listener
use gopher_socks.Listener.Lifecycle.{start_tcp, start_udp, start_quic, start_web_socket}
use gopher_socks.Listener.Tcp as Tcp
use gopher_socks.Listener.Udp as Udp
use gopher_socks.Listener.Quic as Quic
use gopher_socks.Listener.WebSocket as WebSocket
use gopher_socks.Facade.{
  to_listener_options, new_tcp_listener_with_context, new_udp_listener_with_context,
  new_web_socket_listener_with_context, new_tcp_listener, new_udp_listener, new_web_socket_listener,
}
use gopher_socks.Facade.Options.{
  with_max_length, with_buffer_size, with_timeouts, with_max_connections,
}
use gopher_socks.Example.Servers.{tcp_main, udp_main, quic_main, web_socket_main, returns, blocks}

programs_end :
    (tcp_main (ok 1) ≡ returns)
    × (udp_main none (ok 1) ≡ blocks)
    × (quic_main (record {
      cert = ok 1;
      resolve = none;
      listen_udp = ok 1;
      transport = 1;
      listen_quic = ok 1;
    })
        ≡ blocks)
    × (web_socket_main (ok 1) ≡ returns)
unfolding tcp_main udp_main web_socket_main quic_main new_tcp_listener new_tcp_listener_with_context
    Tcp.new_tcp validate_config apply_options to_listener_options with_max_connections
    listener.with_max_connections with_timeouts listener.with_timeouts with_buffer_size
    listener.with_buffer_size with_max_length listener.with_max_length start_tcp Tcp.listen
    new_udp_listener new_udp_listener_with_context new_web_socket_listener
    new_web_socket_listener_with_context start_quic start_udp start_web_socket Quic.bind Quic.listen
    Quic.new_quic Quic.resolve_codecs Quic.resolve_loop Quic.resolve_one Quic.tls_config Udp.listen
    Udp.new_udp WebSocket.build WebSocket.listen WebSocket.new_web_socket new_legacy lookup insert
programs_end = (refl, refl, refl, refl)
