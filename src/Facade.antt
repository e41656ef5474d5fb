-- ===== src/Facade.antt =====
-- listener.go, listeneropts.go and client.go: the root package's functions, over those of listener and client.
pub mod Options
use Prim.Native.String.{String}
use gopher_socks.Common.{ℕ, List, [], ◌∷◌, Option, none, some, if◌then◌else◌}
use gopher_socks.Common.Assoc.{str_eq}
use gopher_socks.Errors.{Error, message, Result, err}
use gopher_socks.Listener.Config.Options.{ServerOption}
use gopher_socks.Listener.Tcp.{TcpServer, new_tcp}
use gopher_socks.Listener.Udp.{UdpServer, new_udp}
use gopher_socks.Listener.Quic.{QuicServer, new_quic}
use gopher_socks.Listener.WebSocket.{WebSocketServer, new_web_socket}
use gopher_socks.Client.Config.{ClientOptFunc, new_client_config}
use gopher_socks.Client.Quic.{QuicClient, new_quic_client}
use gopher_socks.Client.Udp.{UdpClient, new_udp_client}

-- `ServerOptFunc`, which converts to a ServerOption.
abbrev pub ServerOptFunc : Type 0
ServerOptFunc = ServerOption

-- `toListenerOptions`.
unfoldable pub to_listener_options : List ServerOptFunc → List ServerOption
to_listener_options [] = []
to_listener_options (o ∷ opts) = o ∷ to_listener_options opts

-- The constructors with a context; `parent` is the cause of its end.
unfoldable pub new_quic_listener_with_context :
    String → ℕ → Option Error → List ServerOptFunc → Result QuicServer
new_quic_listener_with_context host port parent opts =
    new_quic host port parent (to_listener_options opts)

unfoldable pub new_tcp_listener_with_context :
    String → ℕ → Option Error → List ServerOptFunc → Result TcpServer
new_tcp_listener_with_context host port parent opts =
    new_tcp host port parent (to_listener_options opts)

unfoldable pub new_udp_listener_with_context :
    String → ℕ → Option Error → List ServerOptFunc → Result UdpServer
new_udp_listener_with_context host port parent opts =
    new_udp host port parent (to_listener_options opts)

unfoldable pub new_web_socket_listener_with_context :
    String → ℕ → Option Error → List ServerOptFunc → Result WebSocketServer
new_web_socket_listener_with_context host port parent opts =
    new_web_socket host port parent (to_listener_options opts)

-- The constructors without one: context.Background() does not end.
unfoldable pub new_quic_listener : String → ℕ → List ServerOptFunc → Result QuicServer
new_quic_listener host port opts = new_quic_listener_with_context host port none opts

unfoldable pub new_tcp_listener : String → ℕ → List ServerOptFunc → Result TcpServer
new_tcp_listener host port opts = new_tcp_listener_with_context host port none opts

unfoldable pub new_udp_listener : String → ℕ → List ServerOptFunc → Result UdpServer
new_udp_listener host port opts = new_udp_listener_with_context host port none opts

unfoldable pub new_web_socket_listener : String → ℕ → List ServerOptFunc → Result WebSocketServer
new_web_socket_listener host port opts = new_web_socket_listener_with_context host port none opts

-- `NewQUICClient` and `NewUDPClient`.
unfoldable pub quic_client : String → List ClientOptFunc → Result QuicClient
quic_client addr opts =
    if str_eq addr ""
    then err (message "address is required")
    else new_quic_client addr (some (new_client_config opts))

unfoldable pub udp_client : String → List ClientOptFunc → Result UdpClient
udp_client addr opts =
    if str_eq addr ""
    then err (message "address is required")
    else new_udp_client addr (some (new_client_config opts))
