-- ===== src/Example/Servers.antt =====
-- example/tcplistener, udplistener, wslistener and quiclistener: how the main functions go and end.
use gopher_socks.Common.{ℕ, ◌*◌, List, [], ◌∷◌, Option, none, some, Bool}
use gopher_socks.Common.Int.{pos}
use gopher_socks.Errors.{Error, Result, ok, err}
use gopher_socks.Listener.Config.{second}
use gopher_socks.Listener.Config.Options.{ServerOption, apply_options}
use gopher_socks.Listener.Config.Options as listener
use gopher_socks.Listener.Server.{set_announce_new_session}
use gopher_socks.Listener.Lifecycle.{start_tcp, start_udp, start_quic, start_web_socket}
use gopher_socks.Listener.Session.{Session}
use gopher_socks.Listener.Udp as Udp
use gopher_socks.Listener.Quic as Quic
use gopher_socks.Facade.{ServerOptFunc, new_tcp_listener, new_udp_listener, new_web_socket_listener}
use gopher_socks.Facade.Options.{
  with_max_length, with_buffer_size, with_timeouts, with_max_connections,
}
use gopher_socks.Example.Echo.{Item, Echoed, Line, echo, handle_shutdown}

-- How a main ends: os.Exit(1), a panic, its last line, or `select {}`.
pub data Exit : Type 0 where
  exits_1 : Exit
  panics : Error → Exit
  returns : Exit
  blocks : Exit

-- `handleNewSession` and its like, as the announce callback; the options are nil.
abbrev pub handler : Option ℕ
handler = some 1

abbrev pub nil_options : ℕ
nil_options = 0

-- The end of main, after StartListener.
abbrev pub main_end {ℓ} : {S : Type ℓ} → (Error → Exit) → Exit → Option Error × Bool × S → Exit
main_end on_error last (some e, started, s) = on_error e
main_end on_error last (none, started, s) = last

abbrev pub exit_on : Error → Exit
exit_on e = exits_1

-- tcplistener.
abbrev pub tcp_options : List ServerOptFunc
tcp_options =
    with_max_length (1024 * 1024)
    ∷ with_buffer_size (pos 100)
    ∷ with_timeouts (pos (30 * second)) (pos (30 * second))
    ∷ with_max_connections (pos 1000)
    ∷ []

unfoldable pub tcp_main : Result ℕ → Exit
tcp_main answer = elim (new_tcp_listener "0.0.0.0" 8001 tcp_options) [
  | err e ↦ exits_1
  | ok t ↦ main_end exit_on returns (
      start_tcp answer
        (record t { server = set_announce_new_session handler nil_options t.server }))
]

-- udplistener.
abbrev pub udp_options : List ServerOptFunc
udp_options =
    with_max_length 65507
    ∷ with_buffer_size (pos 1000)
    ∷ with_timeouts (pos (60 * second)) (pos (60 * second))
    ∷ with_max_connections (pos 1000)
    ∷ []

unfoldable pub udp_main : Option Error → Result ℕ → Exit
udp_main resolve answer = elim (new_udp_listener "0.0.0.0" 8002 udp_options) [
  | err e ↦ exits_1
  | ok u ↦ main_end exit_on blocks (
      start_udp resolve answer
        (Udp.with_server (set_announce_new_session handler nil_options u.world.server) u))
]

-- wslistener.
abbrev pub web_socket_options : List ServerOptFunc
web_socket_options =
    with_max_length (1024 * 1024)
    ∷ with_buffer_size (pos 100)
    ∷ with_timeouts (pos (30 * second)) (pos (30 * second))
    ∷ []

unfoldable pub web_socket_main : Result ℕ → Exit
web_socket_main answer = elim (new_web_socket_listener "0.0.0.0" 8001 web_socket_options) [
  | err e ↦ panics e
  | ok w ↦ main_end panics returns (
      start_web_socket answer
        (record w { server = set_announce_new_session handler nil_options w.server }))
]

-- quiclistener, which takes the options and the constructor of the package listener.
abbrev pub quic_options : List ServerOption
quic_options =
    listener.with_max_length (1024 * 1024)
    ∷ listener.with_buffer_size (pos 1000)
    ∷ listener.with_timeouts (pos (30 * second)) (pos (30 * second))
    ∷ listener.with_max_connections (pos 1000)
    ∷ []

unfoldable pub quic_main : Quic.ListenEnv → Exit
quic_main env = elim (Quic.new_quic "0.0.0.0" 8443 none quic_options) [
  | err e ↦ exits_1
  | ok q ↦
      main_end exit_on blocks (
        start_quic env
          (record q { server = set_announce_new_session handler nil_options q.server }))
]

-- handleSession of quiclistener and echo of wslistener: the same loop as tcplistener's.
unfoldable pub quic_session : List Item → Session → Echoed
quic_session items s = echo items s

unfoldable pub web_socket_echo : List Item → Session → Echoed
web_socket_echo items s = echo items s

-- handleShutdown of udplistener and quiclistener: the same as tcplistener's.
unfoldable pub udp_shutdown : Bool → Option Error → List Line
udp_shutdown in_time answer = handle_shutdown in_time answer

unfoldable pub quic_shutdown : Bool → Option Error → List Line
quic_shutdown in_time answer = handle_shutdown in_time answer
