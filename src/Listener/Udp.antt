-- ===== src/Listener/Udp.antt =====
-- listener/udp.go: the UDP server. A client address is a session.
pub mod Datagrams
pub mod Idle
pub mod Steps
pub mod Arrival
pub mod InOrder
pub mod Reachable
pub mod Ticks
pub mod Expiry
mod Tests
use Prim.Native.String.{String}
use gopher_socks.Common.{
  ℕ, ◌+◌, ◌*◌, ◌≡◌, List, [], ◌∷◌, ◌++◌, Option, none, some, Bool, true, false, ◌||◌, ◌&&◌, ◌==◌,
  length, take, ltb, min, if◌then◌else◌,
}
use gopher_socks.Common.Int.{ℤ, pos, pos_part, ◌-ℤ◌, ltb_ℤ, max_ℤ}
use gopher_socks.Common.Assoc.{lookup}
use gopher_socks.Errors.{
  Error, sentinel, net_closed, session_closed, deadline_exceeded, connection, configuration,
  network, errors_is, Result, ok, err,
}
use gopher_socks.Listener.Config.{ServerConfig, default_config, validate_config}
use gopher_socks.Listener.Config.Options.{ServerOption, apply_options}
use gopher_socks.Listener.HostPort.{host_port}
use gopher_socks.Listener.Server.{
  SessionRef, Server, World, new_server, get_active_sessions, close_session, stop_to_wait,
}
use gopher_socks.Listener.Accept.{Admission, over, stopping, admitted, accept}

abbrev pub max_udp_payload : ℕ
max_udp_payload = 65507

-- `UDPServer`, with its sessions: the channel `in` of each udpTransport, and the time of the last touch.
-- A number names the socket.
pub record UdpServer : Type 0 where
  pub world : World
  pub cfg : ServerConfig
  pub addr : String
  pub conn : Option ℕ
  pub inbox : ℕ → List (List ℕ)
  pub last : ℕ → ℤ

-- `NewUDP`.
unfoldable pub new_udp : String → ℕ → Option Error → List ServerOption → Result UdpServer
new_udp host port parent opts =
    let config = apply_options opts default_config in
    elim (validate_config config) [
      | some e ↦ err (network configuration "invalid configuration" e)
      | none ↦ ok (record {
        world = record { server = new_server parent config.max_connections; closed = λ i. none };
        cfg = config;
        addr = host_port host port;
        conn = none;
        inbox = λ i. [];
        last = λ i. pos 0;
      })
    ]

-- `Listen`, with the answers of net.ResolveUDPAddr and net.ListenUDP.
unfoldable pub listen : Option Error → Result ℕ → UdpServer → Option Error × UdpServer
listen resolve answer u = elim u.conn [
  | some conn ↦ (none, u)
  | none ↦ elim resolve [
    | some e ↦ (some (network connection "failed to resolve address" e), u)
    | none ↦ elim answer [
      | err e ↦ (some (network connection "failed to start listener" e), u)
      | ok conn ↦ (none, record u { conn = some conn })
    ]
  ]
]

abbrev pub set {ℓ} : {A : Type ℓ} → (ℕ → A) → ℕ → A → ℕ → A
set f i a j = if i == j then a else f j

-- The capacity of `in`.
abbrev pub capacity : UdpServer → ℕ
capacity u = pos_part (max_ℤ u.cfg.buffer_size (pos 1))

-- The end of `deliver`: touch, and the datagram in the channel or dropped.
unfoldable pub push : ℤ → SessionRef → List ℕ → UdpServer → UdpServer
push now sess msg u =
    let waiting = u.inbox sess.id in
    record u {
      last = set u.last sess.id now;
      inbox =
          if ltb (length waiting) (capacity u)
          then set u.inbox sess.id (waiting ++ msg ∷ [])
          else u.inbox;
    }

abbrev pub with_server : Server → UdpServer → UdpServer
with_server s u = record u { world = record (u.world) { server = s } }

abbrev pub opened : ℤ → SessionRef → List ℕ → UdpServer → Admission × Server → UdpServer
opened now sess msg u (admitted, s) =
    push now sess msg (record (with_server s u) { inbox = set u.inbox sess.id [] })
opened now sess msg u (refusal, s) = with_server s u

-- `deliver` with `open`; `fresh` is the pointer that newSession would give.
unfoldable pub deliver : ℤ → String → ℕ → List ℕ → UdpServer → UdpServer
unfolding push
deliver now addr fresh msg u = elim (lookup addr u.world.server.by_addr) [
  | some sess ↦ push now sess msg u
  | none ↦
      let sess : SessionRef = record { id = fresh; addr = addr } in
      opened now sess msg u (accept sess u.world.server)
]

-- The length of Serve's buffer.
abbrev pub buf_size : UdpServer → ℕ
buf_size u = min u.cfg.max_length max_udp_payload + 1

-- One round of Serve: ReadFromUDP cuts the datagram to the buffer.
unfoldable pub receive : ℤ → String → ℕ → List ℕ → UdpServer → UdpServer
unfolding deliver
receive now addr fresh datagram u =
    let buf = take (buf_size u) datagram in
    if length buf == 0
    then u
    else if ltb u.cfg.max_length (length buf)
    then u
    else deliver now addr fresh buf u

-- An answer of ReadFromUDP, with the time and the pointer that newSession would give.
pub data Incoming : Type 0 where
  datagram : ℤ → String → ℕ → List ℕ → Incoming
  failed : Error → Incoming

-- The loop of `Serve`: each answer comes with whether the context has ended by then. `none` is a loop
-- that waits, and `some` has what Serve returns.
unfoldable pub serve_loop : List (Bool × Incoming) → UdpServer → Option (Option Error) × UdpServer
unfolding receive
serve_loop [] u = (none, u)
serve_loop ((done, datagram now addr fresh bytes) ∷ rest) u =
    serve_loop rest (receive now addr fresh bytes u)
serve_loop ((done, failed e) ∷ rest) u =
    if done || errors_is e net_closed
    then (some none, u)
    else (some (some (network connection "read failed" e)), u)

-- A tick of `reapIdle`, for the sessions of the copied map.
abbrev pub idle : ℤ → UdpServer → SessionRef → Bool
idle now u sess = ltb_ℤ u.cfg.read_timeout (now -ℤ u.last sess.id)

unfoldable pub reap : (SessionRef → Bool) → World → List (String × SessionRef) → World
unfolding close_session
reap is_idle w [] = w
reap is_idle w ((k, sess) ∷ rest) =
    reap is_idle (if is_idle sess then close_session (sentinel deadline_exceeded) w sess else w)
      rest

unfoldable pub reap_idle : ℤ → UdpServer → UdpServer
unfolding reap
reap_idle now u =
    if ltb_ℤ (pos 0) u.cfg.read_timeout
    then record u { world = reap (idle now u) u.world (get_active_sessions u.world.server) }
    else u

-- `readMessage`: the select takes a message or sees the session done; `none` is a call that waits.
unfoldable pub read_message : Bool → Bool → List (List ℕ) → Option (Result (List ℕ) × List (List ℕ))
read_message done first [] = if done then some (err (sentinel session_closed), []) else none
read_message done first (m ∷ rest) =
    if done && first then some (err (sentinel session_closed), m ∷ rest) else some (ok m, rest)

-- `writeMessages`, with the answers of WriteToUDP, which succeeds where none is given: the datagrams that
-- went out, and the error.
unfoldable pub write_messages : List (Option Error) → List (List ℕ) → List (List ℕ) × Option Error
write_messages answers [] = ([], none)
write_messages [] (m ∷ msgs) = let (sent, e) = write_messages [] msgs in (m ∷ sent, e)
write_messages (none ∷ answers) (m ∷ msgs) =
    let (sent, e) = write_messages answers msgs in (m ∷ sent, e)
write_messages (some e ∷ answers) (m ∷ msgs) = ([], some e)

-- `close` of a udpTransport: how often it closes `done`; `true` is a closeOnce that has run.
unfoldable pub close : Bool → ℕ × Bool
close true = (0, true)
close false = (1, true)

-- `closeConn`, with the answer of Close.
unfoldable pub close_conn : Option Error → UdpServer → Option Error
close_conn answer u = elim u.conn [
  | none ↦ none
  | some conn ↦ elim answer [
    | none ↦ none
    | some e ↦ if errors_is e net_closed then none else some e
  ]
]

-- `StopListener` up to the wg.Wait of `stop`.
unfoldable pub stop_listener : Option Error → UdpServer → Option Error × UdpServer
unfolding close_conn
stop_listener answer u = (close_conn answer u, record u { world = stop_to_wait u.world })
