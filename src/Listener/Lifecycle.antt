-- ===== src/Listener/Lifecycle.antt =====
-- listener/server.go, serveContext and legacyHandler, and the StartListener and Serve of the four servers
-- around the loops that their own modules model.
use gopher_socks.Common.{ℕ, List, [], ◌∷◌, Option, none, some, Bool, true, false}
use gopher_socks.Errors.{Error, sentinel, canceled, server_stopped, Result}
use gopher_socks.Listener.Server.{SessionRef, Server, enter, wg_done, or_cause}
use gopher_socks.Listener.Tcp as Tcp
use gopher_socks.Listener.Udp as Udp
use gopher_socks.Listener.Quic as Quic
use gopher_socks.Listener.Quic.Serving as QuicServing
use gopher_socks.Listener.WebSocket as WebSocket

-- The context that `serveContext` returns: its cause once it has ended, and whether the AfterFunc on the
-- server's context is still set.
pub record Merged : Type 0 where
  pub cause : Option Error
  pub linked : Bool

unfoldable pub serve_context : Option Error → Merged
serve_context caller = record { cause = caller; linked = true }

-- What may happen to it: the caller's context ends, the server's does, or Serve calls the function that
-- serveContext returned.
pub data Ending : Type 0 where
  caller_ends server_ends : Error → Ending
  released : Ending

unfoldable pub end : Ending → Merged → Merged
end (caller_ends e) m = record m { cause = some (or_cause m.cause e) }
end (server_ends e) m = elim m.linked [
  | true ↦ record m { cause = some (or_cause m.cause e) }
  | false ↦ m
]
end released m = record { cause = some (or_cause m.cause (sentinel canceled)); linked = false }

-- What `legacyHandler` does in turn: it calls Data, it calls the announce function with its options, and
-- it waits for the session's context.
pub data Act : Type 0 where
  calls_data : Act
  announces : ℕ → ℕ → Act
  waits_for_context : Act

unfoldable pub legacy_handler : Server → List Act
legacy_handler s = elim s.announce [
  | none ↦ calls_data ∷ waits_for_context ∷ []
  | some fn ↦ calls_data ∷ announces fn s.announce_opts ∷ waits_for_context ∷ []
]

-- StartListener: the answer of Listen, and whether a goroutine with Serve has been started.
abbrev pub started {ℓ} : {S : Type ℓ} → Option Error × S → Option Error × Bool × S
started (none, s) = (none, true, s)
started (some e, s) = (some e, false, s)

unfoldable pub start_tcp : Result ℕ → Tcp.TcpServer → Option Error × Bool × Tcp.TcpServer
start_tcp answer t = started (Tcp.listen answer t)

unfoldable pub start_udp :
    Option Error → Result ℕ → Udp.UdpServer → Option Error × Bool × Udp.UdpServer
start_udp resolve answer u = started (Udp.listen resolve answer u)

unfoldable pub start_web_socket :
    Result ℕ → WebSocket.WebSocketServer → Option Error × Bool × WebSocket.WebSocketServer
start_web_socket answer w = started (WebSocket.listen answer w)

unfoldable pub start_quic : Quic.ListenEnv → Quic.QuicServer → Option Error × Bool × Quic.QuicServer
start_quic env q = started (Quic.listen env q)

-- `Serve`: it binds the address, or returns the error of Listen; the rest gets the server that is bound.
-- `none` is a Serve that still runs.
abbrev pub bound {ℓ} :
    {S : Type ℓ} → (S → Option (Option Error) × S) → Option Error × S → Option (Option Error) × S
bound rest (some e, s) = (some (some e), s)
bound rest (none, s) = rest s

unfoldable pub serve_tcp :
    Result ℕ → List (Bool × Tcp.Incoming) → Tcp.TcpServer → Option (Option Error) × Tcp.TcpServer
serve_tcp answer events t =
    bound (λ t'. let (r, s) = Tcp.serve events t'.server in (r, record t' { server = s }))
      (Tcp.listen answer t)

unfoldable pub serve_quic :
    Quic.ListenEnv
    → List (Bool × QuicServing.Incoming)
    → Quic.QuicServer
    → Option (Option Error) × Quic.QuicServer
serve_quic env events q =
    bound
      (λ q'.
        let (r, codes, s) = QuicServing.serve events q'.server in (r, record q' { server = s }))
      (Quic.listen env q)

-- The deferred wg.Done, once the loop has ended.
abbrev pub udp_finish :
    Option (Option Error) × Udp.UdpServer → Option (Option Error) × Udp.UdpServer
udp_finish (none, u) = (none, u)
udp_finish (some r, u) = (some r, Udp.with_server (wg_done u.world.server) u)

abbrev pub udp_entered :
    List (Bool × Udp.Incoming)
    → Udp.UdpServer
    → Bool × Server
    → Option (Option Error) × Udp.UdpServer
udp_entered events u (true, s) = udp_finish (Udp.serve_loop events (Udp.with_server s u))
udp_entered events u (false, s) = (some (some (sentinel server_stopped)), Udp.with_server s u)

unfoldable pub serve_udp :
    Option Error
    → Result ℕ
    → List (Bool × Udp.Incoming)
    → Udp.UdpServer
    → Option (Option Error) × Udp.UdpServer
serve_udp resolve answer events u =
    bound (λ u'. udp_entered events u' (enter u'.world.server)) (Udp.listen resolve answer u)

-- The requests that net/http hands to `upgrade`, each with the answer of Upgrade.
unfoldable pub upgrade_all : List (Option Error × SessionRef) → Server → Server
upgrade_all [] s = s
upgrade_all ((answer, sess) ∷ requests) s = upgrade_all requests (WebSocket.upgrade answer sess s).1

-- Serve of the http.Server named `srv`: what it answers if it ends.
abbrev pub web_socket_entered :
    ℕ
    → List (Option Error × SessionRef)
    → Option (Option Error)
    → WebSocket.WebSocketServer
    → Bool × Server
    → Option (Option Error) × WebSocket.WebSocketServer
web_socket_entered srv requests none w (true, s) =
    (none, record w { http = some srv; server = upgrade_all requests s })
web_socket_entered srv requests (some answer) w (true, s) = (
  some (WebSocket.serve_result answer),
  record w { http = some srv; server = wg_done (upgrade_all requests s) },
)
web_socket_entered srv requests ending w (false, s) =
    (some (some (sentinel server_stopped)), record w { server = s })

unfoldable pub serve_web_socket :
    Result ℕ
    → ℕ
    → List (Option Error × SessionRef)
    → Option (Option Error)
    → WebSocket.WebSocketServer
    → Option (Option Error) × WebSocket.WebSocketServer
serve_web_socket answer srv requests ending w =
    bound (λ w'. web_socket_entered srv requests ending w' (enter w'.server))
      (WebSocket.listen answer w)
