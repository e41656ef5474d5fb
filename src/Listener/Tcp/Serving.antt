-- ===== src/Listener/Tcp/Serving.antt =====
-- tcp.go: the accept loop goes on behind full moments and transient errors, and keeps to the limit.
use gopher_socks.Common.{
  ◌≡◌, refl, List, [], ◌∷◌, ◌++◌, Option, none, some, Bool, true, false, ◌||◌, if◌then◌else◌, arith,
  All,
}
use gopher_socks.Errors.{Error, net_closed, timeout, connection, network, errors_is}
use gopher_socks.Listener.Server.{Server}
use gopher_socks.Listener.Accept.{accept}
use gopher_socks.Listener.Tcp.{Incoming, connected, failed, serve_loop}

-- Answers that do not end the loop: a connection, or a timeout while the context lasts.
abbrev pub passes : Bool × Incoming → Bool
passes (done, connected sess) = true
passes (true, failed e) = false
passes (false, failed e) = if errors_is e net_closed then false else errors_is e timeout

-- Every connection is handled, in order.
abbrev pub accept_all : List (Bool × Incoming) → Server → Server
accept_all [] s = s
accept_all ((done, connected sess) ∷ rest) s = accept_all rest (accept sess s).1
accept_all ((done, failed e) ∷ rest) s = accept_all rest s

-- What Serve returns for an answer that does not pass.
abbrev pub verdict : Bool × Incoming → Option Error
verdict (done, connected sess) = none
verdict (done, failed e) =
    if done || errors_is e net_closed then none else some (network connection "accept failed" e)

-- While the answers pass the loop has handled every connection among them and waits; the first answer
-- that does not pass ends it, with nil if the context or the listener has ended and else with the error.
pub serve_loop-passes :
    (front : List (Bool × Incoming)) (s : Server)
    → All (λ e. passes e ≡ true) front
    → (serve_loop front s ≡ (none, accept_all front s))
      × ((last : Bool × Incoming) (rest : List (Bool × Incoming))
          → passes last ≡ false
          → serve_loop (front ++ last ∷ rest) s ≡ (some (verdict last), accept_all front s))
unfolding serve_loop
serve_loop-passes [] s every = (refl, ends)
  where
    ends :
        (last : Bool × Incoming) (rest : List (Bool × Incoming))
        → passes last ≡ false
        → serve_loop (last ∷ rest) s ≡ (some (verdict last), s)
    ends (done, connected sess) rest h = cc
    ends (true, failed e) rest h = refl
    ends (false, failed e) rest h = ground arith
serve_loop-passes ((done, connected sess) ∷ front) s every =
    serve_loop-passes front (accept sess s).1 every.1
serve_loop-passes ((true, failed e) ∷ front) s every = absurd (ground arith)
serve_loop-passes ((false, failed e) ∷ front) s every =
    let (waits, ends) = serve_loop-passes front s every.1 in
    (ground (arith, waits, every.0), λ last rest h. ground (arith, ends last rest h, every.0))
