-- ===== src/Listener/Quic/Serving.antt =====
-- quic.go, Serve: the loop over the answers of Accept.
use gopher_socks.Common.{List, [], ◌∷◌, Option, none, some, Bool, true, false, ◌||◌, if◌then◌else◌}
use gopher_socks.Errors.{
  Error, sentinel, quic_closed, server_stopped, connection, network, errors_is,
}
use gopher_socks.Listener.Server.{Server, enter, wg_done}
use gopher_socks.Listener.Accept.{Admission, over, stopping, admitted, admit}
use gopher_socks.Listener.Quic.{CloseCode, code_closed, code_server_full}

-- An answer of Accept.
pub data Incoming : Type 0 where
  connected : Incoming
  failed : Error → Incoming

abbrev pub answered :
    (Server → Option (Option Error) × List CloseCode × Server)
    → Admission × Server
    → Option (Option Error) × List CloseCode × Server
answered loop (over, s) = let (r, codes, s') = loop s in (r, code_server_full ∷ codes, s')
answered loop (stopping, s) = (some none, code_closed ∷ [], s)
answered loop (admitted, s) = loop s

-- The loop of `Serve`: what it returns (`none` while it waits), and the codes with which it closed
-- connections.
unfoldable pub serve_loop :
    List (Bool × Incoming) → Server → Option (Option Error) × List CloseCode × Server
serve_loop [] s = (none, [], s)
serve_loop ((done, connected) ∷ rest) s = answered (serve_loop rest) (admit s)
serve_loop ((done, failed e) ∷ rest) s =
    if done || errors_is e quic_closed
    then (some none, [], s)
    else (some (some (network connection "accept failed" e)), [], s)

-- The deferred wg.Done of a Serve that returns.
abbrev pub finish :
    Option (Option Error) × List CloseCode × Server
    → Option (Option Error) × List CloseCode × Server
finish (none, codes, s) = (none, codes, s)
finish (some r, codes, s) = (some r, codes, wg_done s)

abbrev pub looping :
    List (Bool × Incoming) → Bool × Server → Option (Option Error) × List CloseCode × Server
looping events (true, s) = finish (serve_loop events s)
looping events (false, s) = (some (some (sentinel server_stopped)), [], s)

-- `Serve` behind its Listen.
unfoldable pub serve :
    List (Bool × Incoming) → Server → Option (Option Error) × List CloseCode × Server
serve events s = looping events (enter s)
