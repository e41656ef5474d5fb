-- ===== src/Listener/Server.antt =====
-- listener/server.go: the registry of sessions, admission, the announce callback and the stop sequence.
-- Each function is one critical section or atomic operation, or a sequence of them that no other
-- goroutine comes between; Listener.Interleaving has what goroutines do to one another.
pub mod Registry
pub mod Stopping
pub mod Spec
pub mod Order
mod Tests
use Prim.Native.String.{String}
use gopher_socks.Common.{
  ℕ, ◌+◌, ◌-◌, List, [], ◌∷◌, Option, none, some, Bool, true, false, ◌&&◌, ◌==◌, if◌then◌else◌,
}
use gopher_socks.Common.Int.{ℤ, pos, negsuc, ◌+ℤ◌, ltb_ℤ}
use gopher_socks.Common.Assoc.{lookup, insert, erase}
use gopher_socks.Errors.{Error, sentinel, server_stopped, session_closed}

-- A `*session` as the server sees it: `id` is the pointer, `addr` is addr.String().
pub record SessionRef : Type 0 where
  pub id : ℕ
  pub addr : String

-- `server`. `cause` is context.Cause of `ctx` once that is cancelled, `wg` the count of the WaitGroup;
-- numbers name the announce callback and its options.
pub record Server : Type 0 where
  pub max_connections : ℤ
  pub by_addr : List (String × SessionRef)
  pub announce : Option ℕ
  pub announce_opts : ℕ
  pub stopped : Bool
  pub cause : Option Error
  pub active : ℤ
  pub wg : ℕ

-- `newServer`; `parent` is the cause of the parent context.
unfoldable pub new_server : Option Error → ℤ → Server
new_server parent max = record {
  max_connections = max;
  by_addr = [];
  announce = none;
  announce_opts = 0;
  stopped = false;
  cause = parent;
  active = pos 0;
  wg = 0;
}

unfoldable pub enter : Server → Bool × Server
enter s = if s.stopped then (false, s) else (true, record s { wg = s.wg + 1 })

unfoldable pub add_active : ℤ → Server → Server
add_active n s = record s { active = s.active +ℤ n }

unfoldable pub try_admit : Server → Bool × Server
unfolding add_active
try_admit s =
    let s' = add_active (pos 1) s in
    if ltb_ℤ s.max_connections s'.active then (false, add_active (negsuc 0) s') else (true, s')

unfoldable pub release : Server → Server
unfolding add_active
release s = add_active (negsuc 0) s

-- `wg.Done()`.
unfoldable pub wg_done : Server → Server
wg_done s = record s { wg = s.wg - 1 }

unfoldable pub add : SessionRef → Server → Server
add sess s = record s { by_addr = insert sess.addr sess s.by_addr }

abbrev pub same_session : SessionRef → Option SessionRef → Bool
same_session sess none = false
same_session sess (some found) = found.id == sess.id

unfoldable pub unregister : SessionRef → Server → Server
unregister sess s =
    if same_session sess (lookup sess.addr s.by_addr)
    then record s { by_addr = erase sess.addr s.by_addr }
    else s

-- `remove`, the onClose callback of every session.
unfoldable pub remove : SessionRef → Server → Server
unfolding unregister release
remove sess s = release (unregister sess s)

-- `SetAnnounceNewSession`.
unfoldable pub set_announce_new_session : Option ℕ → ℕ → Server → Server
set_announce_new_session fn opts s = record s { announce = fn; announce_opts = opts }

-- `GetActiveSessions`: a copy of the map.
unfoldable pub get_active_sessions : Server → List (String × SessionRef)
get_active_sessions s = s.by_addr

-- `GetSession`.
unfoldable pub get_session : Server → String → Option SessionRef
get_session s client_addr = lookup client_addr s.by_addr

-- The server and, for each session, the cause with which its closeWith has run.
pub record World : Type 0 where
  pub server : Server
  pub closed : ℕ → Option Error

abbrev pub update : (ℕ → Option Error) → ℕ → Error → ℕ → Option Error
update f i e j = if i == j then some e else f j

-- closeWith of one session, as far as the server sees it: once, and onClose first.
unfoldable pub close_session : Error → World → SessionRef → World
close_session cause w sess = elim (w.closed sess.id) [
  | some e ↦ w
  | none ↦ record { server = remove sess w.server; closed = update w.closed sess.id cause }
]

unfoldable pub close_all : Error → World → List (String × SessionRef) → World
unfolding close_session
close_all cause w [] = w
close_all cause w ((k, sess) ∷ rest) = close_all cause (close_session cause w sess) rest

abbrev pub or_cause : Option Error → Error → Error
or_cause none e = e
or_cause (some e) _ = e

-- What `stop` does while it holds the lock.
abbrev pub halt : Server → Server
halt s = record s { stopped = true; cause = some (or_cause s.cause (sentinel server_stopped)) }

-- `stop` up to its wg.Wait. `closeListener` does not touch the server.
unfoldable pub stop_to_wait : World → World
unfolding get_active_sessions
stop_to_wait w =
    close_all (sentinel server_stopped) (record w { server = halt w.server })
      (get_active_sessions w.server)

-- `stop`, alone on its server: `none` is that it waits in wg.Wait, for a goroutine that is still counted.
-- Listener.Interleaving.Stopper has it beside those goroutines.
unfoldable pub stop : World → Option World
stop w = let marked = stop_to_wait w in if marked.server.wg == 0 then some marked else none

-- `serveSession`: the handler runs, and then the session is closed.
unfoldable pub serve_session : (World → World) → SessionRef → World → World
serve_session h sess w = close_session (sentinel session_closed) (h w) sess
