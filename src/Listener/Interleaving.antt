-- ===== src/Listener/Interleaving.antt =====
-- server.go, with the connection handlers of tcp.go, udp.go, quic.go and websocket.go: the connections of
-- a server beside one another. A step is one critical section or one atomic operation of one goroutine; where
-- one function has two of them on fields that nothing reads together (the registry and the counter in
-- remove, the mark and the context in stop), they are one step.
pub mod Slots
pub mod Late
pub mod Draining
pub mod Lookup
pub mod Registered
pub mod Ending
pub mod Stopper
mod StopperTests
mod Tests
use gopher_socks.Common.{
  ℕ, ◌≡◌, List, [], ◌∷◌, ◌++◌, Option, none, some, Bool, true, false, if◌then◌else◌,
}
use gopher_socks.Common.Int.{ℤ, pos, negsuc, ltb_ℤ}
use gopher_socks.Errors.{sentinel, server_stopped}
use gopher_socks.Listener.Server.{
  SessionRef, Server, enter, add_active, release, wg_done, add, remove, or_cause,
}

-- What a goroutine of the server has done so far. `over` and `admitted` have added to the counter in
-- tryAdmit, and `over` found it too high; `entered` and `refused` have had their answer from enter;
-- `failing` has released its slot without a session (no upgrade, no stream, no codec); `looping` is a
-- Serve loop. A session is registered by add and closed once, in either order.
pub data Conn : Type 0 where
  over : Conn
  admitted : Conn
  refused : Conn
  entered : Conn
  failing : Conn
  looping : Conn
  in_session : SessionRef → Bool → Bool → Conn

pub record Shared : Type 0 where
  pub server : Server
  pub conns : List Conn

-- The server after the mark of `stop` and its cancel.
unfoldable pub mark_stopped : Server → Server
mark_stopped s = record s {
  stopped = true;
  cause = some (or_cause s.cause (sentinel server_stopped));
}

-- One goroutine, `c` in the list, goes on as `c'`.
pub data Advance (s : Server) : Conn → Conn → Server → Type 0 where
  enters : Advance s admitted (if (enter s).0 then entered else refused) (enter s).1
  fails : Advance s entered failing (release s)
  creates : (sess : SessionRef) → Advance s entered (in_session sess false false) s
  registers :
      (sess : SessionRef) (closed : Bool)
      → Advance s (in_session sess false closed) (in_session sess true closed) (add sess s)
  closes :
      (sess : SessionRef) (registered : Bool)
      → Advance s
          (in_session sess registered false)
          (in_session sess registered true)
          (remove sess s)

-- One goroutine, `c` in the list, ends. A session's goroutine does when its handler has returned and
-- serveSession has closed it.
pub data Finish (s : Server) : Conn → Server → Type 0 where
  backs_off : Finish s over (add_active (negsuc 0) s)
  gives_back : Finish s refused (release s)
  fails : Finish s failing (wg_done s)
  leaves : Finish s looping (wg_done s)
  returns : (sess : SessionRef) → Finish s (in_session sess true true) (wg_done s)

pub data Step (t : Shared) : Shared → Type 0 where
  counts : Step t (record {
    server = add_active (pos 1) t.server;
    conns =
        (if ltb_ℤ t.server.max_connections (add_active (pos 1) t.server).active
          then over
          else admitted)
        ∷ t.conns;
  })
  starts :
      (enter t.server).0 ≡ true
      → Step t (record { server = (enter t.server).1; conns = looping ∷ t.conns })
  stops : Step t (record t { server = mark_stopped t.server })
  advances :
      (front : List Conn) (c c' : Conn) (back : List Conn) (s : Server)
      → t.conns ≡ front ++ c ∷ back
      → Advance t.server c c' s
      → Step t (record { server = s; conns = front ++ c' ∷ back })
  finishes :
      (front : List Conn) (c : Conn) (back : List Conn) (s : Server)
      → t.conns ≡ front ++ c ∷ back
      → Finish t.server c s
      → Step t (record { server = s; conns = front ++ back })

abbrev pub idle : Server → Shared
idle s = record { server = s; conns = [] }

pub data Reach (s : Server) : Shared → Type 0 where
  begin : Reach s (idle s)
  next : {t u : Shared} → Reach s t → Step t u → Reach s u
