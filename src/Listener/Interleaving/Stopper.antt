-- ===== src/Listener/Interleaving/Stopper.antt =====
-- server.go, stop: a call of StopListener beside the goroutines of its server.
use Prim.Native.String.{String}
use gopher_socks.Common.{
  ℕ, ◌≡◌, refl, sym, subst, ◌∙◌, List, [], ◌∷◌, ◌++◌, Option, Bool, true, false, ◌==◌,
  if◌then◌else◌, arith, All,
}
use gopher_socks.Common.Int.{ℤ, pos}
use gopher_socks.Errors.{Error}
use gopher_socks.Listener.Server.{SessionRef, Server, enter, remove, new_server}
use gopher_socks.Listener.Interleaving.{
  Conn, over, admitted, refused, entered, failing, looping, in_session, Shared, mark_stopped, idle,
  closes, Step, Reach, begin, next, stops, advances,
}
use gopher_socks.Listener.Interleaving.Slots.{total, holds, awaited, Reach-Counts}
use gopher_socks.Listener.Interleaving.Draining.{Step-Shrinks, enter-stopped}
use gopher_socks.Listener.Server.Stopping.{remove-stopped}

-- How far the call of `stop` is: before its lock; with these sessions of its copy of the registry still
-- to close; in wg.Wait; or it has returned.
pub data Phase : Type 0 where
  before : Phase
  closing : List SessionRef → Phase
  waiting : Phase
  returned : Phase

pub record Stopping : Type 0 where
  pub shared : Shared
  pub phase : Phase

-- The sessions of a registry.
abbrev pub sessions_of : List (String × SessionRef) → List SessionRef
sessions_of [] = []
sessions_of ((k, sess) ∷ m) = sess ∷ sessions_of m

-- Whether a goroutine has the session of this pointer, not closed.
abbrev pub has_open : ℕ → Conn → ℕ
has_open i over = 0
has_open i admitted = 0
has_open i refused = 0
has_open i entered = 0
has_open i failing = 0
has_open i looping = 0
has_open i (in_session sess registered closed) = if closed then 0 else if sess.id == i then 1 else 0

-- A step of another goroutine, or one of the call. The sessions of the copy are closed in any order;
-- closing one that is closed does nothing.
pub data StopStep (w : Stopping) : Stopping → Type 0 where
  others : {t : Shared} → Step w.shared t → StopStep w (record w { shared = t })
  marks :
      w.phase ≡ before
      → StopStep w (record {
        shared = record (w.shared) { server = mark_stopped w.shared.server };
        phase = closing (sessions_of w.shared.server.by_addr);
      })
  closes_open :
      (done : List SessionRef) (sess : SessionRef) (rest : List SessionRef) (front : List Conn)
      (own : SessionRef) (registered : Bool) (back : List Conn)
      → w.phase ≡ closing (done ++ sess ∷ rest)
      → own.id ≡ sess.id
      → w.shared.conns ≡ front ++ in_session own registered false ∷ back
      → StopStep w (record {
        shared = record {
          server = remove own w.shared.server;
          conns = front ++ in_session own registered true ∷ back;
        };
        phase = closing (done ++ rest);
      })
  closes_closed :
      (done : List SessionRef) (sess : SessionRef) (rest : List SessionRef)
      → w.phase ≡ closing (done ++ sess ∷ rest)
      → total (has_open sess.id) w.shared.conns ≡ 0
      → StopStep w (record w { phase = closing (done ++ rest) })
  waits : w.phase ≡ closing [] → StopStep w (record w { phase = waiting })
  comes_back :
      w.phase ≡ waiting → w.shared.server.wg ≡ 0 → StopStep w (record w { phase = returned })

pub data ReachStop (s : Server) : Stopping → Type 0 where
  calls : ReachStop s (record { shared = idle s; phase = before })
  goes_on : {w v : Stopping} → ReachStop s w → StopStep w v → ReachStop s v

-- To the other goroutines the call is steps of Listener.Interleaving.
pub ReachStop-Reach : {s : Server} {w : Stopping} → ReachStop s w → Reach s w.shared
ReachStop-Reach calls = begin
ReachStop-Reach (goes_on r (others step)) = next (ReachStop-Reach r) step
ReachStop-Reach (goes_on r (marks q)) = next (ReachStop-Reach r) stops
ReachStop-Reach (goes_on r (closes_open done sess rest front own registered back q i e)) =
    next (ReachStop-Reach r) (advances front _ _ back _ e (closes own registered))
ReachStop-Reach (goes_on r (closes_closed done sess rest q c)) = ReachStop-Reach r
ReachStop-Reach (goes_on r (waits q)) = ReachStop-Reach r
ReachStop-Reach (goes_on r (comes_back q z)) = ReachStop-Reach r

-- What the server is in each phase.
abbrev Standing : Phase → Server → Type 0
Standing before s = Unit {0}
Standing (closing rest) s = s.stopped ≡ true
Standing waiting s = s.stopped ≡ true
Standing returned s = (s.stopped ≡ true) × (s.wg ≡ 0)

Standing-shrinks : (p : Phase) (t u : Shared) → Step t u → Standing p t.server → Standing p u.server
Standing-shrinks before t u step h = tt
Standing-shrinks (closing rest) t u step h = (Step-Shrinks t u h step).0
Standing-shrinks waiting t u step h = (Step-Shrinks t u h step).0
Standing-shrinks returned t u step h =
    let (stays, fewer) = Step-Shrinks t u h.0 step in (stays, omega (arith, fewer, h.1))

StopStep-Standing :
    {w v : Stopping}
    → StopStep w v
    → Standing w.phase w.shared.server
    → Standing v.phase v.shared.server
StopStep-Standing {w} (others {t} step) h = Standing-shrinks w.phase w.shared t step h
StopStep-Standing (marks q) h = unfold mark_stopped in refl
StopStep-Standing {w} (closes_open done sess rest front own registered back q i e) h =
    (remove-stopped own w.shared.server).0 ∙ subst (λ p. Standing p w.shared.server) q h
StopStep-Standing {w} (closes_closed done sess rest q c) h =
    subst (λ p. Standing p w.shared.server) q h
StopStep-Standing {w} (waits q) h = subst (λ p. Standing p w.shared.server) q h
StopStep-Standing {w} (comes_back q z) h = (subst (λ p. Standing p w.shared.server) q h, z)

pub ReachStop-Standing :
    {s : Server} {w : Stopping} → ReachStop s w → Standing w.phase w.shared.server
ReachStop-Standing calls = tt
ReachStop-Standing (goes_on r step) = StopStep-Standing step (ReachStop-Standing r)

-- A connection that gets no session: one too many, or one that has not asked `enter` yet or was refused.
pub data TurnedAway : Conn → Type 0 where
  too_many : TurnedAway over
  not_yet : TurnedAway admitted
  denied : TurnedAway refused

turned_away : (c : Conn) → awaited c ≡ 0 → TurnedAway c
turned_away over h = too_many
turned_away admitted h = not_yet
turned_away refused h = denied
turned_away entered h = absurd (omega arith)
turned_away failing h = absurd (omega arith)
turned_away looping h = absurd (omega arith)
turned_away (in_session sess registered closed) h = absurd (omega arith)

nobody_enters : (conns : List Conn) → total awaited conns ≡ 0 → All TurnedAway conns
nobody_enters [] h = tt
nobody_enters (c ∷ conns) h = (turned_away c (omega arith), nobody_enters conns (omega arith))

-- When StopListener of a new server has returned, and ever after, whatever its goroutines do and in
-- whatever order: no Serve loop and no session's goroutine is left, nor one that has entered and may still
-- make a session; enter fails, so there will be none; and the counter counts only connections that are
-- turned away.
pub returned_quiet :
    (cause : Option Error) (max : ℤ) (w : Stopping)
    → ReachStop (new_server cause max) w
    → w.phase ≡ returned
    → All TurnedAway w.shared.conns
      × ((enter w.shared.server ≡ (false, w.shared.server))
          × (w.shared.server.active ≡ pos (total holds w.shared.conns)))
returned_quiet cause max w r q =
    let (marked, none_left) = subst (λ p. Standing p w.shared.server) q (ReachStop-Standing r) in
    let c = Reach-Counts cause max w.shared (ReachStop-Reach r) in
    (
      nobody_enters w.shared.conns (sym c.wg ∙ none_left),
      (enter-stopped w.shared.server marked, c.active),
    )
