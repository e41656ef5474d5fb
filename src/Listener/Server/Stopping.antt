-- ===== src/Listener/Server/Stopping.antt =====
-- server.go: the stop sequence closes every registered session and lets nothing new start.
use Prim.Native.String.{String}
use gopher_socks.Common.{
  if◌then◌else◌, ℕ, ◌≡◌, refl, ◌∙◌, ap, sym, subst, List, [], ◌∷◌, Option, none, some, true, false,
  ◌==◌, ==_iff, arith, Bool-cases, Option-cases, inl, inr,
}
use gopher_socks.Common.Assoc.{lookup, str_eq}
use gopher_socks.Errors.{Error, sentinel, server_stopped}
use gopher_socks.Listener.Server.{
  SessionRef, Server, World, enter, update, close_session, close_all, stop, stop_to_wait, or_cause,
  remove, unregister, get_session,
}

pub remove-stopped :
    (sess : SessionRef) (s : Server)
    → ((remove sess s).stopped ≡ s.stopped)
      × ((remove sess s).cause ≡ s.cause)
      × ((remove sess s).wg ≡ s.wg)
unfolding remove
remove-stopped sess s = unfold unregister in (ground arith, ground arith, ground arith)

update-other :
    (f : ℕ → Option Error) (i j : ℕ) (e x : Error)
    → f i ≡ none
    → f j ≡ some x
    → update f i e j ≡ some x
update-other f i j e x free h = elim (Bool-cases (i == j)) [
  | inr far ↦ rw far h
  | inl near ↦ let same : i ≡ j = (==_iff i j).0 near in cc (free, h, ap f same)
]

update_self : (f : ℕ → Option Error) (i : ℕ) (e : Error) → update f i e i ≡ some e
update_self f i e = ground arith

-- What closing sessions keeps: the flags of the server, and the cause of a session closed before.
pub record Keeps (w w' : World) : Type 0 where
  pub stopped : w'.server.stopped ≡ w.server.stopped
  pub cause : w'.server.cause ≡ w.server.cause
  pub wg : w'.server.wg ≡ w.server.wg
  pub closings : (i : ℕ) (e : Error) → w.closed i ≡ some e → w'.closed i ≡ some e

pub Keeps-trans : {u v w : World} → Keeps u v → Keeps v w → Keeps u w
Keeps-trans a b = record {
  stopped = b.stopped ∙ a.stopped;
  cause = b.cause ∙ a.cause;
  wg = b.wg ∙ a.wg;
  closings = λ i e h. b.closings i e (a.closings i e h);
}

pub close_session-Keeps :
    (cause : Error) (w : World) (sess : SessionRef) → Keeps w (close_session cause w sess)
unfolding close_session
close_session-Keeps cause w sess = elim (Option-cases (w.closed sess.id)) [
  | inr (e, q) ↦
      rw (q, close_session)
        (record { stopped = refl; cause = refl; wg = refl; closings = λ i x h. h })
  | inl q ↦
      let (a, b, c) = remove-stopped sess w.server in
      rw (q, close_session)
        (record {
          stopped = a;
          cause = b;
          wg = c;
          closings = λ i x h. update-other w.closed sess.id i cause x q h;
        })
]

pub close_all-Keeps :
    (cause : Error) (w : World) (m : List (String × SessionRef)) → Keeps w (close_all cause w m)
unfolding close_all
close_all-Keeps cause w [] = record {
  stopped = refl;
  cause = refl;
  wg = refl;
  closings = λ i e h. h;
}
close_all-Keeps cause w ((k, sess) ∷ m) =
    Keeps-trans (close_session-Keeps cause w sess)
      (close_all-Keeps cause (close_session cause w sess) m)

close_session-closed :
    (cause : Error) (w : World) (sess : SessionRef)
    → (close_session cause w sess).closed sess.id ≡ some (or_cause (w.closed sess.id) cause)
unfolding close_session
close_session-closed cause w sess = elim (Option-cases (w.closed sess.id)) [
  | inr (e, q) ↦ rw (q, close_session) q
  | inl q ↦ rw (q, close_session) (update_self w.closed sess.id cause)
]

-- A session that another close leaves open is open still, so the first close of it gives the cause.
close_session-other :
    (cause : Error) (w : World) (sess other : SessionRef)
    → or_cause ((close_session cause w sess).closed other.id) cause
      ≡ or_cause (w.closed other.id) cause
unfolding close_session
close_session-other cause w sess other = elim (Option-cases (w.closed sess.id)) [
  | inr (e, q) ↦ rw (q, close_session) refl
  | inl q ↦
      rw (q, close_session)
        (elim (Bool-cases (sess.id == other.id)) [
          | inr far ↦ rw far refl
          | inl near ↦
              let same : sess.id ≡ other.id = (==_iff sess.id other.id).0 near in
              let free : w.closed other.id ≡ none = ap w.closed (sym same) ∙ q in
              rw (near, free) refl
        ])
]

pub close_all-closed :
    (cause : Error) (w : World) (m : List (String × SessionRef)) (k : String) (sess : SessionRef)
    → lookup k m ≡ some sess
    → (close_all cause w m).closed sess.id ≡ some (or_cause (w.closed sess.id) cause)
unfolding close_all lookup
close_all-closed cause w [] k sess h = cc
close_all-closed cause w ((j, head) ∷ m) k sess h = elim (Bool-cases (str_eq j k)) [
  | inl here ↦
      let eq : ◌≡◌ {A = Option SessionRef} (some head) (some sess) = rw here at h in
      let same : head ≡ sess = cc in
      subst
        (λ x.
          (close_all cause (close_session cause w head) m).closed x.id
          ≡ some (or_cause (w.closed x.id) cause))
        same
        ((close_all-Keeps cause (close_session cause w head) m).closings head.id _
          (close_session-closed cause w head))
  | inr later ↦
      close_all-closed cause (close_session cause w head) m k sess (rw later at h)
      ∙ ap some (close_session-other cause w head sess)
]

-- The state in which stop waits: the server is marked and its context has a cause, an `enter` fails, no
-- goroutine is counted that was not before, and every session that was registered is closed, with the
-- cause it had been closed with already or else ErrServerStopped.
pub record Stops (w w' : World) : Type 0 where
  pub stopped : w'.server.stopped ≡ true
  pub cause : w'.server.cause ≡ some (or_cause w.server.cause (sentinel server_stopped))
  pub refuses : enter w'.server ≡ (false, w'.server)
  pub counts : w'.server.wg ≡ w.server.wg
  pub closes :
      (k : String) (sess : SessionRef)
      → get_session w.server k ≡ some sess
      → w'.closed sess.id ≡ some (or_cause (w.closed sess.id) (sentinel server_stopped))

pub stop_to_wait-Stops : (w : World) → Stops w (stop_to_wait w)
unfolding stop_to_wait get_session
stop_to_wait-Stops w = record {
  stopped = keeps.stopped;
  cause = keeps.cause;
  refuses = unfold enter in rw keeps.stopped;
  counts = keeps.wg;
  closes = λ k sess h. close_all-closed (sentinel server_stopped) marked w.server.by_addr k sess h;
}
  where
    marked : World
    marked = record w {
      server = record (w.server) {
        stopped = true;
        cause = some (or_cause w.server.cause (sentinel server_stopped));
      };
    }

    keeps : Keeps marked (close_all (sentinel server_stopped) marked w.server.by_addr)
    keeps = close_all-Keeps (sentinel server_stopped) marked w.server.by_addr

-- stop alone on a server, with the state in which it comes to wg.Wait: the server is marked and its context has
-- ended, with ErrServerStopped unless it had a cause; enter fails; no goroutine is counted that was not
-- before; and every session that was registered is closed, with the cause it had been closed with before
-- or else ErrServerStopped. From there stop returns if the WaitGroup was at zero when it was called, and
-- else waits.
pub stop-Stops :
    (w : World)
    → Stops w (stop_to_wait w)
      × (stop w ≡ (if w.server.wg == 0 then some (stop_to_wait w) else none))
unfolding stop
stop-Stops w =
    let s = stop_to_wait-Stops w in
    (s, ap (λ n. if n == 0 then some (stop_to_wait w) else none) s.counts)
