-- ===== src/Listener/Udp/Idle.antt =====
-- udp.go, reapIdle: which sessions a tick closes.
use Prim.Native.String.{String}
use mathlib.Core.List.{Permᴰ}
use gopher_socks.Common.{
  ℕ, ◌≡◌, refl, ap, ◌∙◌, sym, List, [], ◌∷◌, Option, some, Bool, true, false, All, if◌then◌else◌,
  Bool-cases, inl, inr,
}
use gopher_socks.Common.Assoc.{lookup, str_eq}
use gopher_socks.Common.Int.{ℤ, pos, ltb_ℤ}
use gopher_socks.Errors.{sentinel, deadline_exceeded}
use gopher_socks.Listener.Server.{
  SessionRef, World, close_session, close_all, or_cause, get_session, get_active_sessions,
}
use gopher_socks.Listener.Server.Order.{closed-others, close_session_comm, Stored}
use gopher_socks.Common.Ranges.{range, range-perm}
use gopher_socks.Listener.Server.Stopping.{close_all-closed}
use gopher_socks.Listener.Udp.{UdpServer, idle, reap, reap_idle}

-- The idle entries of the map.
abbrev pub kept : (SessionRef → Bool) → List (String × SessionRef) → List (String × SessionRef)
kept is_idle [] = []
kept is_idle ((k, sess) ∷ rest) =
    if is_idle sess then (k, sess) ∷ kept is_idle rest else kept is_idle rest

pub reap-close_all :
    (is_idle : SessionRef → Bool) (w : World) (m : List (String × SessionRef))
    → reap is_idle w m ≡ close_all (sentinel deadline_exceeded) w (kept is_idle m)
unfolding reap close_all
reap-close_all is_idle w [] = refl
reap-close_all is_idle w ((k, sess) ∷ rest) = elim (Bool-cases (is_idle sess)) [
  | inl e ↦
      rw (e, reap, close_all)
        (reap-close_all is_idle (close_session (sentinel deadline_exceeded) w sess) rest)
  | inr e ↦ rw (e, reap, close_all) (reap-close_all is_idle w rest)
]

lookup-kept :
    (is_idle : SessionRef → Bool) (k : String) (sess : SessionRef) (m : List (String × SessionRef))
    → is_idle sess ≡ true
    → lookup k m ≡ some sess
    → lookup k (kept is_idle m) ≡ some sess
unfolding lookup
lookup-kept is_idle k sess [] quiet h = h
lookup-kept is_idle k sess ((j, head) ∷ rest) quiet h = elim (Bool-cases (str_eq j k)) [
  | inl here ↦
      let eq : ◌≡◌ {A = Option SessionRef} (some head) (some sess) = rw here at h in
      let same : head ≡ sess = cc in rw (ap is_idle same ∙ quiet, lookup, here) eq
  | inr there ↦
      let later = lookup-kept is_idle k sess rest quiet (rw there at h) in
      elim (Bool-cases (is_idle head)) [
        | inl e ↦ rw (e, lookup, there) later
        | inr e ↦ rw (e, lookup) later
      ]
]

abbrev pub Busy : (SessionRef → Bool) → ℕ → String × SessionRef → Type 0
Busy is_idle i (k, sess) = sess.id ≡ i → is_idle sess ≡ false

reap-Busy :
    (is_idle : SessionRef → Bool) (i : ℕ) (w : World) (m : List (String × SessionRef))
    → All (Busy is_idle i) m
    → (reap is_idle w m).closed i ≡ w.closed i
unfolding reap
reap-Busy is_idle i w [] h = refl
reap-Busy is_idle i w ((k, sess) ∷ rest) h = elim (Bool-cases (is_idle sess)) [
  | inr e ↦ rw (e, reap) (reap-Busy is_idle i w rest h.1)
  | inl e ↦
      rw (e, reap)
        (reap-Busy is_idle i (close_session (sentinel deadline_exceeded) w sess) rest h.1
          ∙ closed-others (sentinel deadline_exceeded) w sess i (λ q. cc (h.0 q, e)))
]

-- With a ReadTimeout, a tick closes every registered session that has been silent for longer, with
-- context.DeadlineExceeded unless it was closed before, and no session that is not such an entry of
-- the registry.
pub reap_idle-closes :
    (now : ℤ) (u : UdpServer)
    → ltb_ℤ (pos 0) u.cfg.read_timeout ≡ true
    → ((k : String) (sess : SessionRef)
        → get_session u.world.server k ≡ some sess
        → idle now u sess ≡ true
        → (reap_idle now u).world.closed sess.id
          ≡ some (or_cause (u.world.closed sess.id) (sentinel deadline_exceeded)))
      × ((i : ℕ)
          → All (Busy (idle now u) i) (get_active_sessions u.world.server)
          → (reap_idle now u).world.closed i ≡ u.world.closed i)
unfolding reap_idle get_session get_active_sessions
reap_idle-closes now u on =
    rw (on, reap_idle)
      (
        λ k sess h quiet.
            ap (λ w. w.closed sess.id) (reap-close_all (idle now u) u.world u.world.server.by_addr)
            ∙ close_all-closed (sentinel deadline_exceeded) u.world
                (kept (idle now u) u.world.server.by_addr) k sess
                (lookup-kept (idle now u) k sess u.world.server.by_addr quiet h),
        λ i h. reap-Busy (idle now u) i u.world u.world.server.by_addr h,
      )

abbrev reap_entry : (SessionRef → Bool) → World → String × SessionRef → World
reap_entry is_idle w (k, sess) =
    if is_idle sess then close_session (sentinel deadline_exceeded) w sess else w

reap-as_range :
    (is_idle : SessionRef → Bool) (w : World) (m : List (String × SessionRef))
    → reap is_idle w m ≡ range (reap_entry is_idle) w m
unfolding reap
reap-as_range is_idle w [] = refl
reap-as_range is_idle w ((k, sess) ∷ m) = reap-as_range is_idle (reap_entry is_idle w (k, sess)) m

reap_entry_comm :
    (is_idle : SessionRef → Bool) (heap : ℕ → SessionRef) (w : World) (a b : String × SessionRef)
    → Stored heap a
    → Stored heap b
    → reap_entry is_idle (reap_entry is_idle w a) b ≡ reap_entry is_idle (reap_entry is_idle w b) a
reap_entry_comm is_idle heap w (j, a) (k, b) p q = elim (Bool-cases (is_idle a)) [
  | inr e ↦ rw (e, reap_entry) refl
  | inl e ↦ elim (Bool-cases (is_idle b)) [
    | inr f ↦ rw (e, f)
    | inl f ↦ rw (e, f) (close_session_comm (sentinel deadline_exceeded) heap w a b p q)
  ]
]

-- The order in which a tick ranges over the sessions does not matter either: if equal pointers are the
-- same session, then any order leaves the server and the sessions in the same state.
pub reap_any_order :
    (is_idle : SessionRef → Bool) (heap : ℕ → SessionRef) (w : World)
    (m order : List (String × SessionRef))
    → All (Stored heap) m
    → Permᴰ m order
    → reap is_idle w m ≡ reap is_idle w order
reap_any_order is_idle heap w m order known shuffled =
    reap-as_range is_idle w m
    ∙ range-perm (reap_entry is_idle) (Stored heap)
        (λ v a b p q. reap_entry_comm is_idle heap v a b p q) m order shuffled w known
    ∙ sym (reap-as_range is_idle w order)
