-- ===== src/Listener/Udp/Ticks.antt =====
-- udp.go, reapIdle: the ticker, and when a silent session is closed.
use Prim.Native.String.{String}
use gopher_socks.Common.{
  ℕ, zero, suc, ◌/◌, ◌*◌, ◌+◌, leb, max, ◌≡◌, ◌≢◌, sym, ap, subst, ◌∙◌, inl, inr, List, [], ◌∷◌,
  Option, some, Bool, true, false, All, arith, Bool-cases, Option-cases,
}
use gopher_socks.Common.Int.{ℤ, pos, negsuc, pos_part, neg_part, sub_ℕ, ◌+ℤ◌}
use gopher_socks.Common.Assoc.{erase, lookup, str_eq}
use gopher_socks.Errors.{Error, sentinel, deadline_exceeded}
use gopher_socks.Listener.Server.{
  SessionRef, Server, World, get_session, close_session, close_all, unregister, same_session,
  release, add_active, remove,
}
use gopher_socks.Listener.Server.Registry.{remove-Removes}
use gopher_socks.Listener.Server.Order.{Stored}
use gopher_socks.Listener.Udp.{UdpServer, idle, reap, reap_idle}
use gopher_socks.Listener.Udp.Idle.{kept, reap-close_all, Busy}

-- The period of the ticker, in nanoseconds: a quarter of ReadTimeout, at least 10 ms.
abbrev pub tick_period : UdpServer → ℕ
tick_period u = max (pos_part u.cfg.read_timeout / 4) 10_000_000

-- The time of the n-th tick of a ticker that was made at `made`.
abbrev pub tick_time : UdpServer → ℤ → ℕ → ℤ
tick_time u made zero = made
tick_time u made (suc n) = tick_time u made n +ℤ pos (tick_period u)

sub_ℕ-later : (a b : ℕ) (x : ℕ) → sub_ℕ a b +ℤ pos x ≡ sub_ℕ (a + x) b
sub_ℕ-later a b x = elim (Bool-cases (leb b a)) [
  | inl e ↦ rw e (ground arith)
  | inr e ↦ rw e (ground arith)
]

one_more : (a n p : ℕ) → (a + n * p) + p ≡ a + suc n * p
one_more a n p = omega arith

-- The n-th tick comes n periods after the ticker was made.
pub tick_time-period :
    (u : UdpServer) (made : ℤ) (n : ℕ) → tick_time u made n ≡ made +ℤ pos (n * tick_period u)
tick_time-period u (pos a) zero = ground arith
tick_time-period u (negsuc a) zero = ground arith
tick_time-period u made (suc n) =
    let p = tick_period u in
    ap (λ x. x +ℤ pos p) (tick_time-period u made n)
    ∙ sub_ℕ-later (pos_part made + n * p) (neg_part made + 0) p
    ∙ ap (λ x. sub_ℕ x (neg_part made + 0)) (one_more (pos_part made) n p)

-- The first n ticks.
unfoldable pub run_ticks : ℤ → ℕ → UdpServer → UdpServer
run_ticks made zero u = u
run_ticks made (suc n) u = reap_idle (tick_time u made (suc n)) (run_ticks made n u)

-- Entries that are removed do not matter to what holds of all.
All-erase {κ} :
    (P : String × SessionRef → Type κ) (k : String) (m : List (String × SessionRef))
    → All P m
    → All P (erase k m)
unfolding erase
All-erase P k [] h = tt
All-erase P k ((j, sess) ∷ m) h = elim (Bool-cases (str_eq j k)) [
  | inl e ↦ rw (e, erase) (All-erase P k m h.1)
  | inr e ↦ rw (e, erase) (h.0, All-erase P k m h.1)
]

module _ (P : String × SessionRef → Type 0) where
  unregister-All :
      (sess : SessionRef) (s : Server) → All P s.by_addr → All P (unregister sess s).by_addr
  unfolding unregister
  unregister-All sess s h = elim (Bool-cases (same_session sess (lookup sess.addr s.by_addr))) [
    | inl e ↦ rw e (All-erase P sess.addr s.by_addr h)
    | inr e ↦ rw e h
  ]

  close_session-All :
      (e : Error) (w : World) (sess : SessionRef)
      → All P w.server.by_addr
      → All P (close_session e w sess).server.by_addr
  unfolding close_session remove release add_active
  close_session-All e w sess h = elim (Option-cases (w.closed sess.id)) [
    | inr (x, q) ↦ rw (q, close_session) h
    | inl q ↦ rw (q, close_session) (unregister-All sess w.server h)
  ]

  close_all-All :
      (e : Error) (w : World) (m : List (String × SessionRef))
      → All P w.server.by_addr
      → All P (close_all e w m).server.by_addr
  unfolding close_all
  close_all-All e w [] h = h
  close_all-All e w ((k, sess) ∷ m) h =
      close_all-All e (close_session e w sess) m (close_session-All e w sess h)

module _ (k : String) (sess : SessionRef) where
  close_session-registered :
      (e : Error) (w : World) (other : SessionRef)
      → other.id ≢ sess.id
      → get_session w.server k ≡ some sess
      → get_session (close_session e w other).server k ≡ some sess
  unfolding close_session
  close_session-registered e w other ne h = elim (Option-cases (w.closed other.id)) [
    | inr (x, q) ↦ rw (q, close_session) h
    | inl q ↦
        rw (q, close_session) ((remove-Removes other w.server).keeps k sess h (λ e. ne (sym e)))
  ]

  pub reap-registered :
      (is_idle : SessionRef → Bool) (w : World) (m : List (String × SessionRef))
      → All (Busy is_idle sess.id) m
      → get_session w.server k ≡ some sess
      → get_session (reap is_idle w m).server k ≡ some sess
  unfolding reap
  reap-registered is_idle w [] busy h = h
  reap-registered is_idle w ((j, other) ∷ m) busy h = elim (Bool-cases (is_idle other)) [
    | inr e ↦ rw (e, reap) (reap-registered is_idle w m busy.1 h)
    | inl e ↦
        rw (e, reap)
          (reap-registered is_idle (close_session (sentinel deadline_exceeded) w other) m busy.1 (
            close_session-registered (sentinel deadline_exceeded) w other (λ q. cc (busy.0 q, e))
              h))
  ]

-- An idle session stays idle.
pub idle-later :
    (u : UdpServer) (sess : SessionRef) (now : ℤ) (d : ℕ)
    → idle now u sess ≡ true
    → idle (now +ℤ pos d) u sess ≡ true
idle-later u sess now d h = ground arith

-- Every other entry with the session's pointer is the session, so it is as busy.
pub Stored-Busy :
    (heap : ℕ → SessionRef) (is_idle : SessionRef → Bool) (sess : SessionRef)
    (m : List (String × SessionRef))
    → All (Stored heap) m
    → sess ≡ heap sess.id
    → is_idle sess ≡ false
    → All (Busy is_idle sess.id) m
Stored-Busy heap is_idle sess [] h known busy = tt
Stored-Busy heap is_idle sess ((k, other) ∷ m) h known busy = (
  λ q. ap is_idle (h.0 ∙ ap heap q ∙ sym known) ∙ busy,
  Stored-Busy heap is_idle sess m h.1 known busy,
)

pub lookup-Stored :
    (heap : ℕ → SessionRef) (k : String) (sess : SessionRef) (m : List (String × SessionRef))
    → All (Stored heap) m
    → lookup k m ≡ some sess
    → sess ≡ heap sess.id
unfolding lookup
lookup-Stored heap k sess [] h e = absurd (cc)
lookup-Stored heap k sess ((j, other) ∷ m) h e = elim (Bool-cases (str_eq j k)) [
  | inr far ↦ lookup-Stored heap k sess m h.1 (rw far at e)
  | inl near ↦
      let eq : ◌≡◌ {A = Option SessionRef} (some other) (some sess) = rw near at e in
      let same : other ≡ sess = cc in subst (λ x. x ≡ heap x.id) same h.0
]

pub reap-All :
    (P : String × SessionRef → Type 0) (is_idle : SessionRef → Bool) (w : World)
    (m : List (String × SessionRef))
    → All P w.server.by_addr
    → All P (reap is_idle w m).server.by_addr
reap-All P is_idle w m h =
    subst (λ x. All P x.server.by_addr) (sym (reap-close_all is_idle w m))
      (close_all-All P (sentinel deadline_exceeded) w (kept is_idle m) h)
