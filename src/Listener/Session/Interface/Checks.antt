-- ===== src/Listener/Session/Interface/Checks.antt =====
-- session.go, SendToClient, as the interface Session shows it.
use gopher_socks.Common.{
  true, false, ℕ, ◌≤◌, ◌<◌, ◌≡◌, refl, sym, subst, List, none, some, length, arith, Bool-cases,
  Option-cases, inl, inr, ltb,
}
use gopher_socks.Common.Int.{pos, ltb_ℤ}
use gopher_socks.Errors.{Error, sentinel, slow_consumer}
use gopher_socks.Listener.Session.{
  Session, Ready, space, ended, expired, Sending, refused, queued, waits, close_with, enqueue,
  sending, send_to_client, wait_to_send, ended_error, too_large_error,
}
use gopher_socks.Listener.Session.Closing.{close_with-SameQueue}
use gopher_socks.Listener.Session.Feed.{IsEnded}
use gopher_socks.Listener.Session.Interface.{
  Continues, Sends, too_long, has_ended, is_queued, ends_waiting, is_slow, session_methods,
}
use gopher_socks.Listener.Session.Interface.Shutting.{close_with-Shuts, Shuts-Continues, continued}

-- How the checks of SendToClient end, and when.
pub data Checked (msg : List ℕ) (s : Session) : Sending × Session → Type 0 where
  is_long : ltb_ℤ s.max_len (pos (length msg)) ≡ true → Checked msg s (refused too_large_error, s)
  is_over :
      (e : Error)
      → ltb_ℤ s.max_len (pos (length msg)) ≡ false
      → s.cause ≡ some e
      → Checked msg s (refused (ended_error e), s)
  has_room :
      ltb_ℤ s.max_len (pos (length msg)) ≡ false
      → s.cause ≡ none
      → length s.out < s.queue
      → Checked msg s (queued, enqueue msg s)
  is_full :
      ltb_ℤ s.max_len (pos (length msg)) ≡ false
      → s.cause ≡ none
      → s.queue ≤ length s.out
      → Checked msg s (waits, s)

pub send_to_client-Checked : (msg : List ℕ) (s : Session) → Checked msg s (send_to_client msg s)
unfolding send_to_client
send_to_client-Checked msg s = elim (Bool-cases (ltb_ℤ s.max_len (pos (length msg)))) [
  | inl long ↦ subst (Checked msg s) (sym (simp (long))) (is_long long)
  | inr short ↦ elim (Option-cases s.cause) [
    | inr (e, q) ↦ subst (Checked msg s) (sym (simp (short, q))) (is_over e short q)
    | inl q ↦ elim (Bool-cases (ltb (length s.out) s.queue)) [
      | inl room ↦
          subst (Checked msg s) (sym (simp (short, q, room))) (has_room short q (ground arith))
      | inr full ↦
          subst (Checked msg s) (sym (simp (short, q, full))) (is_full short q (ground arith))
    ]
  ]
]

pub Checked-Sends :
    (msg : List ℕ) (r : Ready) (s : Session) (c : Sending × Session)
    → IsEnded s
    → Checked msg s c
    → Sends session_methods msg s r (sending msg r c)
unfolding session_methods wait_to_send
Checked-Sends msg r s c sound (is_long h) = too_long r h
Checked-Sends msg r s c sound (is_over e h q) = has_ended r e h q
Checked-Sends msg r s c sound (has_room h q room) =
    is_queued r (enqueue msg s) h q (inl room) q refl
Checked-Sends msg space s c sound (is_full h q full) =
    is_queued space (enqueue msg s) h q (inr refl) q refl
Checked-Sends msg (ended e) s c sound (is_full h q full) = ends_waiting e h q full
Checked-Sends msg expired s c sound (is_full h q full) =
    let x = some (sentinel slow_consumer) in
    is_slow (close_with x s) h q full ((close_with-Shuts x s).ends sound)
      (close_with-SameQueue x s).out

pub Checked-Shuts :
    (msg : List ℕ) (r : Ready) (s : Session) (c : Sending × Session)
    → Checked msg s c
    → Continues session_methods s (sending msg r c).1 × (IsEnded s → IsEnded (sending msg r c).1)
unfolding session_methods wait_to_send
Checked-Shuts msg r s c (is_long l) = (continued refl refl, λ h. h)
Checked-Shuts msg r s c (is_over e l q) = (continued refl refl, λ h. h)
Checked-Shuts msg r s c (has_room l q room) = (continued refl refl, λ h. h)
Checked-Shuts msg space s c (is_full l q full) = (continued refl refl, λ h. h)
Checked-Shuts msg (ended e) s c (is_full l q full) = (continued refl refl, λ h. h)
Checked-Shuts msg expired s c (is_full l q full) =
    let k = close_with-Shuts (some (sentinel slow_consumer)) s in
    (Shuts-Continues k, λ h x. k.ends h)
