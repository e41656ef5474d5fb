-- ===== src/Listener/Accept.antt =====
-- listener/tcp.go, udp.go, quic.go and websocket.go: the admission that each connection handler begins with,
-- on one goroutine with no other in between.
use gopher_socks.Common.{
  ◌⊎◌, ◌+◌, ◌≡◌, refl, ap, Bool, true, false, if◌then◌else◌, arith, Bool-cases, inl, inr,
}
use gopher_socks.Common.Int.{pos, negsuc, ◌+ℤ◌, ltb_ℤ}
use gopher_socks.Listener.Server.{SessionRef, Server, enter, release, add, try_admit, add_active}

-- How the handler goes on: the server is full, or stopping, or the connection has its slot and its
-- goroutine is counted.
pub data Admission : Type 0 where
  over : Admission
  stopping : Admission
  admitted : Admission

abbrev pub entered : Bool × Server → Admission × Server
entered (true, s) = (admitted, s)
entered (false, s) = (stopping, release s)

abbrev pub reserved : Bool × Server → Admission × Server
reserved (true, s) = entered (enter s)
reserved (false, s) = (over, s)

-- The calls of tryAdmit, enter and release.
unfoldable pub admit : Server → Admission × Server
admit s = reserved (try_admit s)

abbrev pub registered : SessionRef → Admission × Server → Admission × Server
registered sess (admitted, s) = (admitted, add sess s)
registered sess r = r

-- The same, and then newSession and add.
unfoldable pub accept : SessionRef → Server → Admission × Server
accept sess s = registered sess (admit s)

-- What `admit` comes to.
abbrev pub admission : Server → Admission × Server
admission s =
    if ltb_ℤ s.max_connections (s.active +ℤ pos 1)
    then (over, s)
    else if s.stopped
    then (stopping, s)
    else (admitted, record s { active = s.active +ℤ pos 1; wg = s.wg + 1 })

given_back : (s : Server) → record s { active = (s.active +ℤ pos 1) +ℤ negsuc 0 } ≡ s
given_back s = ap (λ a. record s { active = a }) (ground arith)

-- A connection is over the limit while max_connections slots are taken, and else refused when the
-- server is stopping, and both leave the server exactly as it was; else it has a slot and is counted.
pub admit_lem : (s : Server) → admit s ≡ admission s
unfolding admit try_admit add_active enter release
admit_lem s = elim (Bool-cases (ltb_ℤ s.max_connections (s.active +ℤ pos 1))) [
  | inl e ↦ rw (e, admit) (ap (λ x. (over, x)) (given_back s))
  | inr e ↦ elim (Bool-cases s.stopped) [
    | inl q ↦
        rw (e, q, admit)
          (ap (λ a. (stopping, record s { active = a; stopped = true })) (ground arith))
    | inr q ↦ rw (e, q, admit) refl
  ]
]

pub admission-cases :
    (s : Server)
    → (admission s ≡ (over, s))
      ⊎ ((admission s ≡ (stopping, s))
          ⊎ (admission s ≡ (admitted, record s { active = s.active +ℤ pos 1; wg = s.wg + 1 })))
admission-cases s = elim (Bool-cases (ltb_ℤ s.max_connections (s.active +ℤ pos 1))) [
  | inl e ↦ inl (rw e refl)
  | inr e ↦ elim (Bool-cases s.stopped) [
    | inl q ↦ inr (inl (rw (e, q) refl))
    | inr q ↦ inr (inr (rw (e, q) refl))
  ]
]
