-- ===== src/Listener/Session/Pulling.antt =====
-- session.go, Messages: which reads a consumer gets, and how its loop ends.
use gopher_socks.Common.{
  ℕ, ◌-◌, ◌≤◌, ◌<◌, ◌≡◌, refl, ap, List, [], ◌∷◌, ◌++◌, some, length, arith, Bool-cases, inl, inr,
  ltb,
}
use gopher_socks.Common.Int.{ℤ}
use gopher_socks.Errors.{Error, Result, ok, err}
use gopher_socks.Listener.Session.{Session, touch, close_with, read_cause, messages}

-- The reads that gave these messages.
abbrev pub oks : List (List ℕ) → List (Result (List ℕ))
oks [] = []
oks (m ∷ ms) = ok m ∷ oks ms

-- The session after these messages.
abbrev pub touched : ℤ → List (List ℕ) → Session → Session
touched now [] s = s
touched now (m ∷ ms) s = touched now ms (touch now s)

-- How a loop ends that yielded `yielded` before `rest`: the consumer has enough and nothing more was
-- read; a read failed and closed the session; or the reads given are used up.
pub data Ends (now : ℤ) (wants : ℕ) (s : Session) (yielded : List (List ℕ))
    : List (Result (List ℕ)) → List (Result (List ℕ)) → Session → Type 0 where
  enough :
      (rest : List (Result (List ℕ)))
      → length yielded ≡ wants
      → Ends now wants s yielded rest rest (touched now yielded s)
  failed :
      (e : Error) (left : List (Result (List ℕ)))
      → length yielded < wants
      → Ends now wants s yielded
          (err e ∷ left)
          left
          (close_with (some (read_cause e)) (touched now yielded s))
  used_up : length yielded < wants → Ends now wants s yielded [] [] (touched now yielded s)

-- The consumer gets the messages in the order they were read, and a rest is left.
abbrev pub Pulls :
    ℤ
    → ℕ
    → List (Result (List ℕ))
    → Session
    → List (List ℕ) × List (Result (List ℕ)) × Session
    → Type 0
Pulls now wants reads s (yielded, left, s') =
    (rest : List (Result (List ℕ))) × ((reads ≡ oks yielded ++ rest)
      × Ends now wants s yielded rest left s')

Ends-more :
    (now : ℤ) (wants : ℕ) (s : Session) (m : List ℕ) (ms : List (List ℕ))
    {rest left : List (Result (List ℕ))} {s' : Session}
    → 1 < wants
    → Ends now (wants - 1) (touch now s) ms rest left s'
    → Ends now wants s (m ∷ ms) rest left s'
Ends-more now wants s m ms w (enough rest h) = enough rest (omega arith)
Ends-more now wants s m ms w (failed e left h) = failed e left (omega arith)
Ends-more now wants s m ms w (used_up h) = used_up (omega arith)

Pulls-more :
    (now : ℤ) (wants : ℕ) (m : List ℕ) (reads : List (Result (List ℕ))) (s : Session)
    (r : List (List ℕ) × List (Result (List ℕ)) × Session)
    → 1 < wants
    → Pulls now (wants - 1) reads (touch now s) r
    → Pulls now wants (ok m ∷ reads) s (m ∷ r.0, r.1, r.2)
Pulls-more now wants m reads s (y, l, s') w (rest, (e, ends)) =
    (rest, (ap (λ x. ok m ∷ x) e, Ends-more now wants s m y w ends))

-- A consumer that takes at least one message gets the messages that were read, in order, up to the
-- number it takes; no read is made after that or after a failed read, and a failed read closes the
-- session with its cause.
pub messages-Pulls :
    (now : ℤ) (wants : ℕ) (reads : List (Result (List ℕ))) (s : Session)
    → 1 ≤ wants
    → Pulls now wants reads s (messages now wants reads s)
unfolding messages
messages-Pulls now wants [] s w = ([], (refl, used_up w))
messages-Pulls now wants (err e ∷ reads) s w = (err e ∷ reads, (refl, failed e reads w))
messages-Pulls now wants (ok m ∷ reads) s w = elim (Bool-cases (ltb wants 2)) [
  | inl last ↦ rw (last, messages) (reads, (refl, enough reads (ground arith)))
  | inr more ↦
      rw (more, messages)
        (Pulls-more now wants m reads s _ (ground arith)
          (messages-Pulls now (wants - 1) reads (touch now s) (ground arith)))
]
