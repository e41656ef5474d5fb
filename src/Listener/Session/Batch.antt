-- ===== src/Listener/Session/Batch.antt =====
-- session.go, fillBatch: what it leaves and how much it takes.
use gopher_socks.Common.{
  ℕ, ◌≤◌, ◌≡◌, refl, ◌∙◌, List, [], ◌∷◌, ◌++◌, true, length, length-append, append_assoc, arith,
  Bool-cases, inl, inr, ltb,
}
use gopher_socks.Listener.Session.{fill_batch, max_batch}

pub fill_batch_split :
    (batch out : List (List ℕ))
    → (fill_batch batch out).0 ++ (fill_batch batch out).1 ≡ batch ++ out
unfolding fill_batch
fill_batch_split batch [] = refl
fill_batch_split batch (m ∷ out) = elim (Bool-cases (ltb (length batch) max_batch)) [
  | inl e ↦
      rw (e, fill_batch) (fill_batch_split (batch ++ m ∷ []) out ∙ append_assoc batch (m ∷ []) out)
  | inr e ↦ rw (e, fill_batch) refl
]

-- The batch grows while the channel has messages, up to its limit.
pub fill_batch_bounds :
    (batch out : List (List ℕ))
    → length batch ≤ max_batch
    → (length (fill_batch batch out).0 ≤ max_batch)
      × (length batch ≤ length (fill_batch batch out).0)
unfolding fill_batch
fill_batch_bounds batch [] h = (h, omega arith)
fill_batch_bounds batch (m ∷ out) h = elim (Bool-cases (ltb (length batch) max_batch)) [
  | inl e ↦
      let (a, b) = fill_batch_bounds (batch ++ m ∷ []) out (room e) in
      rw (e, fill_batch) (a, omega (arith, b, length-append batch (m ∷ [])))
  | inr e ↦ rw (e, fill_batch) (h, omega arith)
]
  where
    room : ltb (length batch) max_batch ≡ true → length (batch ++ m ∷ []) ≤ max_batch
    room e = ground (arith, length-append batch (m ∷ []))
