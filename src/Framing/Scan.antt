-- ===== src/Framing/Scan.antt =====
-- What ReadSlice takes from the stream, on every stream.
use gopher_socks.Common.{
  ℕ, zero, suc, ◌≤◌, ◌≡◌, refl, ap, ◌≢◌, ◌⊎◌, inl, inr, List, [], ◌∷◌, ◌++◌, length, arith,
  Bool-cases, ◌==◌, ==_iff,
}
use gopher_socks.Framing.Reader.{ended, Scan, scan}

-- Nothing is lost, the buffer's size is kept, and what ends with the stream has taken all of it.
pub record Scans (room : ℕ) (bs : List ℕ) (s : Scan) : Type 0 where
  pub split : s.chunk ++ s.rest ≡ bs
  pub fits : length s.chunk ≤ room
  pub drained : s.stop ≡ ended → s.rest ≡ []

scan_step :
    (room d b : ℕ) (bs : List ℕ)
    → Scans room bs (scan room d bs)
    → Scans (suc room) (b ∷ bs) (scan (suc room) d (b ∷ bs))
unfolding scan
scan_step room d b bs s = elim (Bool-cases (b == d)) [
  | inl e ↦ rw (e, scan) (record { split = refl; fits = omega arith; drained = λ h. cc })
  | inr e ↦
      rw (e, scan)
        (record { split = ap (◌∷◌ b) s.split; fits = omega (arith, s.fits); drained = s.drained })
]

pub scan-Scans : (room d : ℕ) (bs : List ℕ) → Scans room bs (scan room d bs)
unfolding scan
scan-Scans zero d bs = record { split = refl; fits = omega arith; drained = λ h. cc }
scan-Scans (suc room) d [] = record { split = refl; fits = omega arith; drained = λ h. refl }
scan-Scans (suc room) d (b ∷ bs) = scan_step room d b bs (scan-Scans room d bs)

-- With room in the buffer, a chunk is empty only at the end of the stream.
pub scan_progress :
    (room d : ℕ) (bs : List ℕ)
    → 1 ≤ room
    → (scan room d bs).stop ≢ ended
    → 1 ≤ length (scan room d bs).chunk
unfolding scan
scan_progress zero d bs roomy h = absurd (omega arith)
scan_progress (suc room) d [] roomy h = absurd (h refl)
scan_progress (suc room) d (b ∷ bs) roomy h = ground arith

-- A stream in which the delimiter follows `front`: the scan stops there, or inside `front`.
abbrev pub Inside : ℕ → List ℕ → List ℕ → Scan → Type 0
Inside d front more s =
    (s.stop ≢ ended)
    × (((s.chunk ≡ front ++ d ∷ []) × (s.rest ≡ more))
        ⊎ ((front' : List ℕ) × (s.chunk ++ front' ≡ front) × (s.rest ≡ front' ++ d ∷ more)))

Inside-cons :
    (d b : ℕ) (front more : List ℕ) (s : Scan)
    → Inside d front more s
    → Inside d (b ∷ front) more (record s { chunk = b ∷ s.chunk })
Inside-cons d b front more s (n, inl (e, f)) = (n, inl (ap (◌∷◌ b) e, f))
Inside-cons d b front more s (n, inr (front', e, f)) = (n, inr (front', ap (◌∷◌ b) e, f))

pub scan-Inside :
    (room d : ℕ) (front more : List ℕ) → Inside d front more (scan room d (front ++ d ∷ more))
unfolding scan
scan-Inside zero d front more = ((λ e. cc), inr (front, refl, refl))
scan-Inside (suc room) d [] more = rw ((==_iff d d).1 refl, scan) ((λ e. cc), inl (refl, refl))
scan-Inside (suc room) d (b ∷ front) more = elim (Bool-cases (b == d)) [
  | inl e ↦ rw (e, scan) ((λ h. cc), inr (front, refl, refl))
  | inr e ↦ rw (e, scan) (Inside-cons d b front more _ (scan-Inside room d front more))
]
