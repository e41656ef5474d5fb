-- ===== src/Framing/Legacy/RoundTrip.antt =====
-- framing.go: the Legacy decoder reads back what the encoder wrote.
use gopher_socks.Common.{
  ℕ, zero, suc, ◌-◌, ◌≤◌, ◌<◌, ◌≡◌, refl, sym, ap, ◌≢◌, ◌∙◌, List, [], ◌∷◌, ◌++◌, none, some,
  length, get_or, arith, length-append, append_assoc, inl, inr, subst, ne-nil_of_length,
}
use gopher_socks.Common.Int.{ℤ, pos, ◌+ℤ◌, ◌≤ℤ◌, min_ℤ}
use gopher_socks.Errors.{Error, ok}
use gopher_socks.Framing.Reader.{Reader, Stop, ended, Scan, scan}
use gopher_socks.Framing.Scan.{scan-Inside, scan_progress, Inside}
use gopher_socks.Framing.Bytes.{be16}
use gopher_socks.Framing.Codec.{max_uint16}
use gopher_socks.Framing.Legacy.{
  Legacy, append, frame_end, last_byte, round, read_one, read_loop, read,
}
use gopher_socks.Framing.Legacy.Rounds.{after, grown, read_one-stops, read_one-goes}
use gopher_socks.Framing.Legacy.Frames.{
  frame, length-frame, frame_end-frame, take-frame, append-frame,
}

-- No proper prefix of the frame looks like a frame itself.
abbrev pub Unambiguous : Legacy → List ℕ → Type 0
Unambiguous c p = (q s : List ℕ) → q ++ s ≡ frame c p → s ≢ [] → frame_end c q ≡ none

regroup : (a b c d : List ℕ) → (a ++ b) ++ (c ++ d) ≡ a ++ ((b ++ c) ++ d)
regroup a b c d = simp append_assoc

module _ (c : Legacy) (limit : ℤ) where
  pub round-frame :
      (e : Error) (s : Stop) (p : List ℕ)
      → length p ≤ max_uint16
      → round c limit e s (frame c p) ≡ some (ok p)
  unfolding round
  round-frame e s p h = rw (frame_end-frame c p h, round, take-frame c p)

  pub round-inside :
      (e : Error) (s : Stop) (p buf rest : List ℕ)
      → Unambiguous c p
      → pos (length p) ≤ℤ limit +ℤ pos 1
      → s ≢ ended
      → buf ++ rest ≡ frame c p
      → rest ≢ []
      → round c limit e s buf ≡ none
  unfolding round
  round-inside e s p buf rest clear short open_ split more =
      rw (clear buf rest split more, round)
        (ground (arith, length-frame c p, ap length split, length-append buf rest))

  -- The stream holds the rest of the frame, `front` and the delimiter's last byte, and then `rest`.
  read_one-frame :
      (fuel : ℕ) (r : Reader) (p buf front rest : List ℕ)
      → Unambiguous c p
      → length p ≤ max_uint16
      → pos (length p) ≤ℤ limit +ℤ pos 1
      → 1 ≤ r.size
      → length front < fuel
      → r.bytes ≡ front ++ last_byte c.delim ∷ rest
      → buf ++ (front ++ last_byte c.delim ∷ []) ≡ frame c p
      → read_one fuel c r limit buf ≡ some (ok p, record r { bytes = rest })
  read_one-frame zero r p buf front rest clear h short roomy h_fuel hb hf = absurd (omega arith)
  read_one-frame (suc fuel) r p buf front rest clear h short roomy h_fuel hb hf = elim inside.1 [
    | inl (e, f) ↦
        read_one-stops c limit fuel r buf (ok p) (rw (e, hf) (round-frame r.fail _ p h))
        ∙ ap (λ bs. some (ok p, record r { bytes = bs })) f
    | inr (front', e, f) ↦
        read_one-goes c limit fuel r buf (
          round-inside r.fail _ p (grown c limit r buf) (front' ++ last_byte c.delim ∷ []) clear
            short inside.0 (regrouped front' e)
            (ne-nil_of_length _ (omega (arith, length-append front' (last_byte c.delim ∷ [])))))
        ∙ read_one-frame fuel (after c limit r) p (grown c limit r buf) front' rest clear h short
            roomy
            (omega (
              arith,
              ap length e,
              length-append s.chunk front',
              scan_progress r.size (last_byte c.delim) r.bytes roomy inside.0,
            ))
            f (regrouped front' e)
  ]
    where
      s : Scan
      s = scan r.size (last_byte c.delim) r.bytes

      inside : Inside (last_byte c.delim) front rest s
      inside =
          subst (λ bs. Inside (last_byte c.delim) front rest (scan r.size (last_byte c.delim) bs))
            (sym hb) (scan-Inside r.size (last_byte c.delim) front rest)

      regrouped :
          (front' : List ℕ)
          → s.chunk ++ front' ≡ front
          → (buf ++ s.chunk) ++ (front' ++ last_byte c.delim ∷ []) ≡ frame c p
      regrouped front' e =
          regroup buf s.chunk front' (last_byte c.delim ∷ [])
          ∙ ap (λ l. buf ++ (l ++ last_byte c.delim ∷ [])) e
          ∙ hf

-- A delimiter that is not empty ends with its last byte.
last-split : (x : ℕ) (xs : List ℕ) → (front : List ℕ) × (x ∷ xs ≡ front ++ last_byte (x ∷ xs) ∷ [])
last-split x [] = ([], refl)
last-split x (y ∷ ys) =
    let (front, e) = last-split y ys in
    (x ∷ front, ap (◌∷◌ x) (e ∙ ap (λ i. front ++ get_or (x ∷ y ∷ ys) i 0 ∷ []) shift))
  where
    shift : suc (suc (length ys) - 1) ≡ suc (suc (length ys)) - 1
    shift = omega arith

delim-split :
    (c : Legacy) → c.delim ≢ [] → (front : List ℕ) × (c.delim ≡ front ++ last_byte c.delim ∷ [])
delim-split c ne = go c.delim refl
  where
    go : (d : List ℕ) → c.delim ≡ d → (front : List ℕ) × (c.delim ≡ front ++ last_byte c.delim ∷ [])
    go [] e = absurd (ne e)
    go (x ∷ xs) e = rw e (last-split x xs)

frame-last :
    (c : Legacy) (p : List ℕ)
    → c.delim ≢ []
    → (front : List ℕ) × (frame c p ≡ front ++ last_byte c.delim ∷ [])
unfolding frame
frame-last c p ne =
    let (front, e) = delim-split c ne in
    (
      p ++ (be16 (length p) ++ front),
      ap (λ d. p ++ (be16 (length p) ++ d)) e
          ∙ sym (append_assoc p (be16 (length p) ++ front) (last_byte c.delim ∷ [])),
    )

-- `readOne` on a stream that begins with a frame.
pub read_one-append :
    (c : Legacy) (limit : ℤ) (p rest : List ℕ) (r : Reader)
    → c.delim ≢ []
    → Unambiguous c p
    → length p ≤ max_uint16
    → pos (length p) ≤ℤ limit +ℤ pos 1
    → 1 ≤ r.size
    → r.bytes ≡ frame c p ++ rest
    → read_one (suc (length r.bytes)) c r limit [] ≡ some (ok p, record r { bytes = rest })
read_one-append c limit p rest r ne clear h short roomy hb =
    read_one-frame c limit (suc (length r.bytes)) r p [] last.0 rest clear h short roomy
      (omega (arith, ap length stream, length-append last.0 (last_byte c.delim ∷ rest))) stream
      (sym last.1)
  where
    last : (front : List ℕ) × (frame c p ≡ front ++ last_byte c.delim ∷ [])
    last = frame-last c p ne

    stream : r.bytes ≡ last.0 ++ last_byte c.delim ∷ rest
    stream = hb ∙ ap (λ l. l ++ rest) last.1 ∙ append_assoc last.0 (last_byte c.delim ∷ []) rest

-- With a delimiter that is not empty, and for a payload that is not empty, not longer than max or 65535,
-- and unambiguous: from a stream that begins with what `append` wrote for it, `read` gives that payload and
-- leaves what follows, whatever the size of the reader's buffer (at least one byte).
pub read-append :
    (c : Legacy) (max : ℤ) (b : ℕ) (p rest : List ℕ) (r : Reader)
    → c.delim ≢ []
    → Unambiguous c (b ∷ p)
    → length (b ∷ p) ≤ max_uint16
    → pos (length (b ∷ p)) ≤ℤ max
    → 1 ≤ r.size
    → r.bytes ≡ (append c [] (b ∷ p)).0 ++ rest
    → read c r max ≡ some (ok (b ∷ p), record r { bytes = rest })
read-append c max b p rest r ne clear h short roomy hb =
    unfold read read_loop in
    rw (
      read_one-append c (min_ℤ max (pos max_uint16)) (b ∷ p) rest r ne clear h (ground arith) roomy
          (hb ∙ ap (λ a. a.0 ++ rest) (append-frame c [] (b ∷ p) h)),
      read_loop,
    )
