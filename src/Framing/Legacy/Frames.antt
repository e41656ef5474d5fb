-- ===== src/Framing/Legacy/Frames.antt =====
-- What `frame_end` recognises: exactly the frames that `append` writes.
use gopher_socks.Common.{
  ℕ, zero, suc, ◌+◌, ◌-◌, ◌≤◌, ◌<◌, ◌≡◌, refl, sym, ap, ◌∙◌, List, [], ◌∷◌, ◌++◌, none, some, true,
  length, take, drop, get_or, arith, length-append, take-append_left, drop-append_left,
  take-append-drop, length-take, append_assoc, All,
}
use gopher_socks.Framing.Bytes.{
  IsByte, be16, from_be16, bytes_equal, bytes_equal_refl, bytes_equal→eq, from_be16-be16,
  be16-from_be16,
}
use gopher_socks.Framing.Codec.{max_uint16}
use gopher_socks.Framing.Legacy.{Legacy, frame_end, append}

-- The bytes of a payload's frame.
unfoldable pub frame : Legacy → List ℕ → List ℕ
frame c p = p ++ (be16 (length p) ++ c.delim)

pub length-frame : (c : Legacy) (p : List ℕ) → length (frame c p) ≡ length p + 2 + length c.delim
unfolding frame
length-frame c p = omega (arith, length-append p (be16 (length p) ++ c.delim))

-- The two bytes behind `p`.
get_or-append :
    (i : ℕ) (p : List ℕ) (x : ℕ) (rest : List ℕ) → i ≡ length p → get_or (p ++ x ∷ rest) i 0 ≡ x
get_or-append zero [] x rest e = refl
get_or-append zero (y ∷ p) x rest e = absurd (omega arith)
get_or-append (suc i) [] x rest e = absurd (omega arith)
get_or-append (suc i) (y ∷ p) x rest e = get_or-append i p x rest (omega arith)

get_or-append_next :
    (i : ℕ) (p : List ℕ) (x y : ℕ) (rest : List ℕ)
    → i ≡ suc (length p)
    → get_or (p ++ x ∷ y ∷ rest) i 0 ≡ y
get_or-append_next zero p x y rest e = absurd (omega arith)
get_or-append_next (suc zero) [] x y rest e = refl
get_or-append_next (suc (suc i)) [] x y rest e = absurd (omega arith)
get_or-append_next (suc i) (z ∷ p) x y rest e = get_or-append_next i p x y rest (omega arith)

frame_end-split :
    (c : Legacy) (p : List ℕ) (hi lo : ℕ)
    → from_be16 hi lo ≡ length p
    → frame_end c (p ++ hi ∷ lo ∷ c.delim) ≡ some (length p)
unfolding frame_end
frame_end-split c p hi lo e = ground (
  arith,
  len,
  drop_delim,
  bytes_equal_refl c.delim,
  get_or-append (length buf - length c.delim - 2) p hi (lo ∷ c.delim) (omega (arith, len)),
  get_or-append_next (length buf - length c.delim - 1) p hi lo c.delim (omega (arith, len)),
)
  where
    buf : List ℕ
    buf = p ++ hi ∷ lo ∷ c.delim

    len : length buf ≡ length p + 2 + length c.delim
    len = omega (arith, length-append p (hi ∷ lo ∷ c.delim))

    drop_delim : drop (length buf - length c.delim) buf ≡ c.delim
    drop_delim =
        ap (drop (length buf - length c.delim)) (sym (append_assoc p (hi ∷ lo ∷ []) c.delim))
        ∙ drop-append_left _ (p ++ hi ∷ lo ∷ []) c.delim
            (omega (arith, len, length-append p (hi ∷ lo ∷ [])))

pub frame_end-frame :
    (c : Legacy) (p : List ℕ) → length p ≤ max_uint16 → frame_end c (frame c p) ≡ some (length p)
unfolding frame
frame_end-frame c p h = frame_end-split c p _ _ (from_be16-be16 (length p) (omega arith))

pub take-frame : (c : Legacy) (p : List ℕ) → take (length p) (frame c p) ≡ p
unfolding frame
take-frame c p = take-append_left (length p) p _ refl

drop-cons : (n : ℕ) (xs : List ℕ) → n < length xs → drop n xs ≡ get_or xs n 0 ∷ drop (suc n) xs
drop-cons n [] h = absurd (omega arith)
drop-cons zero (x ∷ xs) h = refl
drop-cons (suc n) (x ∷ xs) h = drop-cons n xs (omega arith)

All-get_or : (i : ℕ) (xs : List ℕ) → All IsByte xs → IsByte (get_or xs i 0)
All-get_or i [] h = omega arith
All-get_or zero (x ∷ xs) h = h.0
All-get_or (suc i) (x ∷ xs) h = All-get_or i xs h.1

-- The facts behind a positive answer.
pub record Found (c : Legacy) (buf : List ℕ) (n : ℕ) : Type 0 where
  pub len : length buf ≡ n + 2 + length c.delim
  pub number : from_be16 (get_or buf n 0) (get_or buf (suc n) 0) ≡ n
  pub tail : drop (suc (suc n)) buf ≡ c.delim

pub frame_end-Found : (c : Legacy) (buf : List ℕ) (n : ℕ) → frame_end c buf ≡ some n → Found c buf n
unfolding frame_end
frame_end-Found c buf n h = record { len = len; number = number; tail = tail }
  where
    d : ℕ
    d = length buf - length c.delim

    raw :
        (length buf ≡ n + 2 + length c.delim)
        × (n ≡ d - 2)
        × (from_be16 (get_or buf (d - 2) 0) (get_or buf (d - 1) 0) ≡ n)
        × (bytes_equal (drop d buf) c.delim ≡ true)
    raw = ground arith

    len : length buf ≡ n + 2 + length c.delim
    len = raw.0

    number : from_be16 (get_or buf n 0) (get_or buf (suc n) 0) ≡ n
    number =
        let p : d - 2 ≡ n = omega (arith, raw.0) in
        let q : d - 1 ≡ suc n = omega (arith, raw.0) in rw (p, q) at raw.2

    tail : drop (suc (suc n)) buf ≡ c.delim
    tail =
        let p : d ≡ suc (suc n) = omega (arith, raw.0) in
        rw p at (bytes_equal→eq (drop d buf) c.delim raw.3)

-- A positive answer means that `buf` is the frame of its first `n` bytes.
pub frame_end_sound :
    (c : Legacy) (buf : List ℕ) (n : ℕ)
    → All IsByte buf
    → frame_end c buf ≡ some n
    → (buf ≡ frame c (take n buf)) × (length (take n buf) ≡ n) × (n ≤ max_uint16)
unfolding frame
frame_end_sound c buf n bytes h = (whole, size, omega (arith, number, hi_byte, lo_byte))
  where
    open (frame_end-Found c buf n h) use {len, number, tail}

    hi_byte : IsByte (get_or buf n 0)
    hi_byte = All-get_or n buf bytes

    lo_byte : IsByte (get_or buf (suc n) 0)
    lo_byte = All-get_or (suc n) buf bytes

    size : length (take n buf) ≡ n
    size = omega (arith, length-take n buf, len)

    header : be16 n ≡ get_or buf n 0 ∷ get_or buf (suc n) 0 ∷ []
    header = ap be16 (sym number) ∙ be16-from_be16 _ _ hi_byte lo_byte

    rest : drop n buf ≡ be16 n ++ c.delim
    rest =
        drop-cons n buf (omega (arith, len))
        ∙ ap (◌∷◌ (get_or buf n 0))
            (drop-cons (suc n) buf (omega (arith, len)) ∙ ap (◌∷◌ (get_or buf (suc n) 0)) tail)
        ∙ ap (λ l. l ++ c.delim) (sym header)

    whole : buf ≡ take n buf ++ (be16 (length (take n buf)) ++ c.delim)
    whole = rw size (sym (take-append-drop n buf) ∙ ap (◌++◌ (take n buf)) rest)

-- `append` writes the frame, and refuses what a uint16 cannot count.
pub append-frame :
    (c : Legacy) (dst p : List ℕ)
    → length p ≤ max_uint16
    → append c dst p ≡ (dst ++ frame c p, none)
unfolding append frame
append-frame c dst p h = ground (
  arith,
  append_assoc dst p (be16 (length p)),
  append_assoc (dst ++ p) (be16 (length p)) c.delim,
  append_assoc dst p (be16 (length p) ++ c.delim),
)
