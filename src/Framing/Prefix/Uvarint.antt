-- ===== src/Framing/Prefix/Uvarint.antt =====
-- binary.ReadUvarint reads back what binary.AppendUvarint wrote.
use gopher_socks.Common.{
  ℕ, zero, suc, ◌<◌, ◌≡◌, ◌+◌, ◌%◌, ◌*◌, ◌^◌, ◌/◌, ap, ◌∙◌, subst, List, ◌∷◌, ◌++◌, arith, false,
  ◌==◌, ◌&&◌, ltb,
}
use gopher_socks.Errors.{Error, ok}
use gopher_socks.Framing.Reader.{Reader, uvarint_loop, read_uvarint}
use gopher_socks.Framing.Prefix.{uvarint}
use native.Mathlib.Nat.{div-add-mod}
use native.Mathlib.Numerals.{towards_suc}

shift_seven : (s : ℕ) → 2 ^ (s + 7) ≡ 128 * 2 ^ s
shift_seven s = simp towards_suc (omega arith)

next_scale : (i : ℕ) → 2 ^ (7 * (i + 1)) ≡ 128 * 2 ^ (7 * i)
next_scale i =
    let e : 7 * (i + 1) ≡ 7 * i + 7 = omega arith in ap (λ (k : ℕ). 2 ^ k) e ∙ shift_seven (7 * i)

-- The lowest group of `w` and the rest, counted from byte `i` on.
split_group : (w i : ℕ) → w * 2 ^ (7 * i) ≡ w % 128 * 2 ^ (7 * i) + w / 128 * 2 ^ (7 * (i + 1))
split_group w i = omega (
  arith,
  ap (λ (t : ℕ). t * 2 ^ (7 * i)) (div-add-mod w 128),
  ap (λ (t : ℕ). w / 128 * t) (next_scale i),
)

last_fits : (i w : ℕ) → w * 2 ^ (7 * i) < 2 ^ 64 → (i == 9 && ltb 1 w) ≡ false
last_fits i w h = ground (arith, λ (e : i ≡ 9). subst (λ j. w * 2 ^ (7 * j) < 2 ^ 64) e h)

uvarint_loop-last :
    (left i x w : ℕ) (rest : List ℕ) (e : Error)
    → w < 128
    → x + w * 2 ^ (7 * i) < 2 ^ 64
    → uvarint_loop (suc left) i x (w ∷ rest) e ≡ (ok (x + w * 2 ^ (7 * i)), rest)
unfolding uvarint_loop
uvarint_loop-last left i x w rest e h fits = ground (arith, last_fits i w (omega arith))

uvarint_loop-inner :
    (left i x g : ℕ) (rest : List ℕ) (e : Error)
    → g < 128
    → x + g * 2 ^ (7 * i) < 2 ^ 64
    → uvarint_loop (suc left) i x ((g + 128) ∷ rest) e
      ≡ uvarint_loop left (i + 1) (x + g * 2 ^ (7 * i)) rest e
uvarint_loop-inner left i x g rest e h fits =
    let m : (g + 128) % 128 ≡ g = omega arith in
    let k : ltb (g + 128) 128 ≡ false = ground arith in
    let f : (x + g * 2 ^ (7 * i)) % 2 ^ 64 ≡ x + g * 2 ^ (7 * i) = omega arith in
    unfold uvarint_loop in rw (k, m, f, uvarint_loop)

uvarint_loop-uvarint :
    (k left i x w : ℕ) (rest : List ℕ) (e : Error)
    → k < left
    → w < 128 ^ suc k
    → x + w * 2 ^ (7 * i) < 2 ^ 64
    → uvarint_loop left i x (uvarint k w ++ rest) e ≡ (ok (x + w * 2 ^ (7 * i)), rest)
unfolding uvarint
uvarint_loop-uvarint k zero i x w rest e h hw fits = absurd (omega arith)
uvarint_loop-uvarint zero (suc left) i x w rest e h hw fits =
    uvarint_loop-last left i x w rest e (omega arith) fits
uvarint_loop-uvarint (suc k) (suc left) i x w rest e h hw fits = ground (
  arith,
  uvarint_loop-last left i x w rest e,
  split_group w i,
  uvarint_loop-inner left i x (w % 128) (uvarint k (w / 128) ++ rest) e,
  uvarint_loop-uvarint k left (i + 1) (x + w % 128 * 2 ^ (7 * i)) (w / 128) rest e (omega arith)
      (omega arith),
)

pub read_uvarint-uvarint :
    (r : Reader) (n : ℕ) (rest : List ℕ)
    → n < 2 ^ 64
    → r.bytes ≡ uvarint 9 n ++ rest
    → read_uvarint r ≡ (ok n, record r { bytes = rest })
unfolding read_uvarint
read_uvarint-uvarint r n rest h hb = rw hb (
    rw (uvarint_loop-uvarint 9 10 0 0 n rest r.fail (omega arith) (omega arith) (omega arith))
      (let z : 0 + n * 1 ≡ n = omega arith in ap (λ k. (ok k, record r { bytes = rest })) z))
