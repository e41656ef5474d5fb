-- ===== src/Common/Assoc.antt =====
-- Go maps with string keys, as association lists.
use Prim.Native.String.{String}
use text.Mathlib.Text.{◌==◌}
use text.Mathlib.TextEquality.{eq_iff}
use mathlib.Core.Path.{◌≡◌, refl, ap}
use mathlib.Core.Logic.{◌≢◌}
use mathlib.Core.Bool.{Bool, true, false}
use mathlib.Core.Option.{Option, none, some}
use mathlib.Core.List.{List, [], ◌∷◌}
use native.Mathlib.Omega.{arith}
use mathlib.Core.Logic.{inl, inr}
use gopher_socks.Common.Tests.{if◌then◌else◌, Bool-cases}

abbrev pub str_eq : String → String → Bool
str_eq = ◌==◌

pub str_eq_refl : (s : String) → str_eq s s ≡ true
str_eq_refl s = (eq_iff s s).1 refl

pub str_eq→eq : (s t : String) → str_eq s t ≡ true → s ≡ t
str_eq→eq s t = (eq_iff s t).0

pub str_eq-ne : (s t : String) → s ≢ t → str_eq s t ≡ false
str_eq-ne s t h = ground (arith, eq_iff s t)

module _ {ℓ} {V : Type ℓ} where
  unfoldable pub lookup : String → List (String × V) → Option V
  lookup k [] = none
  lookup k ((j, v) ∷ m) = if str_eq j k then some v else lookup k m

  unfoldable pub insert : String → V → List (String × V) → List (String × V)
  insert k v [] = (k, v) ∷ []
  insert k v ((j, w) ∷ m) = if str_eq j k then (k, v) ∷ m else (j, w) ∷ insert k v m

  -- Every entry of the key goes.
  unfoldable pub erase : String → List (String × V) → List (String × V)
  erase k [] = []
  erase k ((j, v) ∷ m) = if str_eq j k then erase k m else (j, v) ∷ erase k m

  pub lookup-insert :
      (k j : String) (v : V) (m : List (String × V))
      → lookup j (insert k v m) ≡ (if str_eq k j then some v else lookup j m)
  unfolding lookup insert
  lookup-insert k j v [] = refl
  lookup-insert k j v ((head, w) ∷ rest) =
      let later = lookup-insert k j v rest in
      ground (arith, later, eq_iff head k, eq_iff head j, eq_iff k j)

  pub lookup-erase :
      (k j : String) (m : List (String × V))
      → lookup j (erase k m) ≡ (if str_eq k j then none else lookup j m)
  unfolding lookup erase
  lookup-erase k j [] = ground arith
  lookup-erase k j ((i, w) ∷ m) =
      ground (arith, eq_iff k j, eq_iff i k, eq_iff i j, lookup-erase k j m)

  erase-hit :
      (i k : String) (v : V) (m : List (String × V))
      → str_eq i k ≡ true
      → erase k ((i, v) ∷ m) ≡ erase k m
  erase-hit i k v m h = unfold erase in rw h

  erase-miss :
      (i k : String) (v : V) (m : List (String × V))
      → str_eq i k ≡ false
      → erase k ((i, v) ∷ m) ≡ (i, v) ∷ erase k m
  erase-miss i k v m h = unfold erase in rw h

  pub erase_comm :
      (j k : String) (m : List (String × V)) → erase j (erase k m) ≡ erase k (erase j m)
  erase_comm j k [] = unfold erase in refl
  erase_comm j k ((i, v) ∷ m) =
      let later = erase_comm j k m in
      elim (Bool-cases (str_eq i j)) [
        | inl a ↦ elim (Bool-cases (str_eq i k)) [
          | inl b ↦ rw (erase-hit i j v m a, erase-hit i k v m b) later
          | inr b ↦
              rw (erase-hit i j v m a, erase-miss i k v m b, erase-hit i j v (erase k m) a) later
        ]
        | inr a ↦ elim (Bool-cases (str_eq i k)) [
          | inl b ↦
              rw (erase-miss i j v m a, erase-hit i k v m b, erase-hit i k v (erase j m) b) later
          | inr b ↦
              rw
                (
                  erase-miss i j v m a,
                  erase-miss i k v m b,
                  erase-miss i j v (erase k m) a,
                  erase-miss i k v (erase j m) b,
                )
                (ap (◌∷◌ (i, v)) later)
        ]
      ]
