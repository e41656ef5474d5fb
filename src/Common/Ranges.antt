-- ===== src/Common/Ranges.antt =====
-- Loops over the entries of a Go map, whose order is not specified.
use mathlib.Core.Path.{◌≡◌, refl, ap, subst, ◌∙◌}
use mathlib.Core.List.{List, [], ◌∷◌, Permᴰ}
use gopher_socks.Common.Lists.{All}

module _ {ℓ κ} {W : Type ℓ} {A : Type κ} (step : W → A → W) where
  -- A `range` loop over the entries in the order of the list.
  abbrev pub range : W → List A → W
  range w [] = w
  range w (x ∷ xs) = range (step w x) xs

  module _ {μ} (P : A → Type μ) where
    All-perm : (xs ys : List A) → Permᴰ xs ys → All P xs → All P ys
    All-perm xs ys Permᴰ.nil h = tt
    All-perm xs ys (Permᴰ.cons e d) h = (subst P e h.0, All-perm _ _ d h.1)
    All-perm xs ys (Permᴰ.swap e f) h = (subst P f h.1.0, (subst P e h.0, h.1.1))
    All-perm xs ys (Permᴰ.trans d f) h = All-perm _ _ f (All-perm _ _ d h)

    pub range-perm :
        ((w : W) (a b : A) → P a → P b → step (step w a) b ≡ step (step w b) a)
        → (xs ys : List A) → Permᴰ xs ys
        → (w : W) → All P xs
        → range w xs ≡ range w ys
    range-perm swaps xs ys Permᴰ.nil w h = refl
    range-perm swaps xs ys (Permᴰ.cons {a = a} {l₂ = rest} e d) w h =
        range-perm swaps _ _ d (step w a) h.1 ∙ ap (λ x. range (step w x) rest) e
    range-perm swaps xs ys (Permᴰ.swap {a = a} {b = b} {a' = a'} {l = rest} e f) w h =
        ap (λ w'. range w' rest)
          (swaps w a b h.0 h.1.0 ∙ ap (λ x. step (step w x) a) f ∙ ap (step (step w a')) e)
    range-perm swaps xs ys (Permᴰ.trans d f) w h =
        range-perm swaps _ _ d w h ∙ range-perm swaps _ _ f w (All-perm _ _ d h)
