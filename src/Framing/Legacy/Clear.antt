-- ===== src/Framing/Legacy/Clear.antt =====
-- Which payloads the Legacy format carries: a test for `Unambiguous`.
use gopher_socks.Common.{
  ℕ, ◌≡◌, refl, sym, ap, ◌∙◌, ◌≢◌, ◌↔◌, List, [], ◌∷◌, ◌++◌, Option, none, some, Bool, true, false,
  ◌&&◌, append_assoc, append-nil, arith,
}
use gopher_socks.Framing.Legacy.{Legacy, frame_end}
use gopher_socks.Framing.Legacy.Frames.{frame}
use gopher_socks.Framing.Legacy.RoundTrip.{Unambiguous}

abbrev is_none : Option ℕ → Bool
is_none none = true
is_none (some n) = false

-- No front of `front ++ rest` that is at least `front`, and not the whole, ends a frame.
unfoldable pub none_ends : Legacy → List ℕ → List ℕ → Bool
none_ends c front [] = true
none_ends c front (b ∷ rest) = is_none (frame_end c front) && none_ends c (front ++ b ∷ []) rest

unfoldable pub is_clear : Legacy → List ℕ → Bool
is_clear c p = none_ends c [] (frame c p)

none_ends_sound :
    (c : Legacy) (front rest q s : List ℕ)
    → none_ends c front rest ≡ true
    → q ++ s ≡ rest
    → s ≢ []
    → frame_end c (front ++ q) ≡ none
none_ends_sound c front [] [] s h e more = absurd (more e)
none_ends_sound c front [] (x ∷ q) s h e more = cc
none_ends_sound c front (b ∷ rest) [] s h e more = unfold none_ends in rw append-nil (ground arith)
none_ends_sound c front (b ∷ rest) (x ∷ q) s h e more =
    let tail : none_ends c (front ++ b ∷ []) rest ≡ true = unfold none_ends in ground arith in
    let same : b ≡ x = cc in
    ap (frame_end c)
      (sym (append_assoc front (x ∷ []) q) ∙ ap (λ y. (front ++ y ∷ []) ++ q) (sym same))
    ∙ none_ends_sound c (front ++ b ∷ []) rest q s tail (cc) more

none_ends_complete :
    (c : Legacy) (front rest : List ℕ)
    → ((q s : List ℕ) → q ++ s ≡ rest → s ≢ [] → frame_end c (front ++ q) ≡ none)
    → none_ends c front rest ≡ true
unfolding none_ends
none_ends_complete c front [] h = refl
none_ends_complete c front (b ∷ rest) h =
    let here : frame_end c front ≡ none =
      ap (frame_end c) (sym (append-nil front)) ∙ h [] (b ∷ rest) refl (λ e. cc) in
    let later : none_ends c (front ++ b ∷ []) rest ≡ true =
      none_ends_complete c (front ++ b ∷ []) rest (λ q s e more.
        ap (frame_end c) (append_assoc front (b ∷ []) q) ∙ h (b ∷ q) s (ap (◌∷◌ b) e) more) in
    rw (here, later) refl

-- The test accepts exactly the unambiguous payloads.
pub is_clear_iff : (c : Legacy) (p : List ℕ) → (is_clear c p ≡ true) ↔ Unambiguous c p
unfolding is_clear
is_clear_iff c p = (
  λ h q s e more. none_ends_sound c [] (frame c p) q s h e more,
  λ h. none_ends_complete c [] (frame c p) h,
)
