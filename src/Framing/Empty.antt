-- ===== src/Framing/Empty.antt =====
-- framing.go: the codecs on a stream that has ended.
use gopher_socks.Common.{
  ℕ, ◌≤◌, ◌≡◌, ◌≢◌, refl, ap, sym, ◌∙◌, subst, List, [], ◌∷◌, ◌++◌, some, All,
}
use gopher_socks.Common.Int.{ℤ}
use gopher_socks.Errors.{ok}
use gopher_socks.Framing.Reader.{Reader, read_uvarint, uvarint_loop, read_full}
use gopher_socks.Framing.Bytes.{IsByte}
use gopher_socks.Framing.Codec.{Codec}
use gopher_socks.Framing.Legacy.Frames.{frame}
use gopher_socks.Framing.Prefix.{
  read_uvarint_frame, read_uint32_frame, read_header, uvarint_codec, uint32_codec,
}
use gopher_socks.Framing.Legacy.{Legacy, codec}
use gopher_socks.Framing.Legacy.Sound.{read-Delivers, empties}

-- From an empty stream the codec reads no message.
abbrev pub Dry : Codec → Type 0
Dry c =
    (max : ℤ) (r r' : Reader) (m : List ℕ)
    → 1 ≤ r.size
    → r.bytes ≡ []
    → c.read r max ≢ some (ok m, r')

emptied : (r : Reader) → r.bytes ≡ [] → r ≡ record r { bytes = [] }
emptied r e = ap (λ (bs : List ℕ). record r { bytes = bs }) e

pub uvarint-Dry : Dry uvarint_codec
unfolding read_uvarint_frame read_header read_uvarint uvarint_loop
uvarint-Dry max r r' m roomy e h =
    let g = ap (λ x. some (read_uvarint_frame x max)) (sym (emptied r e)) ∙ h in cc

pub uint32-Dry : Dry uint32_codec
unfolding read_uint32_frame read_header read_full
uint32-Dry max r r' m roomy e h =
    let g = ap (λ x. some (read_uint32_frame x max)) (sym (emptied r e)) ∙ h in cc

nothing_in_front : (xs ys : List ℕ) → [] ≡ xs ++ ys → ys ≡ []
nothing_in_front [] ys e = sym e
nothing_in_front (x ∷ xs) ys e = absurd (cc)

frame-full : (c : Legacy) (p rest : List ℕ) → p ≢ [] → frame c p ++ rest ≢ []
unfolding frame
frame-full c [] rest full e = full refl
frame-full c (b ∷ p) rest full e = cc

pub legacy-Dry : (c : Legacy) → Dry (codec c)
legacy-Dry c max r r' m roomy e h =
    let d = read-Delivers c max r r' m roomy (subst (All IsByte) (sym e) tt) h in
    frame-full c m r'.bytes d.full
      (nothing_in_front (empties c d.k) (frame c m ++ r'.bytes) (sym e ∙ d.stream))
