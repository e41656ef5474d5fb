-- ===== src/Framing/Laws.antt =====
-- framing.go: what a user of the Codec interface may rely on, and that the three codecs provide it.
use gopher_socks.Common.{
  ℕ, ◌^◌, ◌≤◌, ◌<◌, ◌≡◌, refl, ap, ◌∙◌, sym, ◌≢◌, List, [], ◌∷◌, ◌++◌, some, none, length,
}
use gopher_socks.Common.Int.{ℤ, pos, ◌≤ℤ◌, to_u64}
use gopher_socks.Errors.{ok}
use gopher_socks.Framing.Reader.{Reader}
use gopher_socks.Framing.Codec.{Codec, max_uint16}
use gopher_socks.Framing.Legacy.{Legacy, append, codec}
use gopher_socks.Framing.Legacy.Frames.{append-frame}
use gopher_socks.Framing.Legacy.RoundTrip.{Unambiguous, read-append}
use gopher_socks.Framing.Prefix.{uvarint_codec, uint32_codec}
use gopher_socks.Framing.Prefix.Payload.{
  read-append_uvarint, read-append_uint32, append_uvarint-frame, append_uint32-frame,
}

-- `Fits max p`: the format carries the payload `p` to a reader with the limit max.
pub record IsCodec (c : Codec) (Fits : ℤ → List ℕ → Type 0) : Type 0 where
  pub appends :
      (max : ℤ) (dst p : List ℕ) → Fits max p → c.append dst p ≡ (dst ++ (c.append [] p).0, none)
  pub reads :
      (max : ℤ) (p rest : List ℕ) (r : Reader)
      → 1 ≤ r.size
      → Fits max p
      → r.bytes ≡ (c.append [] p).0 ++ rest
      → c.read r max ≡ some (ok p, record r { bytes = rest })

-- What each format carries. A Legacy payload must not be empty.
pub record LegacyFits (c : Legacy) (max : ℤ) (p : List ℕ) : Type 0 where
  pub full : p ≢ []
  pub counted : length p ≤ max_uint16
  pub short : pos (length p) ≤ℤ max
  pub clear : Unambiguous c p

abbrev pub UvarintFits : ℤ → List ℕ → Type 0
UvarintFits max p = (length p < 2 ^ 64) × (length p ≤ to_u64 max)

abbrev pub Uint32Fits : ℤ → List ℕ → Type 0
Uint32Fits max p = (length p < 2 ^ 32) × (length p ≤ to_u64 max)

legacy-reads :
    (c : Legacy) (max : ℤ) (p rest : List ℕ) (r : Reader)
    → c.delim ≢ []
    → 1 ≤ r.size
    → LegacyFits c max p
    → r.bytes ≡ (append c [] p).0 ++ rest
    → (codec c).read r max ≡ some (ok p, record r { bytes = rest })
legacy-reads c max [] rest r ne roomy fits hb = absurd (fits.full refl)
legacy-reads c max (b ∷ p) rest r ne roomy fits hb =
    read-append c max b p rest r ne fits.clear fits.counted fits.short roomy hb

-- The Legacy codec with a delimiter that is not empty carries every payload that is not empty, not
-- too long and unambiguous.
pub legacy-IsCodec : (c : Legacy) → c.delim ≢ [] → IsCodec (codec c) (LegacyFits c)
legacy-IsCodec c ne = record {
  appends = λ max dst p fits.
      append-frame c dst p fits.counted
      ∙ ap (λ a. (dst ++ a.0, none)) (sym (append-frame c [] p fits.counted));
  reads = λ max p rest r roomy fits hb. legacy-reads c max p rest r ne roomy fits hb;
}

-- The uvarint codec carries every payload within max.
pub uvarint-IsCodec : IsCodec uvarint_codec UvarintFits
uvarint-IsCodec = record {
  appends = λ max dst p fits.
      append_uvarint-frame dst p ∙ ap (λ a. (dst ++ a.0, none)) (sym (append_uvarint-frame [] p));
  reads = λ max p rest r roomy fits hb. ap some (read-append_uvarint max p rest r fits.0 fits.1 hb);
}

-- The uint32 codec carries every payload below 2 ^ 32 bytes and within max.
pub uint32-IsCodec : IsCodec uint32_codec Uint32Fits
uint32-IsCodec = record {
  appends = λ max dst p fits.
      append_uint32-frame dst p fits.0
      ∙ ap (λ a. (dst ++ a.0, none)) (sym (append_uint32-frame [] p fits.0));
  reads = λ max p rest r roomy fits hb. ap some (read-append_uint32 max p rest r fits.0 fits.1 hb);
}
