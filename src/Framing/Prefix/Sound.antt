-- ===== src/Framing/Prefix/Sound.antt =====
-- framing.go: what a length-prefixed codec returns, on any stream of bytes, and on one that is cut.
use gopher_socks.Common.{
  ℕ, zero, suc, ◌+◌, ◌*◌, ◌%◌, ◌^◌, ◌≤◌, ◌<◌, ◌≡◌, refl, ap, ◌∙◌, sym, subst, List, [], ◌∷◌, ◌++◌,
  length, arith, append_assoc, ltb, inl, inr, Bool-cases, All, All-append_left,
}
use gopher_socks.Common.Int.{ℤ, to_u64}
use gopher_socks.Errors.{Error, Result, ok, err}
use gopher_socks.Framing.Reader.{Reader, Read, read_full, read_uvarint, uvarint_loop}
use gopher_socks.Framing.Bytes.{IsByte, be32, from_be32}
use gopher_socks.Framing.Prefix.{
  read_payload, read_header, read_uvarint_frame, append_uint32, header_number, read_uint32_frame,
}
use gopher_socks.Framing.Prefix.Payload.{read_full-ok, read_payload-ok, append_uint32-frame}

read_header-ok :
    (m : Result ℕ × Reader) (max : ℤ) (p : List ℕ) (r' : Reader)
    → read_header m max ≡ (ok p, r')
    → (n : ℕ) × (r : Reader) × (m ≡ (ok n, r)) × (read_payload r n max ≡ (ok p, r'))
unfolding read_header
read_header-ok (ok n, r) max p r' h = (n, r, refl, h)
read_header-ok (err e, r) max p r' h = cc

header_number-ok :
    (m : Read) (n : ℕ) (r : Reader)
    → header_number m ≡ (ok n, r)
    → (hdr : List ℕ) × (m ≡ (ok hdr, r)) × (from_be32 hdr ≡ n)
header_number-ok (ok hdr, x) n r h = (hdr, ground arith, ground arith)
header_number-ok (err e, x) n r h = cc

be32-from_be32 : (hdr : List ℕ) → All IsByte hdr → length hdr ≡ 4 → be32 (from_be32 hdr) ≡ hdr
be32-from_be32 [] h e = absurd (omega arith)
be32-from_be32 (a ∷ []) h e = absurd (omega arith)
be32-from_be32 (a ∷ b ∷ []) h e = absurd (omega arith)
be32-from_be32 (a ∷ b ∷ c ∷ []) h e = absurd (omega arith)
be32-from_be32 (a ∷ b ∷ c ∷ d ∷ []) h e = ground arith
be32-from_be32 (a ∷ b ∷ c ∷ d ∷ x ∷ xs) h e = absurd (omega arith)

from_be32-lt : (hdr : List ℕ) → All IsByte hdr → from_be32 hdr < 2 ^ 32
from_be32-lt [] h = omega arith
from_be32-lt (a ∷ []) h = omega arith
from_be32-lt (a ∷ b ∷ []) h = omega arith
from_be32-lt (a ∷ b ∷ c ∷ []) h = omega arith
from_be32-lt (a ∷ b ∷ c ∷ d ∷ xs) h = omega arith

-- On any stream of bytes, what the uint32 codec takes for a payload is exactly its frame, and the
-- payload is not longer than max.
pub read_uint32_sound :
    (max : ℤ) (r r' : Reader) (p : List ℕ)
    → All IsByte r.bytes
    → read_uint32_frame r max ≡ (ok p, r')
    → (r.bytes ≡ (append_uint32 [] p).0 ++ r'.bytes) × (length p ≤ to_u64 max)
unfolding read_uint32_frame
read_uint32_sound max r r' p bytes h = (whole, omega (arith, payload.1, payload.2))
  where
    header :
        (n : ℕ) × (x : Reader) × (header_number (read_full r 4) ≡ (ok n, x))
        × (read_payload x n max ≡ (ok p, r'))
    header = read_header-ok (header_number (read_full r 4)) max p r' h

    number : (hdr : List ℕ) × (read_full r 4 ≡ (ok hdr, header.1)) × (from_be32 hdr ≡ header.0)
    number = header_number-ok (read_full r 4) header.0 header.1 header.2

    front : (r.bytes ≡ number.0 ++ header.1.bytes) × (length number.0 ≡ 4)
    front = read_full-ok r header.1 4 number.0 number.1

    payload : (header.1.bytes ≡ p ++ r'.bytes) × (length p ≡ header.0) × (header.0 ≤ to_u64 max)
    payload = read_payload-ok header.1 r' header.0 max p header.3

    is_bytes : All IsByte number.0
    is_bytes = All-append_left IsByte number.0 header.1.bytes (subst (All IsByte) front.0 bytes)

    code : be32 (length p) ≡ number.0
    code = ap be32 (payload.1 ∙ sym number.2) ∙ be32-from_be32 number.0 is_bytes front.1

    small : length p < 2 ^ 32
    small = omega (arith, payload.1, number.2, from_be32-lt number.0 is_bytes)

    whole : r.bytes ≡ (append_uint32 [] p).0 ++ r'.bytes
    whole =
        front.0
        ∙ ap (◌++◌ number.0) payload.0
        ∙ ap (λ l. l ++ (p ++ r'.bytes)) (sym code)
        ∙ sym (append_assoc (be32 (length p)) p r'.bytes)
        ∙ ap (λ a. a.0 ++ r'.bytes) (sym (append_uint32-frame [] p small))

uvarint_loop-ok :
    (left i x n : ℕ) (bs rest : List ℕ) (e : Error)
    → uvarint_loop left i x bs e ≡ (ok n, rest)
    → (hdr : List ℕ) × (bs ≡ hdr ++ rest) × (length hdr ≤ left)
unfolding uvarint_loop
uvarint_loop-ok zero i x n bs rest e h = cc
uvarint_loop-ok (suc left) i x n [] rest e h = cc
uvarint_loop-ok (suc left) i x n (b ∷ bs) rest e h = elim (Bool-cases (ltb b 128)) [
  | inl last ↦ (b ∷ [], ground arith, omega arith)
  | inr more ↦
      let (hdr, split, len) =
        uvarint_loop-ok left (i + 1) ((x + b % 128 * 2 ^ (7 * i)) % 2 ^ 64) n bs rest e
          (rw (more, uvarint_loop) at h) in
      (b ∷ hdr, ap (◌∷◌ b) split, omega (arith, len))
]

read_uvarint-ok :
    (r x : Reader) (n : ℕ)
    → read_uvarint r ≡ (ok n, x)
    → (hdr : List ℕ) × (r.bytes ≡ hdr ++ x.bytes) × (length hdr ≤ 10)
unfolding read_uvarint
read_uvarint-ok r x n h = uvarint_loop-ok 10 0 0 n r.bytes x.bytes r.fail (ground arith)

-- On any stream, what the uvarint codec takes for a payload follows a header of at most ten bytes
-- that holds its length, and is not longer than max.
pub read_uvarint_sound :
    (max : ℤ) (r r' : Reader) (p : List ℕ)
    → read_uvarint_frame r max ≡ (ok p, r')
    → ((read_uvarint r).0 ≡ ok (length p))
      × (length p ≤ to_u64 max)
      × ((hdr : List ℕ) × (r.bytes ≡ hdr ++ (p ++ r'.bytes)) × (length hdr ≤ 10))
unfolding read_uvarint_frame
read_uvarint_sound max r r' p h =
    let (n, x, e, f) = read_header-ok (read_uvarint r) max p r' h in
    let (split, len, fits) = read_payload-ok x r' n max p f in
    let (hdr, front, short) = read_uvarint-ok r x n e in
    (
      ap (λ m. m.0) e ∙ ap ok (sym len),
      omega (arith, len, fits),
      (hdr, front ∙ ap (◌++◌ hdr) split, short),
    )
