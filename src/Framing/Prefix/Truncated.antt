-- ===== src/Framing/Prefix/Truncated.antt =====
-- framing.go: a uint32 frame that the stream's end cuts short, by `unexpectedEOF`.
use gopher_socks.Common.{
  ℕ, ◌^◌, ◌≤◌, ◌<◌, ◌≡◌, refl, ap, ◌∙◌, sym, List, [], ◌∷◌, ◌++◌, length, arith, false, true, ◌≢◌,
  append-split, length-append, leb, ltb,
}
use gopher_socks.Common.Int.{ℤ, to_u64}
use gopher_socks.Errors.{Error, Sentinel, sentinel, eof, unexpected_eof, ok, err}
use gopher_socks.Framing.Reader.{Reader, Read, read_full}
use gopher_socks.Framing.Bytes.{be32, from_be32-be32}
use gopher_socks.Framing.Prefix.{
  mid_frame, read_payload, eof_error, read_header, append_uint32, header_number, read_uint32_frame,
}
use gopher_socks.Framing.Prefix.Payload.{read_full-append, append_uint32-frame}
use native.Mathlib.Decide.{dec_lt}

-- The end of the stream before a frame is a clean one, and inside a frame it is not.
abbrev pub cut_short : List ℕ → Sentinel
cut_short [] = eof
cut_short (b ∷ q) = unexpected_eof

read_full-short :
    (r : Reader) (n : ℕ) (q : List ℕ)
    → r.bytes ≡ q
    → length q < n
    → r.fail ≡ sentinel eof
    → (read_full r n).0 ≡ err (sentinel (cut_short q))
unfolding read_full
read_full-short r n [] hb h e =
    let no_room : leb n (length r.bytes) ≡ false = ground arith in rw (no_room, hb, e)
read_full-short r n (b ∷ q) hb h e =
    let no_room : leb n (length r.bytes) ≡ false = ground arith in rw (no_room, hb, e)

mid_frame-cut :
    (m : Read) (q : List ℕ)
    → m.0 ≡ err (sentinel (cut_short q))
    → (mid_frame true m).0 ≡ err (sentinel unexpected_eof)
unfolding eof_error
mid_frame-cut (ok p, r) q h = cc
mid_frame-cut (err e, r) [] h = let k : e ≡ sentinel eof = cc in rw k
mid_frame-cut (err e, r) (b ∷ q) h = let k : e ≡ sentinel unexpected_eof = cc in rw k

read_payload-short :
    (r : Reader) (n : ℕ) (max : ℤ) (q : List ℕ)
    → r.bytes ≡ q
    → length q < n
    → n ≤ to_u64 max
    → r.fail ≡ sentinel eof
    → (read_payload r n max).0 ≡ err (sentinel unexpected_eof)
unfolding read_payload
read_payload-short r n max q hb h fits e =
    let small : ltb (to_u64 max) n ≡ false = ground arith in
    rw small (mid_frame-cut (read_full r n) q (read_full-short r n q hb h e))

header-err :
    (m : Read) (max : ℤ) (e : Error) → m.0 ≡ err e → (read_header (header_number m) max).0 ≡ err e
unfolding read_header eof_error
header-err (ok p, r) max e h = cc
header-err (err x, r) max e h = h

-- If the stream ends (io.EOF) inside the uint32 frame of a payload below 2 ^ 32 bytes and within max,
-- reading fails with io.ErrUnexpectedEOF, and with io.EOF if it ends before the frame's first byte.
pub read_uint32-truncated :
    (max : ℤ) (p q s : List ℕ) (r : Reader)
    → length p < 2 ^ 32
    → length p ≤ to_u64 max
    → q ++ s ≡ (append_uint32 [] p).0
    → s ≢ []
    → r.bytes ≡ q
    → r.fail ≡ sentinel eof
    → (read_uint32_frame r max).0 ≡ err (sentinel (cut_short q))
unfolding read_uint32_frame
read_uint32-truncated max p q s r h fits split more hb e = elim (dec_lt (length q) 4) [
  | yes few ↦
      header-err (read_full r 4) max (sentinel (cut_short q)) (read_full-short r 4 q hb few e)
  | no enough ↦
      let (q', front, back) = append-split (be32 (length p)) p q s whole (omega arith) in
      rw (read_full-append r 4 (be32 (length p)) q' refl (hb ∙ front), from_be32-be32 (length p) h)
        (unfold read_header in
          read_payload-short (record r { bytes = q' }) (length p) max q' refl
            (omega (arith, ap length back, length-append q' s, nonempty s more)) fits e
          ∙ ap (λ l. err (sentinel (cut_short l))) (sym front))
]
  where
    whole : q ++ s ≡ be32 (length p) ++ p
    whole = split ∙ ap (λ a. a.0) (append_uint32-frame [] p h)

    nonempty : (l : List ℕ) → l ≢ [] → 1 ≤ length l
    nonempty [] n = absurd (n refl)
    nonempty (x ∷ l) n = omega arith
