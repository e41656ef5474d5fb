-- ===== src/Framing/Prefix/Payload.antt =====
-- framing.go: what the length-prefixed codecs read, on every stream.
use gopher_socks.Common.{
  ℕ, ◌^◌, ◌-◌, ◌≤◌, ◌<◌, ◌≡◌, refl, ap, ◌∙◌, sym, List, [], ◌++◌, length, take, drop, arith, Bool,
  false, true, none, append_assoc, length-append, take-append_left, drop-append_left,
  take-append-drop, length-take, leb, ltb, inl, inr, Bool-cases,
}
use gopher_socks.Common.Int.{ℤ, to_u64}
use gopher_socks.Errors.{ok, err}
use gopher_socks.Framing.Reader.{Reader, Read, read_full}
use gopher_socks.Framing.Bytes.{be32, from_be32-be32}
use gopher_socks.Framing.Prefix.{
  mid_frame, read_payload, uvarint, append_uvarint, read_header, read_uvarint_frame, append_uint32,
  read_uint32_frame,
}
use gopher_socks.Framing.Prefix.Uvarint.{read_uvarint-uvarint}

pub read_full-append :
    (r : Reader) (n : ℕ) (p rest : List ℕ)
    → n ≡ length p
    → r.bytes ≡ p ++ rest
    → read_full r n ≡ (ok p, record r { bytes = rest })
unfolding read_full
read_full-append r n p rest e hb =
    rw (hb, enough, take-append_left n p rest e, drop-append_left n p rest e)
  where
    enough : leb n (length (p ++ rest)) ≡ true
    enough = ground (arith, length-append p rest)

-- ReadFull returns exactly the next `n` bytes.
pub read_full-ok :
    (r r' : Reader) (n : ℕ) (p : List ℕ)
    → read_full r n ≡ (ok p, r')
    → (r.bytes ≡ p ++ r'.bytes) × (length p ≡ n)
unfolding read_full
read_full-ok r r' n p h = elim (Bool-cases (leb n (length r.bytes))) [
  | inl e ↦
      let q : (take n r.bytes ≡ p) × (drop n r.bytes ≡ r'.bytes) = ground arith in
      (
        sym (take-append-drop n r.bytes) ∙ ap (λ l. l ++ drop n r.bytes) q.0 ∙ ap (◌++◌ p) q.1,
        omega (arith, ap length q.0, length-take n r.bytes, enough e),
      )
  | inr e ↦ ground arith
]
  where
    enough : leb n (length r.bytes) ≡ true → n ≤ length r.bytes
    enough e = ground arith

read_payload-append :
    (r : Reader) (max : ℤ) (p rest : List ℕ)
    → length p ≤ to_u64 max
    → r.bytes ≡ p ++ rest
    → read_payload r (length p) max ≡ (ok p, record r { bytes = rest })
unfolding read_payload
read_payload-append r max p rest h hb =
    let small : ltb (to_u64 max) (length p) ≡ false = ground arith in
    rw small (rw (read_full-append r (length p) p rest refl hb))

mid_frame-ok :
    (mid : Bool) (m : Read) (p : List ℕ) (r' : Reader)
    → mid_frame mid m ≡ (ok p, r')
    → m ≡ (ok p, r')
mid_frame-ok mid (ok q, r) p r' h = h
mid_frame-ok mid (err e, r) p r' h = cc

-- What a payload of either codec is: as long as the number in the header, which is within max.
pub read_payload-ok :
    (r r' : Reader) (n : ℕ) (max : ℤ) (p : List ℕ)
    → read_payload r n max ≡ (ok p, r')
    → (r.bytes ≡ p ++ r'.bytes) × (length p ≡ n) × (n ≤ to_u64 max)
unfolding read_payload
read_payload-ok r r' n max p h = elim (Bool-cases (ltb (to_u64 max) n)) [
  | inl e ↦ cc (rw e at h)
  | inr e ↦
      let (split, len) =
        read_full-ok r r' n p (mid_frame-ok true (read_full r n) p r' (rw e at h)) in
      (split, len, fits e)
]
  where
    fits : ltb (to_u64 max) n ≡ false → n ≤ to_u64 max
    fits e = ground arith

-- From a stream that begins with what `append_uvarint` wrote for a payload shorter than 2 ^ 64 bytes and not
-- longer than max, the payload comes back and what follows is left.
pub read-append_uvarint :
    (max : ℤ) (p rest : List ℕ) (r : Reader)
    → length p < 2 ^ 64
    → length p ≤ to_u64 max
    → r.bytes ≡ (append_uvarint [] p).0 ++ rest
    → read_uvarint_frame r max ≡ (ok p, record r { bytes = rest })
unfolding read_uvarint_frame append_uvarint
read-append_uvarint max p rest r h fits hb =
    rw
      (read_uvarint-uvarint r (length p) (p ++ rest) h
        (hb ∙ append_assoc (uvarint 9 (length p)) p rest))
      (unfold read_header in
        read_payload-append (record r { bytes = p ++ rest }) max p rest fits refl)

-- `append_uint32` keeps `dst` and adds the frame.
pub append_uint32-frame :
    (dst p : List ℕ)
    → length p < 2 ^ 32
    → append_uint32 dst p ≡ (dst ++ (be32 (length p) ++ p), none)
unfolding append_uint32
append_uint32-frame dst p h =
    let small : ltb (2 ^ 32 - 1) (length p) ≡ false = ground arith in
    rw small (ap (λ l. (l, none)) (append_assoc dst (be32 (length p)) p))

pub append_uvarint-frame :
    (dst p : List ℕ) → append_uvarint dst p ≡ (dst ++ (uvarint 9 (length p) ++ p), none)
unfolding append_uvarint
append_uvarint-frame dst p = ap (λ l. (l, none)) (append_assoc dst (uvarint 9 (length p)) p)

-- From a stream that begins with what `append_uint32` wrote for a payload shorter than 2 ^ 32 bytes and not
-- longer than max, the payload comes back and what follows is left.
pub read-append_uint32 :
    (max : ℤ) (p rest : List ℕ) (r : Reader)
    → length p < 2 ^ 32
    → length p ≤ to_u64 max
    → r.bytes ≡ (append_uint32 [] p).0 ++ rest
    → read_uint32_frame r max ≡ (ok p, record r { bytes = rest })
unfolding read_uint32_frame
read-append_uint32 max p rest r h fits hb =
    rw (read_full-append r 4 (be32 (length p)) (p ++ rest) refl stream) (
      unfold read_header in
      rw (from_be32-be32 (length p) h)
        (read_payload-append (record r { bytes = p ++ rest }) max p rest fits refl))
  where
    stream : r.bytes ≡ be32 (length p) ++ (p ++ rest)
    stream =
        hb
        ∙ ap (λ a. a.0 ++ rest) (append_uint32-frame [] p h)
        ∙ append_assoc (be32 (length p)) p rest
