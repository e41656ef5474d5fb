-- ===== src/Framing/Legacy/Limit.antt =====
-- framing.go: the length limit of the Legacy decoder. The check on the buffer comes after the search
-- for the frame's end, and a whole chunk is added between two checks.
use gopher_socks.Common.{
  ℕ, zero, suc, ◌+◌, ◌≤◌, ◌<◌, ◌≡◌, refl, sym, ap, ◌≢◌, ◌∙◌, List, [], ◌∷◌, ◌++◌, some, false,
  length, arith, ◌==◌, ==_iff, All, append_assoc,
}
use gopher_socks.Common.Int.{ℤ, pos, min_ℤ}
use gopher_socks.Errors.{ok}
use gopher_socks.Framing.Reader.{Reader, Scan, hit, scan}
use gopher_socks.Framing.Codec.{max_uint16}
use gopher_socks.Framing.Legacy.{Legacy, append, last_byte, read_loop, read}
use gopher_socks.Framing.Legacy.Frames.{append-frame}
use gopher_socks.Framing.Legacy.Rounds.{round_of, read_one-stops}
use gopher_socks.Framing.Legacy.RoundTrip.{Unambiguous, read_one-append, round-frame}

-- A payload that is one byte longer than max is returned all the same: for an unambiguous payload of
-- max + 1 bytes, at most 65535, at the front of the stream, `read` gives no error, whatever the delimiter
-- (if it is not empty).
pub read_over_max :
    (c : Legacy) (max : ℕ) (b : ℕ) (p rest : List ℕ) (r : Reader)
    → c.delim ≢ []
    → Unambiguous c (b ∷ p)
    → length (b ∷ p) ≤ max_uint16
    → length (b ∷ p) ≡ max + 1
    → 1 ≤ r.size
    → r.bytes ≡ (append c [] (b ∷ p)).0 ++ rest
    → read c r (pos max) ≡ some (ok (b ∷ p), record r { bytes = rest })
read_over_max c max b p rest r ne clear h over roomy hb =
    unfold read read_loop in
    rw (
      read_one-append c (min_ℤ (pos max) (pos max_uint16)) (b ∷ p) rest r ne clear h (ground arith)
          roomy (hb ∙ ap (λ a. a.0 ++ rest) (append-frame c [] (b ∷ p) h)),
      read_loop,
    )

scan-first :
    (room d : ℕ) (front more : List ℕ)
    → All (λ x. (x == d) ≡ false) front
    → length front < room
    → scan room d (front ++ d ∷ more) ≡ record { chunk = front ++ d ∷ []; rest = more; stop = hit }
unfolding scan
scan-first zero d front more no_d h = absurd (omega arith)
scan-first (suc room) d [] more no_d h = rw ((==_iff d d).1 refl, scan)
scan-first (suc room) d (b ∷ front) more no_d h =
    rw (no_d.0, scan)
      (ap (λ (s : Scan). record s { chunk = b ∷ s.chunk })
        (scan-first room d front more no_d.1 (omega arith)))

-- max does not bound a frame that one ReadSlice takes: where the delimiter's last byte stands only at
-- the frame's end and the frame fits in the reader's buffer, `read` returns the payload, if that is at most
-- 65535 bytes and not empty, under every max.
pub read_any_max :
    (c : Legacy) (max : ℤ) (b : ℕ) (p front rest : List ℕ) (r : Reader)
    → length (b ∷ p) ≤ max_uint16
    → (append c [] (b ∷ p)).0 ≡ front ++ last_byte c.delim ∷ []
    → All (λ x. (x == last_byte c.delim) ≡ false) front
    → length front < r.size
    → r.bytes ≡ (append c [] (b ∷ p)).0 ++ rest
    → read c r max ≡ some (ok (b ∷ p), record r { bytes = rest })
read_any_max c max b p front rest r h last alone roomy hb =
    unfold read read_loop in
    rw (read_one-stops c limit (length r.bytes) r [] (ok (b ∷ p)) whole, read_loop)
      (ap (λ s. some (ok (b ∷ p), record r { bytes = s.rest })) scanned)
  where
    limit : ℤ
    limit = min_ℤ max (pos max_uint16)

    scanned :
        scan r.size (last_byte c.delim) r.bytes
        ≡ record { chunk = front ++ last_byte c.delim ∷ []; rest = rest; stop = hit }
    scanned =
        ap (scan r.size (last_byte c.delim))
          (hb ∙ ap (λ l. l ++ rest) last ∙ append_assoc front (last_byte c.delim ∷ []) rest)
        ∙ scan-first r.size (last_byte c.delim) front rest alone roomy

    whole : round_of c limit r [] ≡ some (ok (b ∷ p))
    whole =
        rw (scanned, sym last, append-frame c [] (b ∷ p) h)
          (round-frame c limit r.fail hit (b ∷ p) h)
