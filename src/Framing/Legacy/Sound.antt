-- ===== src/Framing/Legacy/Sound.antt =====
-- framing.go: what the Legacy decoder delivers on any stream, how long it can be, and that both loops end.
use gopher_socks.Common.{
  ℕ, zero, suc, ◌+◌, ◌≤◌, ◌<◌, ◌≡◌, sym, ap, ◌≢◌, ◌∙◌, List, [], ◌∷◌, ◌++◌, some, length, arith,
  All, All-append_right, append_assoc, subst,
}
use gopher_socks.Common.Int.{ℤ, pos, min_ℤ, pos_part}
use gopher_socks.Errors.{Error, Result, ok, err}
use gopher_socks.Framing.Reader.{Reader}
use gopher_socks.Framing.Codec.{max_uint16}
use gopher_socks.Framing.Bytes.{IsByte}
use gopher_socks.Framing.Legacy.{Legacy, frame_max, read_one, read_loop, read}
use gopher_socks.Framing.Legacy.ReadOne.{read_one-total, read_one_sound, read_one_shrinks}
use gopher_socks.Framing.Legacy.Frames.{frame}

abbrev pub empties : Legacy → ℕ → List ℕ
empties c zero = []
empties c (suc k) = frame c [] ++ empties c k

-- `r` begins with `k` empty frames and the frame of `p`, and `left` follows.
pub record Delivers (c : Legacy) (limit : ℤ) (r : Reader) (p left : List ℕ) : Type 0 where
  pub k : ℕ
  pub stream : r.bytes ≡ empties c k ++ (frame c p ++ left)
  pub bounded : length p + 2 + length c.delim ≤ pos_part (frame_max c limit) + r.size
  pub counted : length p ≤ max_uint16
  pub full : p ≢ []

module _ (c : Legacy) (limit : ℤ) where
  -- The three ways in which a round of `Read` goes on.
  loop-empty :
      (fuel : ℕ) (r r' : Reader)
      → read_one (suc (length r.bytes)) c r limit [] ≡ some (ok [], r')
      → read_loop (suc fuel) c r limit ≡ read_loop fuel c r' limit
  loop-empty fuel r r' e = unfold read_loop in rw (e, read_loop)

  loop-payload :
      (fuel b : ℕ) (p : List ℕ) (r r' : Reader)
      → read_one (suc (length r.bytes)) c r limit [] ≡ some (ok (b ∷ p), r')
      → read_loop (suc fuel) c r limit ≡ some (ok (b ∷ p), r')
  loop-payload fuel b p r r' e = unfold read_loop in rw (e, read_loop)

  loop-err :
      (fuel : ℕ) (x : Error) (r r' : Reader)
      → read_one (suc (length r.bytes)) c r limit [] ≡ some (err x, r')
      → read_loop (suc fuel) c r limit ≡ some (err x, r')
  loop-err fuel x r r' e = unfold read_loop in rw (e, read_loop)

  pub read_loop-total :
      (fuel : ℕ) (r : Reader)
      → 1 ≤ r.size
      → length r.bytes < fuel
      → (res : Result (List ℕ)) × (r' : Reader) × (read_loop fuel c r limit ≡ some (res, r'))
  read_loop-total zero r roomy h = absurd (omega arith)
  read_loop-total (suc fuel) r roomy h =
      let (res, r', e, same) =
        read_one-total c limit (suc (length r.bytes)) r [] roomy (omega arith) in
      go res r' e same (λ q. read_loop-total fuel r' (omega (arith, same)) q)
    where
      go :
          (res : Result (List ℕ)) (r' : Reader)
          → read_one (suc (length r.bytes)) c r limit [] ≡ some (res, r')
          → r'.size ≡ r.size
          → (length r'.bytes < fuel
              → (res : Result (List ℕ)) × (r'' : Reader) × (read_loop fuel c r' limit
                  ≡ some (res, r'')))
          → (res : Result (List ℕ)) × (r' : Reader) × (read_loop (suc fuel) c r limit
              ≡ some (res, r'))
      go (ok []) r' e same rec =
          let (res, r'', f) = rec (omega (arith, read_one_shrinks c limit r r' [] e)) in
          (res, r'', loop-empty fuel r r' e ∙ f)
      go (ok (b ∷ p)) r' e same rec = (ok (b ∷ p), r', loop-payload fuel b p r r' e)
      go (err x) r' e same rec = (err x, r', loop-err fuel x r r' e)

  Delivers-empty :
      (r r' : Reader) (p left : List ℕ)
      → r'.size ≡ r.size
      → r.bytes ≡ frame c [] ++ r'.bytes
      → Delivers c limit r' p left
      → Delivers c limit r p left
  Delivers-empty r r' p left same first later = record {
    k = suc later.k;
    stream =
        first
        ∙ ap (◌++◌ (frame c [])) later.stream
        ∙ sym (append_assoc (frame c []) (empties c later.k) (frame c p ++ left));
    bounded = omega (arith, later.bounded, same);
    counted = later.counted;
    full = later.full;
  }

  read_loop-Delivers :
      (fuel : ℕ) (r r' : Reader) (p : List ℕ)
      → 1 ≤ r.size
      → All IsByte r.bytes
      → read_loop fuel c r limit ≡ some (ok p, r')
      → Delivers c limit r p r'.bytes
  read_loop-Delivers zero r r' p roomy bytes h = unfold read_loop in cc
  read_loop-Delivers (suc fuel) r r' p roomy bytes h =
      let (res, x, e, same) =
        read_one-total c limit (suc (length r.bytes)) r [] roomy (omega arith) in
      go res x e same (λ h' all. read_loop-Delivers fuel x r' p (omega (arith, same)) all h')
    where
      go :
          (res : Result (List ℕ)) (x : Reader)
          → read_one (suc (length r.bytes)) c r limit [] ≡ some (res, x)
          → x.size ≡ r.size
          → (read_loop fuel c x limit ≡ some (ok p, r')
              → All IsByte x.bytes
              → Delivers c limit x p r'.bytes)
          → Delivers c limit r p r'.bytes
      go (ok []) x e same rec =
          let first : r.bytes ≡ frame c [] ++ x.bytes = (read_one_sound c limit r x [] bytes e).0 in
          Delivers-empty r x p r'.bytes same first (
            rec (sym (loop-empty fuel r x e) ∙ h)
              (All-append_right IsByte (frame c []) x.bytes (subst (All IsByte) first bytes)))
      go (ok (b ∷ q)) x e same rec =
          let one : read_one (suc (length r.bytes)) c r limit [] ≡ some (ok p, r') =
            e ∙ (sym (loop-payload fuel b q r x e) ∙ h) in
          let (first, bounded, counted) = read_one_sound c limit r r' p bytes one in
          record {
            k = 0;
            stream = first;
            bounded = bounded;
            counted = counted;
            full = λ z. cc (loop-payload fuel b q r x e);
          }
      go (err y) x e same rec = cc (loop-err fuel y r x e)

-- On every stream of bytes, a payload that `read` returns is not empty, and what it has taken from
-- the stream is exactly some empty frames and then the frame of the payload. The payload is at
-- most 65535 bytes long, and not longer than the limit by more than the reader's buffer.
pub read-Delivers :
    (c : Legacy) (max : ℤ) (r r' : Reader) (p : List ℕ)
    → 1 ≤ r.size
    → All IsByte r.bytes
    → read c r max ≡ some (ok p, r')
    → Delivers c (min_ℤ max (pos max_uint16)) r p r'.bytes
unfolding read
read-Delivers c max r r' p roomy bytes h =
    read_loop-Delivers c (min_ℤ max (pos max_uint16)) (suc (length r.bytes)) r r' p roomy bytes h

-- With a buffer of at least one byte `read` returns a payload or an error on every stream: its fuel never
-- runs out.
pub read-total :
    (c : Legacy) (max : ℤ) (r : Reader)
    → 1 ≤ r.size
    → (res : Result (List ℕ)) × (r' : Reader) × (read c r max ≡ some (res, r'))
unfolding read
read-total c max r roomy =
    read_loop-total c (min_ℤ max (pos max_uint16)) (suc (length r.bytes)) r roomy (omega arith)
