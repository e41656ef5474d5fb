-- ===== src/Framing/Legacy/ReadOne.antt =====
-- framing.go: `readOne` on any stream: what it takes, and that its loop ends.
use gopher_socks.Common.{
  ℕ, zero, suc, ◌+◌, ◌≤◌, ◌<◌, ◌≡◌, refl, sym, ap, ◌≢◌, ◌∙◌, List, [], ◌∷◌, ◌++◌, Option, none,
  some, length, take, arith, All, All-append_left, length-append, append_assoc, inl, inr, subst,
  Option-cases,
}
use gopher_socks.Common.Int.{ℤ, pos_part}
use gopher_socks.Errors.{Error, Result, ok}
use gopher_socks.Framing.Reader.{Reader, Read, Stop, ended, Scan, scan}
use gopher_socks.Framing.Scan.{scan-Scans, scan_progress}
use gopher_socks.Framing.Codec.{max_uint16}
use gopher_socks.Framing.Bytes.{IsByte}
use gopher_socks.Framing.Legacy.{Legacy, frame_end, last_byte, frame_max, round, read_one}
use gopher_socks.Framing.Legacy.Rounds.{after, grown, round_of, read_one-stops, read_one-goes}
use gopher_socks.Framing.Legacy.Frames.{frame, frame_end_sound, frame_end-Found}

some-pair {ℓ κ} :
    {A : Type ℓ} {B : Type κ} {a a' : A} {b b' : B}
    → ◌≡◌ {A = Option (A × B)} (some (a, b)) (some (a', b'))
    → (a ≡ a') × (b ≡ b')
some-pair e = (cc, cc)

round-ok :
    (c : Legacy) (limit : ℤ) (e : Error) (s : Stop) (buf p : List ℕ)
    → round c limit e s buf ≡ some (ok p)
    → (n : ℕ) × (frame_end c buf ≡ some n) × (p ≡ take n buf)
unfolding round
round-ok c limit e Stop.hit buf p h = ground arith
round-ok c limit e Stop.full buf p h = ground arith
round-ok c limit e Stop.ended [] p h = ground arith
round-ok c limit e Stop.ended (b ∷ buf) p h = ground arith

round-none :
    (c : Legacy) (limit : ℤ) (e : Error) (s : Stop) (buf : List ℕ)
    → round c limit e s buf ≡ none
    → (s ≢ ended) × (length buf ≤ pos_part (frame_max c limit))
unfolding round
round-none c limit e Stop.hit buf h = ground arith
round-none c limit e Stop.full buf h = ground arith
round-none c limit e Stop.ended [] h = ground arith
round-none c limit e Stop.ended (b ∷ buf) h = ground arith

-- What `readOne` has taken when it returns a payload.
record Taken (c : Legacy) (limit : ℤ) (size : ℕ) (total p left : List ℕ) : Type 0 where
  whole : List ℕ
  n : ℕ
  split : whole ++ left ≡ total
  ends : frame_end c whole ≡ some n
  payload : p ≡ take n whole
  bounded : length whole ≤ pos_part (frame_max c limit) + size

module _ (c : Legacy) (limit : ℤ) where
  grown-append :
      (r : Reader) (buf : List ℕ) → grown c limit r buf ++ (after c limit r).bytes ≡ buf ++ r.bytes
  grown-append r buf =
      append_assoc buf _ _ ∙ ap (◌++◌ buf) (scan-Scans r.size (last_byte c.delim) r.bytes).split

  read_one-Taken :
      (fuel : ℕ) (r r' : Reader) (buf p : List ℕ)
      → length buf ≤ pos_part (frame_max c limit)
      → read_one fuel c r limit buf ≡ some (ok p, r')
      → Taken c limit r.size (buf ++ r.bytes) p r'.bytes
  read_one-Taken zero r r' buf p hb h = unfold read_one in cc
  read_one-Taken (suc fuel) r r' buf p hb h = elim (Option-cases (round_of c limit r buf)) [
    | inl go ↦
        let rec : Taken c limit r.size (grown c limit r buf ++ (after c limit r).bytes) p r'.bytes =
          read_one-Taken fuel (after c limit r) r' (grown c limit r buf) p
            (round-none c limit _ _ _ go).1 (sym (read_one-goes c limit fuel r buf go) ∙ h) in
        subst (λ t. Taken c limit r.size t p r'.bytes) (grown-append r buf) rec
    | inr (res, stop) ↦
        let e : ◌≡◌ {A = Option Read} (some (res, after c limit r)) (some (ok p, r')) =
          sym (read_one-stops c limit fuel r buf res stop) ∙ h in
        let found : (n : ℕ) × (frame_end c (grown c limit r buf) ≡ some n)
            × (p ≡ take n (grown c limit r buf)) =
          round-ok c limit _ _ _ p (stop ∙ ap some (some-pair e).0) in
        record {
          whole = grown c limit r buf;
          n = found.0;
          split =
              ap (λ x. grown c limit r buf ++ x.bytes) (sym (some-pair e).1) ∙ grown-append r buf;
          ends = found.1;
          payload = found.2;
          bounded = omega (
            arith,
            length-append buf (scan r.size (last_byte c.delim) r.bytes).chunk,
            (scan-Scans r.size (last_byte c.delim) r.bytes).fits,
          );
        }
  ]

  -- `readOne` ends: each round that goes on has taken a byte.
  pub read_one-total :
      (fuel : ℕ) (r : Reader) (buf : List ℕ)
      → 1 ≤ r.size
      → length r.bytes < fuel
      → (res : Result (List ℕ)) × (r' : Reader) × (read_one fuel c r limit buf ≡ some (res, r'))
        × (r'.size ≡ r.size)
  read_one-total zero r buf roomy h = absurd (omega arith)
  read_one-total (suc fuel) r buf roomy h = elim (Option-cases (round_of c limit r buf)) [
    | inr (res, stop) ↦ (res, after c limit r, read_one-stops c limit fuel r buf res stop, refl)
    | inl go ↦
        let s : Scan = scan r.size (last_byte c.delim) r.bytes in
        let (res, r', e, f) = read_one-total fuel (after c limit r) (grown c limit r buf) roomy (
          omega (
            arith,
            ap length (scan-Scans r.size (last_byte c.delim) r.bytes).split,
            length-append s.chunk s.rest,
            scan_progress r.size (last_byte c.delim) r.bytes roomy (round-none c limit _ _ _ go).0,
          )) in
        (res, r', read_one-goes c limit fuel r buf go ∙ e, f)
  ]

  -- `readOne` takes exactly the frame of the payload that it returns.
  pub read_one_sound :
      (r r' : Reader) (p : List ℕ)
      → All IsByte r.bytes
      → read_one (suc (length r.bytes)) c r limit [] ≡ some (ok p, r')
      → (r.bytes ≡ frame c p ++ r'.bytes)
        × (length p + 2 + length c.delim ≤ pos_part (frame_max c limit) + r.size)
        × (length p ≤ max_uint16)
  read_one_sound r r' p bytes h = (
    sym t.split ∙ ap (λ l. l ++ r'.bytes) (sound.0 ∙ ap (frame c) (sym t.payload)),
    omega (
      arith,
      ap length t.payload,
      sound.1,
      (frame_end-Found c t.whole t.n t.ends).len,
      t.bounded,
    ),
    omega (arith, ap length t.payload, sound.1, sound.2),
  )
    where
      t : Taken c limit r.size r.bytes p r'.bytes
      t = read_one-Taken (suc (length r.bytes)) r r' [] p (omega arith) h

      sound :
          (t.whole ≡ frame c (take t.n t.whole))
          × (length (take t.n t.whole) ≡ t.n)
          × (t.n ≤ max_uint16)
      sound =
          frame_end_sound c t.whole t.n
            (All-append_left IsByte t.whole r'.bytes (subst (All IsByte) (sym t.split) bytes))
            t.ends

  pub read_one_shrinks :
      (r r' : Reader) (p : List ℕ)
      → read_one (suc (length r.bytes)) c r limit [] ≡ some (ok p, r')
      → length r'.bytes < length r.bytes
  read_one_shrinks r r' p h =
      let t : Taken c limit r.size r.bytes p r'.bytes =
        read_one-Taken (suc (length r.bytes)) r r' [] p (omega arith) h in
      omega (
        arith,
        ap length t.split,
        length-append t.whole r'.bytes,
        (frame_end-Found c t.whole t.n t.ends).len,
      )
