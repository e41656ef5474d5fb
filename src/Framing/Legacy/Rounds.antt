-- ===== src/Framing/Legacy/Rounds.antt =====
-- One round of `readOne`: it returns, or it goes on with the rest of the stream.
use gopher_socks.Common.{ℕ, suc, ◌≡◌, List, ◌++◌, Option, none, some}
use gopher_socks.Common.Int.{ℤ}
use gopher_socks.Errors.{Result}
use gopher_socks.Framing.Reader.{Reader, scan}
use gopher_socks.Framing.Legacy.{Legacy, last_byte, round, read_one}

module _ (c : Legacy) (limit : ℤ) where
  -- The reader after one ReadSlice, and the buffer after it.
  abbrev pub after : Reader → Reader
  after r = record r { bytes = (scan r.size (last_byte c.delim) r.bytes).rest }

  abbrev pub grown : Reader → List ℕ → List ℕ
  grown r buf = buf ++ (scan r.size (last_byte c.delim) r.bytes).chunk

  abbrev pub round_of : Reader → List ℕ → Option (Result (List ℕ))
  round_of r buf = round c limit r.fail (scan r.size (last_byte c.delim) r.bytes).stop (grown r buf)

  pub read_one-stops :
      (fuel : ℕ) (r : Reader) (buf : List ℕ) (res : Result (List ℕ))
      → round_of r buf ≡ some res
      → read_one (suc fuel) c r limit buf ≡ some (res, after r)
  read_one-stops fuel r buf res e = unfold read_one in rw (e, read_one)

  pub read_one-goes :
      (fuel : ℕ) (r : Reader) (buf : List ℕ)
      → round_of r buf ≡ none
      → read_one (suc fuel) c r limit buf ≡ read_one fuel c (after r) limit (grown r buf)
  read_one-goes fuel r buf e = unfold read_one in rw (e, read_one)
