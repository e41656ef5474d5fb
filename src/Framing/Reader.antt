-- ===== src/Framing/Reader.antt =====
-- bufio.Reader over a byte stream, and the reads of io and encoding/binary that framing.go calls.
use gopher_socks.Common.{
  ℕ, zero, suc, ◌+◌, ◌*◌, ◌%◌, ◌^◌, List, [], ◌∷◌, ◌&&◌, length, take, drop, ltb, leb, ◌==◌,
  if◌then◌else◌,
}
use gopher_socks.Errors.{Error, sentinel, eof, unexpected_eof, varint_overflow, Result, ok, err}

-- What the peer will still send, in order, and the error that every read meets after it. `size` is
-- the capacity of the buffer. How the bytes are cut into packets is not seen by the reads below.
pub record Reader : Type 0 where
  pub bytes : List ℕ
  pub size : ℕ
  pub fail : Error

-- A read leaves the rest of the stream.
abbrev pub Read : Type 0
Read = Result (List ℕ) × Reader

-- How a ReadSlice ends: at the delimiter, with a full buffer, or with the stream.
pub data Stop : Type 0 where
  hit full ended : Stop

pub record Scan : Type 0 where
  pub chunk : List ℕ
  pub rest : List ℕ
  pub stop : Stop

-- `room` is how much the buffer still takes.
unfoldable pub scan : ℕ → ℕ → List ℕ → Scan
scan zero delim bs = record { chunk = []; rest = bs; stop = full }
scan (suc room) delim [] = record { chunk = []; rest = []; stop = ended }
scan (suc room) delim (b ∷ bs) =
    let more = scan room delim bs in
    if b == delim
    then record { chunk = b ∷ []; rest = bs; stop = hit }
    else record more { chunk = b ∷ more.chunk }

-- io.ReadFull into a slice of `n` bytes.
unfoldable pub read_full : Reader → ℕ → Read
read_full r n =
    if leb n (length r.bytes)
    then (ok (take n r.bytes), record r { bytes = drop n r.bytes })
    else (err (short r.bytes r.fail), record r { bytes = [] })
  where
    short : List ℕ → Error → Error
    short [] e = e
    short (b ∷ bs) (sentinel eof) = sentinel unexpected_eof
    short (b ∷ bs) e = e

-- binary.ReadUvarint: `i` bytes are read, `x` is their value, `7 * i` is the shift, and `left` is how
-- many more bytes a number may have.
unfoldable pub uvarint_loop : ℕ → ℕ → ℕ → List ℕ → Error → Result ℕ × List ℕ
uvarint_loop zero i x bs fail = (err (sentinel varint_overflow), bs)
uvarint_loop (suc left) i x [] fail = (err (cut i fail), [])
  where
    cut : ℕ → Error → Error
    cut zero e = e
    cut (suc i) (sentinel eof) = sentinel unexpected_eof
    cut (suc i) e = e
uvarint_loop (suc left) i x (b ∷ bs) fail =
    let more = uvarint_loop left (i + 1) ((x + b % 128 * 2 ^ (7 * i)) % 2 ^ 64) bs fail in
    if ltb b 128
    then if i == 9 && ltb 1 b
      then (err (sentinel varint_overflow), bs)
      else (ok ((x + b * 2 ^ (7 * i)) % 2 ^ 64), bs)
    else more

unfoldable pub read_uvarint : Reader → Result ℕ × Reader
unfolding uvarint_loop
read_uvarint r =
    let (n, rest) = uvarint_loop 10 0 0 r.bytes r.fail in (n, record r { bytes = rest })
