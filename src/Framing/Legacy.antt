-- ===== src/Framing/Legacy.antt =====
-- framing.go: the Legacy codec, payload | uint16 length | delimiter.
pub mod Frames
pub mod Rounds
pub mod RoundTrip
pub mod ReadOne
pub mod Sound
pub mod Limit
pub mod Clear
use gopher_socks.Common.{
  ℕ, zero, suc, ◌+◌, ◌-◌, ◌≤◌, ◌<◌, ◌≡◌, refl, List, [], ◌∷◌, ◌++◌, Option, none, some, Bool, true,
  false, ◌&&◌, length, take, drop, get_or, ltb, leb, ◌==◌, if◌then◌else◌,
}
use gopher_socks.Common.Int.{ℤ, pos, ◌+ℤ◌, ltb_ℤ, min_ℤ}
use gopher_socks.Errors.{
  Error, sentinel, errorf, errors_is, eof, unexpected_eof, frame_too_large, corrupt_frame,
  empty_delimiter, Result, ok, err,
}
use gopher_socks.Framing.Reader.{Reader, Read, Scan, Stop, scan}
use gopher_socks.Framing.Bytes.{be16, from_be16, bytes_equal}
use gopher_socks.Framing.Codec.{Codec, max_uint16}

abbrev pub default_delimiter : List ℕ
default_delimiter = 10 ∷ 10 ∷ 10 ∷ []

pub record Legacy : Type 0 where
  pub delim : List ℕ

-- `Append`.
unfoldable pub append : Legacy → List ℕ → List ℕ → List ℕ × Option Error
append c dst payload =
    if ltb max_uint16 (length payload)
    then (
      dst,
      some (
          errorf "%w: %d > %d" (pos (length payload) ∷ pos max_uint16 ∷ [])
            (sentinel frame_too_large)),
    )
    else (((dst ++ payload) ++ be16 (length payload)) ++ c.delim, none)

-- `frameEnd`: the payload length, if buf ends with a frame's length and delimiter.
unfoldable pub frame_end : Legacy → List ℕ → Option ℕ
frame_end c buf =
    let d = length buf - length c.delim in
    let n = from_be16 (get_or buf (d - 2) 0) (get_or buf (d - 1) 0) in
    if ltb (length buf) (length c.delim + 2)
    then none
    else if bytes_equal (drop d buf) c.delim && (n == d - 2)
    then some n
    else none

-- The byte at which ReadSlice stops. `new_legacy` refuses an empty delimiter.
abbrev pub last_byte : List ℕ → ℕ
last_byte d = get_or d (length d - 1) 0

abbrev pub frame_max : Legacy → ℤ → ℤ
frame_max c limit = limit +ℤ pos 2 +ℤ pos (length c.delim)

-- What is left of a round of `readOne` once ReadSlice has returned and no frame has ended: `none` is
-- `continue`. The reader's own error is never ErrBufferFull.
abbrev pub stop_error : Stop → Error → List ℕ → Option (Result (List ℕ))
stop_error Stop.ended e [] = some (err e)
stop_error Stop.ended e (b ∷ buf) =
    some (err (if errors_is e eof then sentinel unexpected_eof else e))
stop_error Stop.hit e buf = none
stop_error Stop.full e buf = none

-- The body of `readOne`'s loop after ReadSlice, with `buf` as it then is.
unfoldable pub round : Legacy → ℤ → Error → Stop → List ℕ → Option (Result (List ℕ))
round c limit e stop buf = elim (frame_end c buf) [
  | some n ↦ some (ok (take n buf))
  | none ↦
      if ltb_ℤ (frame_max c limit) (pos (length buf))
      then some (
          err (
            errorf "%w: no valid frame within %d bytes" (frame_max c limit ∷ [])
              (sentinel corrupt_frame)))
      else stop_error stop e buf
]

-- `readOne`, on fuel; `buf` is what earlier rounds have read.
unfoldable pub read_one : ℕ → Legacy → Reader → ℤ → List ℕ → Option Read
read_one zero c r limit buf = none
read_one (suc fuel) c r limit buf =
    let s = scan r.size (last_byte c.delim) r.bytes in
    let r' = record r { bytes = s.rest } in
    let more = read_one fuel c r' limit (buf ++ s.chunk) in
    elim (round c limit r.fail s.stop (buf ++ s.chunk)) [ some res ↦ some (res, r') | none ↦ more ]

-- `Read`'s loop: empty frames are skipped.
unfoldable pub read_loop : ℕ → Legacy → Reader → ℤ → Option Read
read_loop zero c r limit = none
read_loop (suc fuel) c r limit = elim (read_one (suc (length r.bytes)) c r limit []) [
  | none ↦ none
  | some (ok [], r') ↦ read_loop fuel c r' limit
  | some (ok (b ∷ p), r') ↦ some (ok (b ∷ p), r')
  | some (err e, r') ↦ some (err e, r')
]

-- `Read`. Each round of either loop takes a byte from the stream, so this fuel is enough.
unfoldable pub read : Legacy → Reader → ℤ → Option Read
read c r max = read_loop (suc (length r.bytes)) c r (min_ℤ max (pos max_uint16))

abbrev pub codec : Legacy → Codec
codec c = record { append = append c; read = read c; max_payload = max_uint16 }

-- `NewLegacy`. The clone of the delimiter is a value here.
unfoldable pub new_legacy : List ℕ → Result Legacy
new_legacy [] = err (sentinel empty_delimiter)
new_legacy (b ∷ delimiter) = ok (record { delim = b ∷ delimiter })
