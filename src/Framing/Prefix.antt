-- ===== src/Framing/Prefix.antt =====
-- framing.go: the length-prefixed codecs, uvarint length | payload and uint32 length | payload.
pub mod Uvarint
pub mod Payload
pub mod Sound
pub mod Truncated
use gopher_socks.Common.{
  ℕ, zero, suc, ◌+◌, ◌/◌, ◌%◌, List, [], ◌∷◌, ◌++◌, Option, none, some, Bool, true, false, length,
  ltb, if◌then◌else◌,
}
use gopher_socks.Common.Int.{ℤ, pos, to_u64}
use gopher_socks.Errors.{
  Error, sentinel, errorf, errors_is, eof, unexpected_eof, frame_too_large, Result, ok, err,
}
use gopher_socks.Framing.Reader.{Reader, Read, read_full, read_uvarint}
use gopher_socks.Framing.Bytes.{be32, from_be32}
use gopher_socks.Framing.Codec.{Codec, max_int32, max_uint32}

-- `unexpectedEOF`.
unfoldable pub eof_error : Error → Bool → Error
eof_error e true = if errors_is e eof then sentinel unexpected_eof else e
eof_error e false = e

-- An error of a read, passed through `unexpectedEOF`.
abbrev pub mid_frame : Bool → Read → Read
mid_frame mid (ok p, r) = (ok p, r)
mid_frame mid (err e, r) = (err (eof_error e mid), r)

-- `readPayload`, with `n` a uint64.
unfoldable pub read_payload : Reader → ℕ → ℤ → Read
unfolding eof_error
read_payload r n max =
    if ltb (to_u64 max) n
    then (err (errorf "%w: %d > %d" (pos n ∷ max ∷ []) (sentinel frame_too_large)), r)
    else mid_frame true (read_full r n)

-- binary.AppendUvarint of a number below 128 ^ (k + 1); a uint64 has k = 9.
unfoldable pub uvarint : ℕ → ℕ → List ℕ
uvarint zero v = v ∷ []
uvarint (suc k) v =
    let rest = uvarint k (v / 128) in if ltb v 128 then v ∷ [] else (v % 128 + 128) ∷ rest

-- `uvarintCodec`.
unfoldable pub append_uvarint : List ℕ → List ℕ → List ℕ × Option Error
append_uvarint dst payload = ((dst ++ uvarint 9 (length payload)) ++ payload, none)

unfoldable pub read_header : Result ℕ × Reader → ℤ → Read
unfolding eof_error
read_header (ok n, r) max = read_payload r n max
read_header (err e, r) max = (err (eof_error e false), r)

unfoldable pub read_uvarint_frame : Reader → ℤ → Read
unfolding read_header
read_uvarint_frame r max = read_header (read_uvarint r) max

abbrev pub uvarint_codec : Codec
uvarint_codec = record {
  append = append_uvarint;
  read = λ r max. some (read_uvarint_frame r max);
  max_payload = max_int32;
}

-- `uint32Codec`.
unfoldable pub append_uint32 : List ℕ → List ℕ → List ℕ × Option Error
append_uint32 dst payload =
    if ltb max_uint32 (length payload)
    then (dst, some (sentinel frame_too_large))
    else ((dst ++ be32 (length payload)) ++ payload, none)

abbrev pub header_number : Read → Result ℕ × Reader
header_number (ok hdr, r) = (ok (from_be32 hdr), r)
header_number (err e, r) = (err e, r)

unfoldable pub read_uint32_frame : Reader → ℤ → Read
unfolding read_header
read_uint32_frame r max = read_header (header_number (read_full r 4)) max

abbrev pub uint32_codec : Codec
uint32_codec = record {
  append = append_uint32;
  read = λ r max. some (read_uint32_frame r max);
  max_payload = max_int32;
}
