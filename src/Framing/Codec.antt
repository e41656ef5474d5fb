-- ===== src/Framing/Codec.antt =====
-- framing.go: the Codec interface and the bounds of math.
use gopher_socks.Common.{ℕ, List, Option, ◌-◌, ◌^◌}
use gopher_socks.Common.Int.{ℤ}
use gopher_socks.Errors.{Error}
use gopher_socks.Framing.Reader.{Reader, Read}

abbrev pub max_uint16 : ℕ
max_uint16 = 65535

abbrev pub max_int32 : ℕ
max_int32 = 2 ^ 31 - 1

abbrev pub max_uint32 : ℕ
max_uint32 = 2 ^ 32 - 1

-- Append returns dst and an error where it fails. `none` as the result of `read` means that the loop
-- of the codec does not end; the codecs below never give it.
pub record Codec : Type 0 where
  pub append : List ℕ → List ℕ → List ℕ × Option Error
  pub read : Reader → ℤ → Option Read
  pub max_payload : ℕ
