-- ===== src/Errors.antt =====
-- Go's `error` values as the program makes and inspects them: the sentinels of framing/framing.go,
-- listener/errors.go, client/quic.go and of the packages they use, `fmt.Errorf`, NetworkError and
-- ValidationError.
pub mod Text
use Prim.Native.String.{String}
use gopher_socks.Common.{◌⊎◌, inl, inr, ◌≡◌, refl, ℕ, Bool, false, List, ◌==◌}
use gopher_socks.Common.Int.{ℤ}

-- Errors that are compared by identity. The first row are those of io, bufio, binary, net, context,
-- net/http and quic-go; `timeout` stands for a net.Error whose Timeout() is true.
pub data Sentinel : Type 0 where
  eof unexpected_eof buffer_full varint_overflow net_closed deadline_exceeded canceled : Sentinel
  http_closed quic_closed timeout : Sentinel
  frame_too_large corrupt_frame empty_delimiter : Sentinel
  slow_consumer session_closed server_full server_stopped message_too_large : Sentinel
  not_connected : Sentinel

abbrev pub tag : Sentinel → ℕ
tag eof = 0
tag unexpected_eof = 1
tag buffer_full = 2
tag varint_overflow = 3
tag net_closed = 4
tag deadline_exceeded = 5
tag canceled = 6
tag http_closed = 7
tag quic_closed = 8
tag timeout = 9
tag frame_too_large = 10
tag corrupt_frame = 11
tag empty_delimiter = 12
tag slow_consumer = 13
tag session_closed = 14
tag server_full = 15
tag server_stopped = 16
tag message_too_large = 17
tag not_connected = 18

pub data ErrorType : Type 0 where
  connection configuration protocol session : ErrorType

-- `errorf f ns e` is fmt.Errorf(f, e, ns...) with f's %w standing for e. `network` is a NetworkError
-- with its Err set, and `network_alone` one whose Err is nil. `external` are errors of packages that
-- are not modelled.
pub data Error : Type 0 where
  sentinel : Sentinel → Error
  errorf : String → List ℤ → Error → Error
  message : String → Error
  message_of : String → String → Error
  network : ErrorType → String → Error → Error
  network_alone : ErrorType → String → Error
  validation : String → String → Error
  external : ℕ → Error

-- errors.Is against a sentinel: along the chain of Unwrap.
abbrev pub errors_is : Error → Sentinel → Bool
errors_is (sentinel s) t = tag s == tag t
errors_is (errorf f ns e) t = errors_is e t
errors_is (network k m e) t = errors_is e t
errors_is _ t = false

-- A (value, error) pair of which exactly one part is meant.
pub data Result {ℓ} (A : Type ℓ) : Type ℓ where
  ok : A → Result A
  err : Error → Result A

pub Result-cases {ℓ} :
    {A : Type ℓ} (r : Result A) → ((e : Error) × (r ≡ err e)) ⊎ ((a : A) × (r ≡ ok a))
Result-cases (err e) = inl (e, refl)
Result-cases (ok a) = inr (a, refl)
