-- ===== src/Listener/Stream.antt =====
-- listener/stream.go: framed messages on a byte stream.
pub mod Batches
pub mod Delivery
use gopher_socks.Common.{
  ℕ, ◌*◌, ◌^◌, ◌+◌, List, [], ◌∷◌, ◌++◌, Option, none, some, Bool, true, false, ◌&&◌, take, leb,
  ltb, ◌==◌, if◌then◌else◌,
}
use gopher_socks.Common.Int.{ℤ, pos, ltb_ℤ}
use gopher_socks.Errors.{Error, Result, ok, err}
use gopher_socks.Framing.Reader.{Reader}
use gopher_socks.Framing.Codec.{Codec}

abbrev pub read_buffer_size : ℕ
read_buffer_size = 32 * 1024

abbrev pub max_retained_write_buffer : ℕ
max_retained_write_buffer = 2 ^ 20

-- `wire` is all that the connection has taken so far, and `retained` the capacity of `buf`, of which
-- only the space is used again. `idle_timeout` says that `setReadDeadline` is not nil.
pub record StreamTransport : Type 0 where
  pub reader : Reader
  pub codec : Codec
  pub max : ℤ
  pub read_timeout : ℤ
  pub write_timeout : ℤ
  pub idle_timeout : Bool
  pub deadlines : ℕ
  pub wire : List ℕ
  pub retained : ℕ

-- `newReader`.
unfoldable pub new_reader : List ℕ → Error → Reader
new_reader bytes fail = record { bytes = bytes; size = read_buffer_size; fail = fail }

-- What one call meets: the bytes that are buffered already, and the answer of setReadDeadline.
pub record ReadEnv : Type 0 where
  pub buffered : ℕ
  pub set_deadline : Option Error

unfoldable pub needs_deadline : StreamTransport → ReadEnv → Bool
needs_deadline t env = ltb_ℤ (pos 0) t.read_timeout && t.idle_timeout && env.buffered == 0

abbrev pub received :
    StreamTransport → Option (Result (List ℕ) × Reader) → Option (Result (List ℕ) × StreamTransport)
received t none = none
received t (some (res, r)) = some (res, record t { reader = r })

-- `readMessage`.
unfoldable pub read_message : ReadEnv → StreamTransport → Option (Result (List ℕ) × StreamTransport)
unfolding needs_deadline
read_message env t =
    if needs_deadline t env
    then elim env.set_deadline [
      | some e ↦ some (err e, record t { deadlines = t.deadlines + 1 })
      | none ↦ received (record t { deadlines = t.deadlines + 1 }) (t.codec.read t.reader t.max)
    ]
    else received t (t.codec.read t.reader t.max)

-- What follows an Append, unless that fails.
abbrev pub and_then :
    (List ℕ → List ℕ × Option Error) → List ℕ × Option Error → List ℕ × Option Error
and_then next (buf, none) = next buf
and_then next (buf, some e) = (buf, some e)

-- The loop of `writeMessages` that encodes the batch; it ends at the first error.
unfoldable pub encode : Codec → List ℕ → List (List ℕ) → List ℕ × Option Error
encode c buf [] = (buf, none)
encode c buf (m ∷ msgs) = and_then (λ b. encode c b msgs) (c.append buf m)

-- What one call meets: the answer of setWriteDeadline, how much of the buffer Write takes if it fails,
-- and the capacity that the appends have given the buffer.
pub record WriteEnv : Type 0 where
  pub set_deadline : Option Error
  pub write : Option (ℕ × Error)
  pub capacity : ℕ

unfoldable pub retain : ℕ → ℕ
retain capacity = if leb capacity max_retained_write_buffer then capacity else 0

unfoldable pub write_buffer : WriteEnv → StreamTransport → List ℕ → Option Error × StreamTransport
unfolding retain
write_buffer env t buf = elim env.write [
  | none ↦ (none, record t { wire = t.wire ++ buf; retained = retain env.capacity })
  | some (n, e) ↦ (some e, record t { wire = t.wire ++ take n buf; retained = retain env.capacity })
]

-- `writeMessages` once the batch is encoded.
unfoldable pub flush :
    WriteEnv → StreamTransport → List ℕ × Option Error → Option Error × StreamTransport
unfolding write_buffer
flush env t (buf, some e) = (some e, t)
flush env t (buf, none) =
    if ltb_ℤ (pos 0) t.write_timeout
    then elim env.set_deadline [ some e ↦ (some e, t) | none ↦ write_buffer env t buf ]
    else write_buffer env t buf

-- `writeMessages`.
unfoldable pub write_messages :
    WriteEnv → StreamTransport → List (List ℕ) → Option Error × StreamTransport
write_messages env t msgs = flush env t (encode t.codec [] msgs)
