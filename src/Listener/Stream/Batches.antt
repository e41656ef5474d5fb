-- ===== src/Listener/Stream/Batches.antt =====
-- stream.go: batches of messages over a codec that keeps the laws of Framing.Laws.
use gopher_socks.Common.{
  ℕ, ◌≤◌, ◌≡◌, refl, sym, ap, ◌∙◌, List, [], ◌∷◌, ◌++◌, Option, none, some, length, take, take_all,
  All, arith, append_assoc, append-nil, inl, inr, Bool-cases, Option-cases,
}
use gopher_socks.Common.Int.{ℤ, pos, ltb_ℤ}
use gopher_socks.Errors.{Error}
use gopher_socks.Framing.Codec.{Codec}
use gopher_socks.Framing.Laws.{IsCodec}
use gopher_socks.Listener.Stream.{
  StreamTransport, WriteEnv, encode, and_then, flush, retain, write_buffer, write_messages,
  max_retained_write_buffer,
}

-- The frames of a batch, one after the other.
unfoldable pub frames : Codec → List (List ℕ) → List ℕ
frames c [] = []
frames c (m ∷ msgs) = (c.append [] m).0 ++ frames c msgs

module _ {Fits : ℤ → List ℕ → Type 0} (c : Codec) (lawful : IsCodec c Fits) (max : ℤ) where
  pub encode-frames :
      (buf : List ℕ) (msgs : List (List ℕ))
      → All (Fits max) msgs
      → encode c buf msgs ≡ (buf ++ frames c msgs, none)
  unfolding frames
  encode-frames buf [] fits = unfold encode in ap (λ l. (l, none)) (sym (append-nil buf))
  encode-frames buf (m ∷ msgs) fits =
      encode-cons buf m msgs
      ∙ ap (and_then (λ b. encode c b msgs)) (lawful.appends max buf m fits.0)
      ∙ encode-frames (buf ++ (c.append [] m).0) msgs fits.1
      ∙ ap (λ l. (l, none)) (append_assoc buf (c.append [] m).0 (frames c msgs))
    where
      encode-cons :
          (buf m : List ℕ) (msgs : List (List ℕ))
          → encode c buf (m ∷ msgs) ≡ and_then (λ b. encode c b msgs) (c.append buf m)
      encode-cons buf m msgs = unfold encode in refl

-- Both calls of the connection succeed.
pub record Succeeds (env : WriteEnv) : Type 0 where
  pub deadline : env.set_deadline ≡ none
  pub written : env.write ≡ none

flush-good :
    (env : WriteEnv) (t : StreamTransport) (buf : List ℕ)
    → Succeeds env
    → flush env t (buf, none)
      ≡ (none, record t { wire = t.wire ++ buf; retained = retain env.capacity })
unfolding flush
flush-good env t buf good = rw (good.deadline, good.written, flush) (ground arith)

module _ {Fits : ℤ → List ℕ → Type 0} (t : StreamTransport) (lawful : IsCodec t.codec Fits)
    (max : ℤ) where
  -- A batch that the peer's limit max allows is put on the wire by one Write, as the frames of its
  -- messages in order, when the connection takes the deadline and the bytes.
  pub write_messages-frames :
      (env : WriteEnv) (msgs : List (List ℕ))
      → All (Fits max) msgs
      → Succeeds env
      → write_messages env t msgs
        ≡ (none, record t { wire = t.wire ++ frames t.codec msgs; retained = retain env.capacity })
  unfolding write_messages
  write_messages-frames env msgs fits good =
      rw (encode-frames t.codec lawful max [] msgs fits)
        (flush-good env t (frames t.codec msgs) good)

-- A message that the codec refuses stops the whole batch: nothing is written and nothing changes.
pub write_messages-refused :
    (env : WriteEnv) (t : StreamTransport) (msgs : List (List ℕ)) (e : Error)
    → (encode t.codec [] msgs).1 ≡ some e
    → write_messages env t msgs ≡ (some e, t)
unfolding write_messages
write_messages-refused env t msgs e h = go (encode t.codec [] msgs) h
  where
    go : (r : List ℕ × Option Error) → r.1 ≡ some e → flush env t r ≡ (some e, t)
    go (buf, none) q = cc
    go (buf, some x) q = unfold flush in cc

-- What a call leaves: a front of the buffer `buf` on the wire, all of it if no error is reported.
pub record Leaves (t : StreamTransport) (buf : List ℕ) (r : Option Error × StreamTransport)
    : Type 0 where
  pub sent : (n : ℕ) × (r.1.wire ≡ t.wire ++ take n buf)
  pub whole : r.0 ≡ none → r.1.wire ≡ t.wire ++ buf
  pub kept : r.1.retained ≤ max_retained_write_buffer

unchanged :
    (t : StreamTransport) (buf : List ℕ) (e : Error)
    → t.retained ≤ max_retained_write_buffer
    → Leaves t buf (some e, t)
unchanged t buf e h = record { sent = (0, sym (append-nil t.wire)); whole = λ q. cc; kept = h }

write_buffer-Leaves :
    (env : WriteEnv) (t : StreamTransport) (buf : List ℕ) → Leaves t buf (write_buffer env t buf)
unfolding write_buffer
write_buffer-Leaves env t buf = go env.write
  where
    bounded : retain env.capacity ≤ max_retained_write_buffer
    bounded = unfold retain in ground arith

    go :
        (w : Option (ℕ × Error))
        → Leaves t buf (elim w [
          | none ↦ (none, record t { wire = t.wire ++ buf; retained = retain env.capacity })
          | some (n, e) ↦
              (some e, record t { wire = t.wire ++ take n buf; retained = retain env.capacity })
        ])
    go none = record {
      sent = (length buf, ap (◌++◌ t.wire) (sym (take_all buf)));
      whole = λ q. refl;
      kept = bounded;
    }
    go (some (n, e)) = record { sent = (n, refl); whole = λ q. cc; kept = bounded }

flush-Leaves :
    (env : WriteEnv) (t : StreamTransport) (r : List ℕ × Option Error)
    → t.retained ≤ max_retained_write_buffer
    → Leaves t r.0 (flush env t r)
unfolding flush
flush-Leaves env t (buf, some e) h = unchanged t buf e h
flush-Leaves env t (buf, none) h = elim (Bool-cases (ltb_ℤ (pos 0) t.write_timeout)) [
  | inr plain ↦ rw (plain, flush) (write_buffer-Leaves env t buf)
  | inl timed ↦ elim (Option-cases env.set_deadline) [
    | inl q ↦ rw (timed, q, flush) (write_buffer-Leaves env t buf)
    | inr (e, q) ↦ rw (timed, q, flush) (unchanged t buf e h)
  ]
]

-- Whatever the codec and the connection answer, what was on the wire stays, and is followed by a front
-- of the encoded batch: all of it if no error is reported. A write buffer of at most 1 MiB is kept.
pub write_messages-Leaves :
    (env : WriteEnv) (t : StreamTransport) (msgs : List (List ℕ))
    → t.retained ≤ max_retained_write_buffer
    → Leaves t (encode t.codec [] msgs).0 (write_messages env t msgs)
unfolding write_messages
write_messages-Leaves env t msgs h = flush-Leaves env t (encode t.codec [] msgs) h
