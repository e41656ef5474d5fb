-- ===== src/Listener/Stream/Delivery.antt =====
-- stream.go: what one end writes in batches the other end reads, message by message.
use gopher_socks.Common.{
  ℕ, ◌+◌, ◌≤◌, ◌≡◌, refl, sym, ap, ◌∙◌, List, [], ◌∷◌, ◌++◌, Option, none, some, length, All, arith,
  append_assoc, append-nil, inl, inr, Bool-cases, subst,
}
use gopher_socks.Common.Int.{ℤ}
use gopher_socks.Errors.{Result, ok}
use gopher_socks.Framing.Laws.{IsCodec}
use gopher_socks.Listener.Stream.{
  StreamTransport, ReadEnv, WriteEnv, needs_deadline, read_message, write_messages,
}
use gopher_socks.Listener.Stream.Batches.{frames, Succeeds, write_messages-frames}

abbrev prepend :
    List ℕ → Option (List (List ℕ) × StreamTransport) → Option (List (List ℕ) × StreamTransport)
prepend m none = none
prepend m (some (ms, t)) = some (m ∷ ms, t)

abbrev on_message :
    (StreamTransport → Option (List (List ℕ) × StreamTransport))
    → Option (Result (List ℕ) × StreamTransport)
    → Option (List (List ℕ) × StreamTransport)
on_message next (some (ok m, t)) = prepend m (next t)
on_message next _ = none

-- A consumer that calls `readMessage` once for each entry of the list; `none` if a call fails.
pub receive : List ReadEnv → StreamTransport → Option (List (List ℕ) × StreamTransport)
receive [] t = some ([], t)
receive (env ∷ envs) t = on_message (receive envs) (read_message env t)

append_cancel : (xs ys zs : List ℕ) → xs ++ ys ≡ xs ++ zs → ys ≡ zs
append_cancel [] ys zs e = e
append_cancel (x ∷ xs) ys zs e = append_cancel xs ys zs (cc)

module _ {Fits : ℤ → List ℕ → Type 0} where
  pub read_message-lawful :
      (env : ReadEnv) (t : StreamTransport) (m rest : List ℕ)
      → IsCodec t.codec Fits
      → 1 ≤ t.reader.size
      → Fits t.max m
      → env.set_deadline ≡ none
      → t.reader.bytes ≡ (t.codec.append [] m).0 ++ rest
      → (k : ℕ) × (read_message env t
          ≡ some (ok m, record t { reader = record t.reader { bytes = rest }; deadlines = k }))
  unfolding read_message
  read_message-lawful env t m rest lawful roomy fits quiet hb =
      elim (Bool-cases (needs_deadline t env)) [
        | inl e ↦ (t.deadlines + 1, rw (e, quiet, read) refl)
        | inr e ↦ (t.deadlines, rw (e, read) refl)
      ]
    where
      read : t.codec.read t.reader t.max ≡ some (ok m, record t.reader { bytes = rest })
      read = lawful.reads t.max m rest t.reader roomy fits hb

  pub receive-frames :
      (envs : List ReadEnv) (msgs : List (List ℕ)) (t : StreamTransport) (rest : List ℕ)
      → IsCodec t.codec Fits
      → 1 ≤ t.reader.size
      → length envs ≡ length msgs
      → All (λ (env : ReadEnv). env.set_deadline ≡ none) envs
      → All (Fits t.max) msgs
      → t.reader.bytes ≡ frames t.codec msgs ++ rest
      → (k : ℕ) × (receive envs t
          ≡ some (msgs, record t { reader = record t.reader { bytes = rest }; deadlines = k }))
  unfolding receive frames
  receive-frames [] [] t rest lawful roomy same quiet fits hb =
      (t.deadlines, ap (λ bs. some ([], record t { reader = record t.reader { bytes = bs } })) hb)
  receive-frames [] (m ∷ msgs) t rest lawful roomy same quiet fits hb = absurd (omega arith)
  receive-frames (env ∷ envs) [] t rest lawful roomy same quiet fits hb = absurd (omega arith)
  receive-frames (env ∷ envs) (m ∷ msgs) t rest lawful roomy same quiet fits hb =
      let (k, e) =
        read_message-lawful env t m (frames t.codec msgs ++ rest) lawful roomy fits.0 quiet.0
          (hb ∙ append_assoc (t.codec.append [] m).0 (frames t.codec msgs) rest) in
      let t' : StreamTransport = record t {
        reader = record t.reader { bytes = frames t.codec msgs ++ rest };
        deadlines = k;
      } in
      let (k', f) =
        receive-frames envs msgs t' rest lawful roomy (omega arith) quiet.1 fits.1 refl in
      (k', ap (on_message (receive envs)) e ∙ ap (prepend m) f)

  -- Two ends of one connection with the same lawful codec: if the sender's batch is written without an
  -- error and its bytes are what the receiver is sent, then reading as many messages as the batch has
  -- gives the batch, in order and unchanged, and leaves nothing.
  pub receive-write_messages :
      (env : WriteEnv) (envs : List ReadEnv) (msgs : List (List ℕ))
      (sender receiver : StreamTransport)
      → IsCodec sender.codec Fits
      → receiver.codec ≡ sender.codec
      → 1 ≤ receiver.reader.size
      → Succeeds env
      → length envs ≡ length msgs
      → All (λ (e : ReadEnv). e.set_deadline ≡ none) envs
      → All (Fits receiver.max) msgs
      → (write_messages env sender msgs).1.wire ≡ sender.wire ++ receiver.reader.bytes
      → (k : ℕ) × (receive envs receiver
          ≡ some (
            msgs,
            record receiver { reader = record receiver.reader { bytes = [] }; deadlines = k },
          ))
  receive-write_messages env envs msgs sender receiver lawful same roomy good counted quiet fits
        wired =
      receive-frames envs msgs receiver [] (subst (λ c. IsCodec c Fits) (sym same) lawful) roomy
        counted quiet fits
        (sym (
            append_cancel sender.wire (frames sender.codec msgs) receiver.reader.bytes (
              sym (
                ap (λ r. r.1.wire)
                  (write_messages-frames sender lawful receiver.max env msgs fits good))
              ∙ wired))
          ∙ ap (λ c. frames c msgs) (sym same)
          ∙ sym (append-nil (frames receiver.codec msgs)))
