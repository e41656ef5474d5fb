-- ===== src/Client/Sending.antt =====
-- client/quic.go with listener/stream.go: what a client sends one by one a server's session reads.
use gopher_socks.Common.{
  ℕ, ◌≤◌, ◌≡◌, refl, sym, ap, subst, ◌∙◌, List, [], ◌∷◌, ◌++◌, Option, none, some, length, All,
  append_assoc, append-nil,
}
use gopher_socks.Common.Int.{ℤ}
use gopher_socks.Errors.{Error}
use gopher_socks.Framing.Laws.{IsCodec}
use gopher_socks.Listener.Stream.{StreamTransport, ReadEnv}
use gopher_socks.Listener.Stream.Batches.{frames}
use gopher_socks.Listener.Stream.Delivery.{receive, receive-frames}
use gopher_socks.Client.Quic.{Stream, QuicClient, send, framed, put}

-- Calls of Send in a row, as long as they succeed.
abbrev pub and_send :
    (QuicClient → Option Error × QuicClient) → Option Error × QuicClient → Option Error × QuicClient
and_send next (none, c) = next c
and_send next (some e, c) = (some e, c)

unfoldable pub send_all : List (List ℕ) → QuicClient → Option Error × QuicClient
send_all [] c = (none, c)
send_all (m ∷ msgs) c = and_send (send_all msgs) (send none m c)

module _ {Fits : ℤ → List ℕ → Type 0} (max : ℤ) where
  send-frame :
      (m : List ℕ) (c : QuicClient) (s : Stream)
      → IsCodec s.codec Fits
      → c.stream ≡ some s
      → Fits max m
      → send none m c
        ≡ (none, record c { stream = some (record s { wire = s.wire ++ (s.codec.append [] m).0 }) })
  unfolding send
  send-frame m c s lawful e fits =
      rw (e, send) (ap (λ r. put c (framed none r s)) (lawful.appends max [] m fits))

  -- Messages that fit are put on the wire as their frames, in the order of the calls.
  pub send_all-frames :
      (msgs : List (List ℕ)) (c : QuicClient) (s : Stream)
      → IsCodec s.codec Fits
      → c.stream ≡ some s
      → All (Fits max) msgs
      → send_all msgs c
        ≡ (none, record c { stream = some (record s { wire = s.wire ++ frames s.codec msgs }) })
  unfolding send_all frames
  send_all-frames [] c s lawful e fits =
      ap (λ x. (none, record c { stream = x }))
        (e ∙ ap (λ w. some (record s { wire = w })) (sym (append-nil s.wire)))
  send_all-frames (m ∷ msgs) c s lawful e fits =
      let sent : Stream = record s { wire = s.wire ++ (s.codec.append [] m).0 } in
      ap (and_send (send_all msgs)) (send-frame m c s lawful e fits.0)
      ∙ send_all-frames msgs (record c { stream = some sent }) sent lawful refl fits.1
      ∙ ap (λ w. (none, record c { stream = some (record s { wire = w }) }))
          (append_assoc s.wire (s.codec.append [] m).0 (frames s.codec msgs))

-- What the client has put on the wire.
abbrev pub wire_of : QuicClient → List ℕ
wire_of c = elim c.stream [ none ↦ [] | some s ↦ s.wire ]

-- A connected client that sends messages which fit meets no error, and a session of the server with the
-- same lawful codec that gets the client's bytes reads those messages in order, and nothing is left.
pub receive-send_all :
    {Fits : ℤ → List ℕ → Type 0} (msgs : List (List ℕ)) (envs : List ReadEnv) (c : QuicClient)
    (s : Stream) (t : StreamTransport)
    → IsCodec t.codec Fits
    → s.codec ≡ t.codec
    → c.stream ≡ some s
    → s.wire ≡ []
    → 1 ≤ t.reader.size
    → length envs ≡ length msgs
    → All (λ (e : ReadEnv). e.set_deadline ≡ none) envs
    → All (Fits t.max) msgs
    → t.reader.bytes ≡ wire_of (send_all msgs c).1
    → ((send_all msgs c).0 ≡ none)
      × ((k : ℕ) × (receive envs t
            ≡ some (msgs, record t { reader = record t.reader { bytes = [] }; deadlines = k })))
receive-send_all {Fits} msgs envs c s t lawful same connected unused roomy counted quiet fits
      wired =
    let all_sent =
      send_all-frames t.max msgs c s (subst (λ k. IsCodec k Fits) (sym same) lawful) connected
        fits in
    (
      ap (λ r. r.0) all_sent,
      receive-frames envs msgs t [] lawful roomy counted quiet fits (
          wired
          ∙ ap (λ r. wire_of r.1) all_sent
          ∙ ap (λ w. w ++ frames s.codec msgs) unused
          ∙ ap (λ k. frames k msgs) same
          ∙ sym (append-nil (frames t.codec msgs))),
    )
