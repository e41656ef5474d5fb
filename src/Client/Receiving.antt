-- ===== src/Client/Receiving.antt =====
-- client/quic.go with listener/session.go and listener/quic.go: what a session of the server is given to
-- send a client receives one by one.
use gopher_socks.Common.{
  ℕ, zero, suc, ◌≤◌, ◌≡◌, refl, sym, ap, subst, ◌∙◌, List, [], ◌∷◌, ◌++◌, Option, none, some,
  length, take, false, All, All-append_left, append_assoc, arith,
}
use gopher_socks.Common.Int.{ℤ}
use gopher_socks.Errors.{Error, Result, ok, err}
use gopher_socks.Framing.Codec.{Codec}
use gopher_socks.Framing.Laws.{IsCodec}
use gopher_socks.Listener.Config.{ServerConfig}
use gopher_socks.Listener.Server.{SessionRef}
use gopher_socks.Listener.Stream.Batches.{frames}
use gopher_socks.Listener.Session.{new_session}
use gopher_socks.Listener.Session.Delivery.{IsFresh, Reach-Inv}
use gopher_socks.Listener.Session.Wire.{Wired, ReachWire, forget}
use gopher_socks.Listener.Session.Arrival.{ReachWire-Flow}
use gopher_socks.Listener.Quic.{quic_transport}
use gopher_socks.Client.Quic.{Stream, QuicClient, receive, got}

abbrev pub prepend :
    List ℕ → Option (List (List ℕ) × QuicClient) → Option (List (List ℕ) × QuicClient)
prepend m none = none
prepend m (some (msgs, c)) = some (m ∷ msgs, c)

abbrev pub and_receive :
    (QuicClient → Option (List (List ℕ) × QuicClient))
    → Option (Result (List ℕ) × QuicClient)
    → Option (List (List ℕ) × QuicClient)
and_receive more none = none
and_receive more (some (err e, c)) = none
and_receive more (some (ok m, c)) = prepend m (more c)

-- Calls of Receive in a row; `none` if one of them fails.
unfoldable pub receive_times : ℕ → QuicClient → Option (List (List ℕ) × QuicClient)
receive_times zero c = some ([], c)
receive_times (suc n) c = and_receive (receive_times n) (receive c)

-- The client with these bytes left to read.
abbrev pub reading : List ℕ → QuicClient → Stream → QuicClient
reading bytes c s = record c {
  stream = some (record s { reader = record s.reader { bytes = bytes } });
}

module _ {Fits : ℤ → List ℕ → Type 0} where
  receive-lawful :
      (m rest : List ℕ) (c : QuicClient) (s : Stream)
      → IsCodec s.codec Fits
      → c.stream ≡ some s
      → 1 ≤ s.reader.size
      → Fits c.config.max_length m
      → s.reader.bytes ≡ (s.codec.append [] m).0 ++ rest
      → receive c ≡ some (ok m, reading rest c s)
  unfolding receive
  receive-lawful m rest c s lawful e roomy fits hb =
      rw (e, receive)
        (ap (got c s) (lawful.reads c.config.max_length m rest s.reader roomy fits hb))

  -- A client that has been sent the frames of messages which fit receives those messages.
  pub receive_times-frames :
      (msgs : List (List ℕ)) (rest : List ℕ) (c : QuicClient) (s : Stream)
      → IsCodec s.codec Fits
      → c.stream ≡ some s
      → 1 ≤ s.reader.size
      → All (Fits c.config.max_length) msgs
      → s.reader.bytes ≡ frames s.codec msgs ++ rest
      → receive_times (length msgs) c ≡ some (msgs, reading rest c s)
  unfolding receive_times frames
  receive_times-frames [] rest c s lawful e roomy fits hb =
      ap (λ x. some ([], record c { stream = x }))
        (e ∙ ap (λ bs. some (record s { reader = record s.reader { bytes = bs } })) hb)
  receive_times-frames (m ∷ msgs) rest c s lawful e roomy fits hb =
      let later : List ℕ = frames s.codec msgs ++ rest in
      let first =
        receive-lawful m later c s lawful e roomy fits.0
          (hb ∙ append_assoc (s.codec.append [] m).0 (frames s.codec msgs) rest) in
      ap (and_receive (receive_times (length msgs))) first
      ∙ ap (prepend m) (
          receive_times-frames msgs rest (reading later c s)
            (record s { reader = record s.reader { bytes = later } }) lawful refl roomy fits.1 refl)

-- What a client that has all the bytes of the connection gets in as many calls of Receive as the session
-- has written messages.
pub record Receives (c : QuicClient) (s : Stream) (w : Wired) : Type 0 where
  pub rest : List ℕ
  pub received : receive_times (length w.state.sent) c ≡ some (w.state.sent, reading rest c s)
  pub first_in_order : w.state.sent ++ (w.state.batch ++ w.state.session.out) ≡ w.state.accepted
  pub rest_none : w.state.done ≡ false → rest ≡ []

-- A QUIC session of a server with a lawful codec, and a connected client that has the same codec for the
-- protocol: whatever the session's goroutines and the connection do, a client that has all the bytes so
-- far receives the messages written, unchanged and in order, and these are the first of the accepted
-- ones. While the writer runs, nothing is left of the bytes after them. Condition: the codec carries
-- what was accepted to a reader with the client's MaxLength.
pub receive_times-Receives :
    {Fits : ℤ → List ℕ → Type 0} (cfg : ServerConfig) (codec : Codec) (parent : Option Error)
    (ref : SessionRef) (now : ℤ) (bytes : List ℕ) (fail : Error) (w : Wired) (c : QuicClient)
    (s : Stream)
    → IsCodec codec Fits
    → ReachWire (new_session parent ref cfg now) (quic_transport cfg codec bytes fail) w
    → c.stream ≡ some s
    → s.codec ≡ codec
    → 1 ≤ s.reader.size
    → s.reader.bytes ≡ w.transport.wire
    → All (Fits c.config.max_length) w.state.accepted
    → Receives c s w
unfolding quic_transport new_session
receive_times-Receives {Fits} cfg codec parent ref now bytes fail w c s lawful r connected same
      roomy wired fits =
    let fresh : IsFresh (new_session parent ref cfg now) = record {
      out = refl;
      closed = refl;
      calls = refl;
    } in
    let f =
      ReachWire-Flow codec [] lawful c.config.max_length (new_session parent ref cfg now)
        (quic_transport cfg codec bytes fail) w fresh refl (omega arith) refl r fits in
    let v = Reach-Inv (new_session parent ref cfg now) w.state fresh (forget r) in
    let written =
      All-append_left (Fits c.config.max_length) w.state.sent (w.state.batch ++ w.state.session.out)
        (subst (All (Fits c.config.max_length)) (sym v.fifo) fits) in
    record {
      rest = take f.cut (frames codec w.state.batch);
      received =
          receive_times-frames w.state.sent (take f.cut (frames codec w.state.batch)) c s
            (subst (λ k. IsCodec k Fits) (sym same) lawful) connected roomy written
            (wired
              ∙ f.wire
              ∙ ap (λ k. frames k w.state.sent ++ take f.cut (frames codec w.state.batch))
                  (sym same));
      first_in_order = v.fifo;
      rest_none = λ alive. ap (λ n. take n (frames codec w.state.batch)) (f.cut_none alive);
    }
