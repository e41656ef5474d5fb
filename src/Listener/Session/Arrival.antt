-- ===== src/Listener/Session/Arrival.antt =====
-- session.go over stream.go: what a session has on the wire, and what the peer reads of it.
use gopher_socks.Common.{
  ℕ, ◌≤◌, ◌≡◌, refl, sym, ap, subst, ◌∙◌, List, [], ◌++◌, none, some, true, false, take, All,
  All-append_left, All-append_right, append-nil, append_assoc, inl, inr,
}
use gopher_socks.Common.Int.{ℤ}
use gopher_socks.Framing.Codec.{Codec}
use gopher_socks.Framing.Laws.{IsCodec}
use gopher_socks.Listener.Stream.{
  StreamTransport, WriteEnv, encode, write_messages, max_retained_write_buffer,
}
use gopher_socks.Listener.Stream.Batches.{frames, encode-frames, Leaves, write_messages-Leaves}
use gopher_socks.Listener.Session.{Session, close_with}
use gopher_socks.Listener.Session.Steps.{State}
use gopher_socks.Listener.Session.Delivery.{Inv, IsFresh, Reach-Inv}
use gopher_socks.Listener.Session.Wire.{
  Wired, elsewhere, written, lost, ReachWire, connect, goes_on, forget, Quiet, Step-Quiet,
  frames-append, write_messages-codec,
}

module _ (c : Codec) (before : List ℕ) where
  -- What the connection has taken: what it had before, the frames of the messages written, and, when a
  -- write has failed, a front of the frames of the batch.
  pub record Flow (w : Wired) : Type 0 where
    pub codec : w.transport.codec ≡ c
    pub kept : w.transport.retained ≤ max_retained_write_buffer
    pub cut : ℕ
    pub wire :
        w.transport.wire ≡ before ++ (frames c w.state.sent ++ take cut (frames c w.state.batch))
    pub cut_none : w.state.done ≡ false → cut ≡ 0

  -- While the writer runs there are whole frames only.
  live-Flow :
      (w : Wired)
      → Flow w
      → w.state.done ≡ false
      → w.transport.wire ≡ before ++ frames c w.state.sent
  live-Flow w f alive =
      f.wire
      ∙ ap (λ n. before ++ (frames c w.state.sent ++ take n (frames c w.state.batch)))
          (f.cut_none alive)
      ∙ ap (◌++◌ before) (append-nil (frames c w.state.sent))

  elsewhere-Flow :
      (w : Wired) (u : State) → Quiet w.state u → Flow w → Flow (record w { state = u })
  elsewhere-Flow w u q f = elim q.batch [
    | inl e ↦ record {
      codec = f.codec;
      kept = f.kept;
      cut = f.cut;
      wire =
          f.wire
          ∙ ap (λ b. before ++ (frames c w.state.sent ++ take f.cut (frames c b))) (sym e)
          ∙ ap (λ l. before ++ (frames c l ++ take f.cut (frames c u.batch))) (sym q.sent);
      cut_none = λ d. f.cut_none (q.alive d);
    }
    | inr alive ↦ record {
      codec = f.codec;
      kept = f.kept;
      cut = 0;
      wire =
          live-Flow w f alive
          ∙ ap (λ l. before ++ frames c l) (sym q.sent)
          ∙ ap (◌++◌ before) (sym (append-nil (frames c u.sent)));
      cut_none = λ d. refl;
    }
  ]

  module _ {Fits : ℤ → List ℕ → Type 0} (lawful : IsCodec c Fits) (max : ℤ) where
    front_written :
        (env : WriteEnv) (w : Wired)
        → Flow w
        → All (Fits max) w.state.batch
        → Leaves w.transport (frames c w.state.batch) (write_messages env w.transport w.state.batch)
    front_written env w f fits =
        subst (λ buf. Leaves w.transport buf (write_messages env w.transport w.state.batch))
          (ap (λ x. (encode x [] w.state.batch).0) f.codec
            ∙ ap (λ r. r.0) (encode-frames c lawful max [] w.state.batch fits))
          (write_messages-Leaves env w.transport w.state.batch f.kept)

    written-Flow :
        (env : WriteEnv) (w : Wired)
        → Flow w
        → All (Fits max) w.state.batch
        → w.state.done ≡ false
        → (write_messages env w.transport w.state.batch).0 ≡ none
        → Flow (record {
          state = record (w.state) { batch = []; sent = w.state.sent ++ w.state.batch };
          transport = (write_messages env w.transport w.state.batch).1;
        })
    written-Flow env w f fits alive good =
        let left = front_written env w f fits in
        let out = frames c w.state.batch in
        record {
          codec = write_messages-codec env w.transport w.state.batch ∙ f.codec;
          kept = left.kept;
          cut = 0;
          wire =
              left.whole good
              ∙ ap (λ l. l ++ out) (live-Flow w f alive)
              ∙ append_assoc before (frames c w.state.sent) out
              ∙ ap (◌++◌ before) (
                  sym (frames-append c w.state.sent w.state.batch)
                  ∙ sym (append-nil (frames c (w.state.sent ++ w.state.batch))));
          cut_none = λ d. refl;
        }

    lost-Flow :
        (env : WriteEnv) (w : Wired) (s' : Session)
        → Flow w
        → All (Fits max) w.state.batch
        → w.state.done ≡ false
        → Flow (record {
          state = record (w.state) { session = s'; done = true };
          transport = (write_messages env w.transport w.state.batch).1;
        })
    lost-Flow env w s' f fits alive =
        let left = front_written env w f fits in
        let (n, e) = left.sent in
        let out = take n (frames c w.state.batch) in
        record {
          codec = write_messages-codec env w.transport w.state.batch ∙ f.codec;
          kept = left.kept;
          cut = n;
          wire =
              e
              ∙ ap (λ l. l ++ out) (live-Flow w f alive)
              ∙ append_assoc before (frames c w.state.sent) out;
          cut_none = λ d. absurd (cc);
        }

    -- The writer's batch is among the accepted messages.
    batch-fits : (t : State) → Inv t → All (Fits max) t.accepted → All (Fits max) t.batch
    batch-fits t v fits = All-append_left (Fits max) t.batch t.session.out (
        All-append_right (Fits max) t.sent (t.batch ++ t.session.out)
          (subst (All (Fits max)) (sym v.fifo) fits))

    pub ReachWire-Flow :
        (s : Session) (t : StreamTransport) (w : Wired)
        → IsFresh s
        → t.codec ≡ c
        → t.retained ≤ max_retained_write_buffer
        → t.wire ≡ before
        → ReachWire s t w
        → All (Fits max) w.state.accepted
        → Flow w
    unfolding frames
    ReachWire-Flow s t w fresh same small wired connect fits = record {
      codec = same;
      kept = small;
      cut = 0;
      wire = wired ∙ sym (append-nil before);
      cut_none = λ d. refl;
    }
    ReachWire-Flow s t w fresh same small wired (goes_on {w = v} r (elsewhere {u = u} step quiet))
          fits =
        let q = Step-Quiet step quiet in
        let earlier =
          All-append_left (Fits max) v.state.accepted q.accepted.0
            (subst (All (Fits max)) q.accepted.1 fits) in
        elsewhere-Flow v u q (ReachWire-Flow s t v fresh same small wired r earlier)
    ReachWire-Flow s t w fresh same small wired (goes_on {w = v} r (written env busy alive good))
          fits =
        written-Flow env v (ReachWire-Flow s t v fresh same small wired r fits)
          (batch-fits v.state (Reach-Inv s v.state fresh (forget r)) fits) alive good
    ReachWire-Flow s t w fresh same small wired (goes_on {w = v} r (lost env e busy alive bad))
          fits =
        lost-Flow env v (close_with (some e) v.state.session)
          (ReachWire-Flow s t v fresh same small wired r fits)
          (batch-fits v.state (Reach-Inv s v.state fresh (forget r)) fits) alive
