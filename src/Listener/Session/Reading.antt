-- ===== src/Listener/Session/Reading.antt =====
-- session.go, stream.go and tcp.go: the peer of a session reads what the session was given to send.
use gopher_socks.Common.{
  ℕ, ◌≤◌, ◌<◌, ◌^◌, ◌≡◌, refl, sym, ap, subst, ◌∙◌, List, [], ◌++◌, Option, none, some, false,
  length, take, All, All-impl, All-append_left, arith,
}
use gopher_socks.Common.Int.{ℤ, pos, ◌≤ℤ◌, to_u64}
use gopher_socks.Errors.{Error, sentinel, slow_consumer}
use gopher_socks.Framing.Prefix.{uint32_codec}
use gopher_socks.Framing.Laws.{IsCodec, uint32-IsCodec, Uint32Fits}
use gopher_socks.Listener.Config.{ServerConfig}
use gopher_socks.Listener.Server.{SessionRef}
use gopher_socks.Listener.Stream.{StreamTransport, ReadEnv, max_retained_write_buffer}
use gopher_socks.Listener.Stream.Batches.{frames}
use gopher_socks.Listener.Stream.Delivery.{receive, receive-frames}
use gopher_socks.Listener.Session.{Session, new_session, wait_to_send, touch}
use gopher_socks.Listener.Session.Steps.{
  State, Step, sends, passes, wakes, gives_up, expires, takes, writes, write_fails, writer_exits,
  closes, parent_ends, touches, Reach, begin, next,
}
use gopher_socks.Listener.Session.Closing.{close_with-SameQueue}
use gopher_socks.Listener.Session.Delivery.{IsFresh, Reach-Inv}
use gopher_socks.Listener.Session.Wire.{Wired, ReachWire, forget}
use gopher_socks.Listener.Session.Arrival.{ReachWire-Flow}
use gopher_socks.Listener.Tcp.{tcp_transport}

-- What a peer that has all the bytes of the connection reads in as many calls as `writeMessages` has
-- written messages.
pub record Arrives (envs : List ReadEnv) (w : Wired) (receiver : StreamTransport) : Type 0 where
  pub calls : ℕ
  pub rest : List ℕ
  pub read :
      receive envs receiver
      ≡ some (
        w.state.sent,
        record receiver { reader = record receiver.reader { bytes = rest }; deadlines = calls },
      )
  pub first_in_order : w.state.sent ++ (w.state.batch ++ w.state.session.out) ≡ w.state.accepted
  pub rest_none : w.state.done ≡ false → rest ≡ []

module _ {Fits : ℤ → List ℕ → Type 0} where
  -- In every state that a fresh session and its stream reach under any interleaving, with any answers of
  -- the connection: a peer with the same lawful codec and with all the bytes so far reads the messages
  -- written, unchanged and in order, and these are the first of the accepted ones. While the writer
  -- runs, nothing is left of the bytes after them. Condition: the codec carries what was accepted.
  pub ReachWire-Arrives :
      (s : Session) (t : StreamTransport) (w : Wired) (receiver : StreamTransport)
      (envs : List ReadEnv)
      → IsFresh s
      → t.wire ≡ []
      → t.retained ≤ max_retained_write_buffer
      → IsCodec t.codec Fits
      → ReachWire s t w
      → receiver.codec ≡ t.codec
      → 1 ≤ receiver.reader.size
      → receiver.reader.bytes ≡ w.transport.wire
      → All (Fits receiver.max) w.state.accepted
      → length envs ≡ length w.state.sent
      → All (λ (env : ReadEnv). env.set_deadline ≡ none) envs
      → Arrives envs w receiver
  ReachWire-Arrives s t w receiver envs fresh clean small lawful r same roomy bytes fits counted
        quiet =
      let f = ReachWire-Flow t.codec [] lawful receiver.max s t w fresh refl small clean r fits in
      let v = Reach-Inv s w.state fresh (forget r) in
      let all_bytes =
        bytes
        ∙ f.wire
        ∙ ap (λ c. frames c w.state.sent ++ take f.cut (frames c w.state.batch)) (sym same) in
      let readable =
        All-append_left (Fits receiver.max) w.state.sent (w.state.batch ++ w.state.session.out)
          (subst (All (Fits receiver.max)) (sym v.fifo) fits) in
      let (calls, e) =
        receive-frames envs w.state.sent receiver (take f.cut (frames receiver.codec w.state.batch))
          (subst (λ c. IsCodec c Fits) (sym same) lawful) roomy counted quiet readable all_bytes in
      record {
        calls = calls;
        rest = take f.cut (frames receiver.codec w.state.batch);
        read = e;
        first_in_order = v.fifo;
        rest_none =
            λ alive. ap (λ n. take n (frames receiver.codec w.state.batch)) (f.cut_none alive);
      }

Step-max_len : {t u : State} → Step t u → u.session.max_len ≡ t.session.max_len
Step-max_len (sends msg q) = refl
Step-max_len (passes msg q) = refl
Step-max_len (wakes front msg back e q) = refl
Step-max_len (gives_up front msg back x e q) = refl
Step-max_len {t} (expires front msg back e q) =
    unfold wait_to_send in (close_with-SameQueue (some (sentinel slow_consumer)) t.session).max_len
Step-max_len (takes m rest d idle e) = refl
Step-max_len (writes busy d) = refl
Step-max_len {t} (write_fails e busy d) = (close_with-SameQueue (some e) t.session).max_len
Step-max_len (writer_exits e q idle) = refl
Step-max_len {t} (closes e) = (close_with-SameQueue e t.session).max_len
Step-max_len (parent_ends e) = refl
Step-max_len (touches now) = unfold touch in refl

Reach-max_len : {s : Session} {t : State} → Reach s t → t.session.max_len ≡ s.max_len
Reach-max_len begin = refl
Reach-max_len (next r step) = Step-max_len step ∙ Reach-max_len r

-- A TCP session of a server, whose MaxLength is a uint32: whatever its goroutines and its connection do,
-- a peer that reads framing.Uint32 with a limit of at least MaxLength and has all the bytes so far reads
-- the messages written, unchanged and in order, and these are the first of the accepted ones.
pub tcp_transport-Arrives :
    (cfg : ServerConfig) (parent : Option Error) (ref : SessionRef) (now : ℤ) (bytes : List ℕ)
    (fail : Error) (w : Wired) (receiver : StreamTransport) (envs : List ReadEnv)
    → cfg.max_length < 2 ^ 32
    → ReachWire (new_session parent ref cfg now) (tcp_transport cfg bytes fail) w
    → receiver.codec ≡ uint32_codec
    → cfg.max_length ≤ to_u64 receiver.max
    → 1 ≤ receiver.reader.size
    → receiver.reader.bytes ≡ w.transport.wire
    → length envs ≡ length w.state.sent
    → All (λ (env : ReadEnv). env.set_deadline ≡ none) envs
    → Arrives envs w receiver
unfolding tcp_transport new_session
tcp_transport-Arrives cfg parent ref now bytes fail w receiver envs small r same limit roomy wired
      counted quiet =
    let fresh : IsFresh (new_session parent ref cfg now) = record {
      out = refl;
      closed = refl;
      calls = refl;
    } in
    let v = Reach-Inv (new_session parent ref cfg now) w.state fresh (forget r) in
    let bound : w.state.session.max_len ≡ pos cfg.max_length = Reach-max_len (forget r) in
    let fits =
      All-impl (λ m. pos (length m) ≤ℤ pos cfg.max_length) (Uint32Fits receiver.max)
        w.state.accepted (λ m h. (omega arith, omega arith))
        (subst (λ n. All (λ m. pos (length m) ≤ℤ n) w.state.accepted) bound v.sized) in
    ReachWire-Arrives (new_session parent ref cfg now) (tcp_transport cfg bytes fail) w receiver
      envs fresh refl (omega arith) uint32-IsCodec r same roomy wired fits counted quiet
