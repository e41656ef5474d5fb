-- ===== src/Listener/Session/Wire.antt =====
-- session.go over stream.go: the writer goroutine of a session writes its batches to a byte stream.
use gopher_socks.Common.{
  ℕ, ◌≡◌, refl, sym, ap, ◌∙◌, ◌≢◌, List, [], ◌∷◌, ◌++◌, Option, none, some, Bool, true, false,
  append-nil, append_assoc, arith, ◌⊎◌, inl, inr,
}
use gopher_socks.Errors.{Error}
use gopher_socks.Framing.Codec.{Codec}
use gopher_socks.Listener.Stream.{
  StreamTransport, WriteEnv, encode, flush, write_buffer, write_messages,
}
use gopher_socks.Listener.Stream.Batches.{frames}
use gopher_socks.Listener.Session.{Session, close_with}
use gopher_socks.Listener.Session.Steps.{
  State, start, Step, sends, passes, wakes, gives_up, expires, takes, writes, write_fails,
  writer_exits, closes, parent_ends, touches, Reach, begin, next,
}

-- A session and the stream transport that it writes to.
pub record Wired : Type 0 where
  pub state : State
  pub transport : StreamTransport

-- A step in which the writer has called writeMessages.
abbrev pub calls_transport : {t u : State} → Step t u → Bool
calls_transport (writes busy alive) = true
calls_transport (write_fails e busy alive) = true
calls_transport _ = false

-- The writer's call of writeMessages takes the answers of the connection in `env`; the other steps leave
-- the transport alone.
pub data WireStep (w : Wired) : Wired → Type 0 where
  elsewhere :
      {u : State} (step : Step w.state u)
      → calls_transport step ≡ false
      → WireStep w (record w { state = u })
  written :
      (env : WriteEnv)
      → w.state.batch ≢ []
      → w.state.done ≡ false
      → (write_messages env w.transport w.state.batch).0 ≡ none
      → WireStep w (record {
        state = record (w.state) { batch = []; sent = w.state.sent ++ w.state.batch };
        transport = (write_messages env w.transport w.state.batch).1;
      })
  lost :
      (env : WriteEnv) (e : Error)
      → w.state.batch ≢ []
      → w.state.done ≡ false
      → (write_messages env w.transport w.state.batch).0 ≡ some e
      → WireStep w (record {
        state = record (w.state) { session = close_with (some e) w.state.session; done = true };
        transport = (write_messages env w.transport w.state.batch).1;
      })

pub data ReachWire (s : Session) (t : StreamTransport) : Wired → Type 0 where
  connect : ReachWire s t (record { state = start s; transport = t })
  goes_on : {w v : Wired} → ReachWire s t w → WireStep w v → ReachWire s t v

-- With the transport left out, these are steps of Session.Steps.
pub forget : {s : Session} {t : StreamTransport} {w : Wired} → ReachWire s t w → Reach s w.state
forget connect = begin
forget (goes_on r (elsewhere step quiet)) = next (forget r) step
forget (goes_on r (written env busy alive good)) = next (forget r) (writes busy alive)
forget (goes_on r (lost env e busy alive bad)) = next (forget r) (write_fails e busy alive)

-- What a step that writes nothing leaves.
pub record Quiet (t u : State) : Type 0 where
  pub sent : u.sent ≡ t.sent
  pub batch : (u.batch ≡ t.batch) ⊎ (t.done ≡ false)
  pub alive : u.done ≡ false → t.done ≡ false
  pub accepted : (new : List (List ℕ)) × (u.accepted ≡ t.accepted ++ new)

same_accepted : (t : State) → (new : List (List ℕ)) × (t.accepted ≡ t.accepted ++ new)
same_accepted t = ([], sym (append-nil t.accepted))

pub Step-Quiet : {t u : State} (step : Step t u) → calls_transport step ≡ false → Quiet t u
Step-Quiet {t} (sends msg q) h = record {
  sent = refl;
  batch = inl refl;
  alive = λ d. d;
  accepted = (msg ∷ [], refl);
}
Step-Quiet {t} (passes msg q) h = record {
  sent = refl;
  batch = inl refl;
  alive = λ d. d;
  accepted = same_accepted t;
}
Step-Quiet {t} (wakes f msg b e q) h = record {
  sent = refl;
  batch = inl refl;
  alive = λ d. d;
  accepted = (msg ∷ [], refl);
}
Step-Quiet {t} (gives_up f msg b x e q) h = record {
  sent = refl;
  batch = inl refl;
  alive = λ d. d;
  accepted = same_accepted t;
}
Step-Quiet {t} (expires f msg b e q) h = record {
  sent = refl;
  batch = inl refl;
  alive = λ d. d;
  accepted = same_accepted t;
}
Step-Quiet {t} (takes m rest d idle e) h = record {
  sent = refl;
  batch = inr d;
  alive = λ x. x;
  accepted = same_accepted t;
}
Step-Quiet {t} (writes busy d) h = absurd (cc)
Step-Quiet {t} (write_fails e busy d) h = absurd (cc)
Step-Quiet {t} (writer_exits e q idle) h = record {
  sent = refl;
  batch = inl refl;
  alive = λ d. absurd (cc);
  accepted = same_accepted t;
}
Step-Quiet {t} (closes e) h = record {
  sent = refl;
  batch = inl refl;
  alive = λ d. d;
  accepted = same_accepted t;
}
Step-Quiet {t} (parent_ends e) h = record {
  sent = refl;
  batch = inl refl;
  alive = λ d. d;
  accepted = same_accepted t;
}
Step-Quiet {t} (touches now) h = record {
  sent = refl;
  batch = inl refl;
  alive = λ d. d;
  accepted = same_accepted t;
}

pub frames-append :
    (c : Codec) (xs ys : List (List ℕ)) → frames c (xs ++ ys) ≡ frames c xs ++ frames c ys
unfolding frames
frames-append c [] ys = refl
frames-append c (x ∷ xs) ys =
    ap (◌++◌ (c.append [] x).0) (frames-append c xs ys)
    ∙ sym (append_assoc (c.append [] x).0 (frames c xs) (frames c ys))

flush-codec :
    (env : WriteEnv) (t : StreamTransport) (r : List ℕ × Option Error)
    → (flush env t r).1.codec ≡ t.codec
unfolding flush write_buffer
flush-codec env t (buf, some e) = refl
flush-codec env t (buf, none) = ground arith

pub write_messages-codec :
    (env : WriteEnv) (t : StreamTransport) (msgs : List (List ℕ))
    → (write_messages env t msgs).1.codec ≡ t.codec
unfolding write_messages
write_messages-codec env t msgs = flush-codec env t (encode t.codec [] msgs)
