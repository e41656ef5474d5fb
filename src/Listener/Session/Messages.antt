-- ===== src/Listener/Session/Messages.antt =====
-- session.go over websocket.go and udp.go: the writer goroutine of a session that writes each message as
-- one frame or datagram.
use gopher_socks.Common.{
  ℕ, ◌⊎◌, ◌≡◌, ◌≢◌, refl, sym, ap, ◌∙◌, List, [], ◌∷◌, ◌++◌, Option, none, some, true, false,
  append-nil, append_assoc, Bool-cases, Option-cases, inl, inr,
}
use gopher_socks.Common.Int.{ℤ, pos, ltb_ℤ}
use gopher_socks.Errors.{Error}
use gopher_socks.Listener.Config.{ServerConfig}
use gopher_socks.Listener.Server.{SessionRef}
use gopher_socks.Listener.Udp as Udp
use gopher_socks.Listener.WebSocket as WebSocket
use gopher_socks.Listener.WebSocket.Binary.{write_loop-front}
use gopher_socks.Listener.Session.{Session, new_session, close_with}
use gopher_socks.Listener.Session.Steps.{
  State, start, Step, writes, write_fails, Reach, begin, next,
}
use gopher_socks.Listener.Session.Delivery.{IsFresh, Reach-Inv}
use gopher_socks.Listener.Session.Wire.{calls_transport, Step-Quiet}

-- What goes out is a front of the batch, in order, and all of it if no error is reported.
pub record IsWriter {Env : Type 0} (write : Env → List (List ℕ) → List (List ℕ) × Option Error)
    : Type 0 where
  pub front :
      (env : Env) (msgs : List (List ℕ))
      → (rest : List (List ℕ)) × (msgs ≡ (write env msgs).0 ++ rest)
  pub whole :
      (env : Env) (msgs : List (List ℕ)) → (write env msgs).1 ≡ none → (write env msgs).0 ≡ msgs

-- A session and the messages that have gone out on its connection.
pub record Carried : Type 0 where
  pub state : State
  pub wire : List (List ℕ)

-- What has gone out is the first of the accepted messages, in order, and while the writer runs it is
-- what the calls of writeMessages that have returned were given.
pub record Carries (w : Carried) : Type 0 where
  pub later : List (List ℕ)
  pub first_in_order : w.wire ++ later ≡ w.state.accepted
  pub all_sent : w.state.done ≡ false → w.wire ≡ w.state.sent

module _ {Env : Type 0} (write : Env → List (List ℕ) → List (List ℕ) × Option Error) where
  -- The writer's call of writeMessages takes the answers of the connection in `env`; the other steps
  -- leave the connection alone.
  pub data CarryStep (w : Carried) : Carried → Type 0 where
    elsewhere :
        {u : State} (step : Step w.state u)
        → calls_transport step ≡ false
        → CarryStep w (record w { state = u })
    written :
        (env : Env)
        → w.state.batch ≢ []
        → w.state.done ≡ false
        → (write env w.state.batch).1 ≡ none
        → CarryStep w (record {
          state = record (w.state) { batch = []; sent = w.state.sent ++ w.state.batch };
          wire = w.wire ++ (write env w.state.batch).0;
        })
    lost :
        (env : Env) (e : Error)
        → w.state.batch ≢ []
        → w.state.done ≡ false
        → (write env w.state.batch).1 ≡ some e
        → CarryStep w (record {
          state = record (w.state) { session = close_with (some e) w.state.session; done = true };
          wire = w.wire ++ (write env w.state.batch).0;
        })

  pub data ReachCarried (s : Session) : Carried → Type 0 where
    connect : ReachCarried s (record { state = start s; wire = [] })
    goes_on : {w v : Carried} → ReachCarried s w → CarryStep w v → ReachCarried s v

  forget : {s : Session} {w : Carried} → ReachCarried s w → Reach s w.state
  forget connect = begin
  forget (goes_on r (elsewhere step quiet)) = next (forget r) step
  forget (goes_on r (written env busy alive good)) = next (forget r) (writes busy alive)
  forget (goes_on r (lost env e busy alive bad)) = next (forget r) (write_fails e busy alive)

  -- How much of the batch in hand has gone out.
  record Split (w : Carried) : Type 0 where
    front : List (List ℕ)
    rest : List (List ℕ)
    out : w.wire ≡ w.state.sent ++ front
    batch : w.state.batch ≡ front ++ rest
    none_out : w.state.done ≡ false → front ≡ []

  CarryStep-Split : {w v : Carried} → IsWriter write → CarryStep w v → Split w → Split v
  CarryStep-Split {w} law (elsewhere {u} step quiet) p =
      let q = Step-Quiet step quiet in
      elim q.batch [
        | inl same ↦ record {
          front = p.front;
          rest = p.rest;
          out = p.out ∙ ap (λ l. l ++ p.front) (sym q.sent);
          batch = same ∙ p.batch;
          none_out = λ alive. p.none_out (q.alive alive);
        }
        | inr alive ↦ record {
          front = [];
          rest = u.batch;
          out = p.out ∙ ap (◌++◌ w.state.sent) (p.none_out alive) ∙ ap (λ l. l ++ []) (sym q.sent);
          batch = refl;
          none_out = λ a. refl;
        }
      ]
  CarryStep-Split {w} law (written env busy alive good) p = record {
    front = [];
    rest = [];
    out =
        ap (λ l. l ++ (write env w.state.batch).0)
          (p.out ∙ ap (◌++◌ w.state.sent) (p.none_out alive) ∙ append-nil w.state.sent)
        ∙ ap (◌++◌ w.state.sent) (law.whole env w.state.batch good)
        ∙ sym (append-nil (w.state.sent ++ w.state.batch));
    batch = refl;
    none_out = λ a. refl;
  }
  CarryStep-Split {w} law (lost env e busy alive bad) p = record {
    front = (write env w.state.batch).0;
    rest = (law.front env w.state.batch).0;
    out =
        ap (λ l. l ++ (write env w.state.batch).0)
          (p.out ∙ ap (◌++◌ w.state.sent) (p.none_out alive) ∙ append-nil w.state.sent);
    batch = (law.front env w.state.batch).1;
    none_out = λ a. absurd (cc);
  }

  ReachCarried-Split : {s : Session} {w : Carried} → IsWriter write → ReachCarried s w → Split w
  ReachCarried-Split law connect = record {
    front = [];
    rest = [];
    out = refl;
    batch = refl;
    none_out = λ a. refl;
  }
  ReachCarried-Split law (goes_on r step) = CarryStep-Split law step (ReachCarried-Split law r)

  pub ReachCarried-Carries :
      (s : Session) (w : Carried) → IsFresh s → IsWriter write → ReachCarried s w → Carries w
  ReachCarried-Carries s w fresh law r =
      let p = ReachCarried-Split law r in
      let v = Reach-Inv s w.state fresh (forget r) in
      let out = w.state.session.out in
      record {
        later = p.rest ++ out;
        first_in_order =
            ap (λ l. l ++ (p.rest ++ out)) p.out
            ∙ append_assoc w.state.sent p.front (p.rest ++ out)
            ∙ ap (◌++◌ w.state.sent) (sym (append_assoc p.front p.rest out))
            ∙ ap (λ l. w.state.sent ++ (l ++ out)) (sym p.batch)
            ∙ v.fifo;
        all_sent =
            λ alive. p.out ∙ ap (◌++◌ w.state.sent) (p.none_out alive) ∙ append-nil w.state.sent;
      }

-- `writeMessages` of a WebSocket, with the answers of SetWriteDeadline and of WriteMessage.
abbrev pub web_socket_write :
    ServerConfig → Option Error × List (Option Error) → List (List ℕ) → List (List ℕ) × Option Error
web_socket_write cfg (set_deadline, answers) msgs =
    WebSocket.write_messages cfg.write_timeout set_deadline answers msgs

pub web_socket_write-IsWriter : (cfg : ServerConfig) → IsWriter (web_socket_write cfg)
unfolding WebSocket.write_messages
web_socket_write-IsWriter cfg = record {
  front = λ env msgs. elim (Bool-cases (ltb_ℤ (pos 0) cfg.write_timeout)) [
    | inr off ↦ rw off (write_loop-front env.1 msgs).0
    | inl on ↦ elim (Option-cases env.0) [
      | inl quiet ↦ rw (on, quiet) (write_loop-front env.1 msgs).0
      | inr (e, loud) ↦ rw (on, loud) (msgs, refl)
    ]
  ];
  whole = λ env msgs h. elim (Bool-cases (ltb_ℤ (pos 0) cfg.write_timeout)) [
    | inr off ↦ rw off ((write_loop-front env.1 msgs).1 (rw off at h))
    | inl on ↦ elim (Option-cases env.0) [
      | inl quiet ↦ rw (on, quiet) ((write_loop-front env.1 msgs).1 (rw (on, quiet) at h))
      | inr (e, loud) ↦ absurd (let f : some e ≡ none = rw (on, loud) at h in cc)
    ]
  ];
}

udp-front :
    (answers : List (Option Error)) (msgs : List (List ℕ))
    → ((rest : List (List ℕ)) × (msgs ≡ (Udp.write_messages answers msgs).0 ++ rest))
      × ((Udp.write_messages answers msgs).1 ≡ none → (Udp.write_messages answers msgs).0 ≡ msgs)
unfolding Udp.write_messages
udp-front answers [] = (([], refl), λ h. refl)
udp-front [] (m ∷ msgs) =
    let ((rest, e), all) = udp-front [] msgs in ((rest, ap (◌∷◌ m) e), λ h. ap (◌∷◌ m) (all h))
udp-front (none ∷ answers) (m ∷ msgs) =
    let ((rest, e), all) = udp-front answers msgs in ((rest, ap (◌∷◌ m) e), λ h. ap (◌∷◌ m) (all h))
udp-front (some e ∷ answers) (m ∷ msgs) = ((m ∷ msgs, refl), λ h. cc)

pub udp-IsWriter : IsWriter Udp.write_messages
udp-IsWriter = record {
  front = λ env msgs. (udp-front env msgs).0;
  whole = λ env msgs. (udp-front env msgs).1;
}

pub new_session-IsFresh :
    (parent : Option Error) (ref : SessionRef) (cfg : ServerConfig) (now : ℤ)
    → IsFresh (new_session parent ref cfg now)
unfolding new_session
new_session-IsFresh parent ref cfg now = record { out = refl; closed = refl; calls = refl }

-- A new session of a WebSocket or of a UDP address, whatever its goroutines and its connection do: the
-- frames or datagrams that have gone out are the first of the accepted messages, one for each, unchanged
-- and in order; and while the writer runs they are all that writeMessages was given.
pub new_session-Carries :
    (parent : Option Error) (ref : SessionRef) (cfg : ServerConfig) (now : ℤ) (w : Carried)
    → (ReachCarried (web_socket_write cfg) (new_session parent ref cfg now) w)
      ⊎ (ReachCarried Udp.write_messages (new_session parent ref cfg now) w)
    → Carries w
new_session-Carries parent ref cfg now w (inl r) =
    ReachCarried-Carries (web_socket_write cfg) (new_session parent ref cfg now) w
      (new_session-IsFresh parent ref cfg now) (web_socket_write-IsWriter cfg) r
new_session-Carries parent ref cfg now w (inr r) =
    ReachCarried-Carries Udp.write_messages (new_session parent ref cfg now) w
      (new_session-IsFresh parent ref cfg now) udp-IsWriter r
