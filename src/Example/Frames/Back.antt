-- ===== src/Example/Frames/Back.antt =====
-- example/wslistener: what a session sends back came from its client, in order.
use gopher_socks.Common.{
  ℕ, ◌≡◌, refl, sym, ap, ◌∙◌, List, [], ◌∷◌, ◌++◌, Option, some, false, append_assoc,
}
use gopher_socks.Common.Int.{ℤ}
use gopher_socks.Errors.{Error}
use gopher_socks.Listener.Config.{ServerConfig}
use gopher_socks.Listener.Server.{SessionRef}
use gopher_socks.Listener.WebSocket.{Round}
use gopher_socks.Listener.Session.{new_session, read_cause}
use gopher_socks.Listener.Session.Steps.{touches, closes}
use gopher_socks.Listener.Session.Messages.{web_socket_write, web_socket_write-IsWriter}
use gopher_socks.Example.Session as Inner
use gopher_socks.Example.Session.{Echo, EchoStep}
use gopher_socks.Example.Session.Parts.{moves, EchoStep-Moves}
use gopher_socks.Example.Session.Reading.{is_over, EchoStep-Unread}
use gopher_socks.Example.Session.Carrying.{
  Carrying, new_session-Carrying, Moves-Carrying, write_batch-Carrying, write_error-Carrying,
  Carrying-front, front_trans,
}
use gopher_socks.Example.Frames.{
  Talking, FrameStep, reads, read_fails, written, lost, inner, ReachTalking, begins, goes_on,
}
use gopher_socks.Example.Frames.Incoming.{incoming, incoming-first}

module _ (cfg : ServerConfig) (rounds : List Round) where
  -- The messages that were read are the first of those that come, and while the reader goes on the rest is
  -- still to come.
  record Inbound (x : Talking) : Type 0 where
    carrying : Carrying (web_socket_write cfg) x.echo x.sent
    unread : List (List ℕ)
    split : x.echo.feed.read ++ unread ≡ incoming cfg.read_timeout rounds
    still : is_over x.echo.feed.pump ≡ false → unread ≡ incoming cfg.read_timeout x.rounds

  FrameStep-Inbound : {x y : Talking} → FrameStep cfg x y → Inbound x → Inbound y
  FrameStep-Inbound {x} (reads front last rest m now q r) p =
      let later = incoming cfg.read_timeout rest in
      let first =
        p.still (ap is_over q)
        ∙ ap (incoming cfg.read_timeout) r.split
        ∙ incoming-first cfg.read_timeout front last rest m r.waits r.returns in
      record {
        carrying =
            Moves-Carrying (web_socket_write cfg) (Inner.reads m now q) (moves (touches now) refl)
              p.carrying;
        unread = later;
        split =
            append_assoc x.echo.feed.read (m ∷ []) later
            ∙ ap (◌++◌ x.echo.feed.read) (sym first)
            ∙ p.split;
        still = λ o. refl;
      }
  FrameStep-Inbound {x} (read_fails front last rest e q r) p = record {
    carrying =
        Moves-Carrying (web_socket_write cfg) (Inner.read_fails e q)
          (moves (closes (some (read_cause e))) refl) p.carrying;
    unread = p.unread;
    split = p.split;
    still = λ o. cc;
  }
  FrameStep-Inbound {x} (written env busy alive good) p = record {
    carrying = write_batch-Carrying (web_socket_write cfg) env busy alive good p.carrying;
    unread = p.unread;
    split = p.split;
    still = p.still;
  }
  FrameStep-Inbound {x} (lost env e busy alive bad) p = record {
    carrying = write_error-Carrying (web_socket_write cfg) env e busy alive bad p.carrying;
    unread = p.unread;
    split = p.split;
    still = p.still;
  }
  FrameStep-Inbound {x} (inner step h) p =
      let u = EchoStep-Unread step h in
      record {
        carrying = Moves-Carrying (web_socket_write cfg) step (EchoStep-Moves step h) p.carrying;
        unread = p.unread;
        split = ap (λ l. l ++ p.unread) u.read ∙ p.split;
        still = λ o. p.still (u.over o);
      }

  ReachTalking-Inbound :
      (parent : Option Error) (ref : SessionRef) (now : ℤ) {x : Talking}
      → ReachTalking cfg (new_session parent ref cfg now) rounds x
      → Inbound x
  ReachTalking-Inbound parent ref now begins = record {
    carrying = new_session-Carrying (web_socket_write cfg) parent ref cfg now;
    unread = incoming cfg.read_timeout rounds;
    split = refl;
    still = λ o. refl;
  }
  ReachTalking-Inbound parent ref now (goes_on r step) =
      FrameStep-Inbound step (ReachTalking-Inbound parent ref now r)

-- A session of a WebSocket server that runs the WebSocket listener program, whatever its goroutines do and
-- in whatever order, and whatever the connection answers: the frames that have gone out are the first of
-- the binary messages that the client has sent before the connection's first failure, one for each,
-- unchanged and in order.
pub frames_in_order :
    (cfg : ServerConfig) (parent : Option Error) (ref : SessionRef) (now : ℤ) (rounds : List Round)
    (x : Talking)
    → ReachTalking cfg (new_session parent ref cfg now) rounds x
    → (later : List (List ℕ)) × (x.sent ++ later ≡ incoming cfg.read_timeout rounds)
frames_in_order cfg parent ref now rounds x r =
    let p = ReachTalking-Inbound cfg rounds parent ref now r in
    let (later, front) =
      Carrying-front (web_socket_write cfg) x.echo x.sent (web_socket_write-IsWriter cfg)
        p.carrying in
    (later ++ p.unread, front_trans x.sent later p.unread front p.split)
