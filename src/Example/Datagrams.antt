-- ===== src/Example/Datagrams.antt =====
-- example/udplistener over listener/udp.go and listener/session.go: the read loop, the ticks of reapIdle and
-- the closings of a UDP server beside all the goroutines of its sessions.
pub mod Back
mod Tests
use Prim.Native.String.{String}
use gopher_socks.Common.{
  ℕ, ◌≤◌, ◌<◌, ◌≡◌, ◌≢◌, List, [], ◌∷◌, ◌++◌, ◌*◌, ◌^◌, Option, none, some, Bool, true, false,
  length,
}
use gopher_socks.Common.Int.{ℤ, pos, ltb_ℤ, ◌-ℤ◌}
use gopher_socks.Errors.{Error, ok, err}
use gopher_socks.Listener.Server.{SessionRef}
use gopher_socks.Listener.Udp.{UdpServer, max_udp_payload, set, read_message, write_messages}
use gopher_socks.Listener.Udp.Steps as Server
use gopher_socks.Listener.Udp.Steps.{State, give, serve_datagram}
use gopher_socks.Listener.Session.{Session, new_session}
use gopher_socks.Listener.Session.Feed.{reading}
use gopher_socks.Example.Session as Inner
use gopher_socks.Example.Session.{
  Echo, EchoStep, ranging, echoed, is_inner, is_round, read_one, read_error, write_batch,
  write_error,
}

-- `at` has what runs for the session at a pointer, and `sent` the datagrams that went out for it.
pub record Serving : Type 0 where
  pub server : State
  pub at : ℕ → Echo
  pub sent : ℕ → List (List ℕ)

-- Steps of the server in which no session reads and no datagram comes.
abbrev pub is_elsewhere : {t u : State} → Server.Step t u → Bool
is_elsewhere (Server.datagram now addr d h) = false
is_elsewhere (Server.reads i done first m rest h) = false
is_elsewhere _ = true

abbrev pub minute : ℤ
minute = pos (60 * 10 ^ 9)

-- A datagram gives the next pointer to a session, which nobody uses if the datagram opens none; the server's
-- part of closing a session, and the session's own, are steps of their own.
pub data ServingStep (x : Serving) : Serving → Type 0 where
  datagram :
      (parent : Option Error) (now : ℤ) (addr : String) (d : List ℕ)
      → length d ≤ max_udp_payload
      → ServingStep x (record {
        server = serve_datagram now addr d x.server;
        at = set x.at x.server.fresh (
            Inner.serving (
              new_session parent
                (record { id = x.server.fresh; addr = addr })
                x.server.udp.cfg
                now));
        sent = set x.sent x.server.fresh [];
      })
  elsewhere :
      {t : State} (step : Server.Step x.server t)
      → is_elsewhere step ≡ true
      → ServingStep x (record x { server = t })
  reads :
      (i : ℕ) (done first : Bool) (m : List ℕ) (rest : List (List ℕ)) (now : ℤ)
      → i < x.server.fresh
      → (x.at i).feed.pump ≡ reading
      → read_message done first (x.server.udp.inbox i) ≡ some (ok m, rest)
      → ServingStep x
          (record x { server = give i m rest x.server; at = set x.at i (read_one m now (x.at i)) })
  read_fails :
      (i : ℕ) (done first : Bool) (e : Error) (rest : List (List ℕ))
      → i < x.server.fresh
      → (x.at i).feed.pump ≡ reading
      → read_message done first (x.server.udp.inbox i) ≡ some (err e, rest)
      → ServingStep x (record x { at = set x.at i (read_error e (x.at i)) })
  written :
      (i : ℕ) (answers : List (Option Error))
      → i < x.server.fresh
      → (x.at i).state.batch ≢ []
      → (x.at i).state.done ≡ false
      → (write_messages answers (x.at i).state.batch).1 ≡ none
      → ServingStep x (record x {
        at = set x.at i (write_batch (x.at i));
        sent = set x.sent i (x.sent i ++ (write_messages answers (x.at i).state.batch).0);
      })
  lost :
      (i : ℕ) (answers : List (Option Error)) (e : Error)
      → i < x.server.fresh
      → (x.at i).state.batch ≢ []
      → (x.at i).state.done ≡ false
      → (write_messages answers (x.at i).state.batch).1 ≡ some e
      → ServingStep x (record x {
        at = set x.at i (write_error e (x.at i));
        sent = set x.sent i (x.sent i ++ (write_messages answers (x.at i).state.batch).0);
      })
  leaves :
      (i : ℕ) (now : ℤ) (q : (x.at i).handler ≡ echoed)
      → i < x.server.fresh
      → ltb_ℤ minute (now -ℤ (x.at i).state.session.last) ≡ true
      → ServingStep x (record x { at = set x.at i (Inner.leave (x.at i)) })
  goes_round :
      (i : ℕ) (now : ℤ) (q : (x.at i).handler ≡ echoed)
      → i < x.server.fresh
      → ltb_ℤ minute (now -ℤ (x.at i).state.session.last) ≡ false
      → ServingStep x (record x { at = set x.at i (record (x.at i) { handler = ranging }) })
  inner :
      (i : ℕ) {e : Echo} (step : EchoStep (x.at i) e)
      → i < x.server.fresh
      → is_inner step ≡ true
      → is_round step ≡ false
      → ServingStep x (record x { at = set x.at i e })

abbrev nobody : SessionRef
nobody = record { id = 0; addr = "" }

abbrev pub begin_serving : UdpServer → Serving
begin_serving u = record {
  server = Server.start u;
  at = λ i. Inner.serving (new_session none nobody u.cfg (pos 0));
  sent = λ i. [];
}

pub data ReachServing (u : UdpServer) : Serving → Type 0 where
  begins : ReachServing u (begin_serving u)
  goes_on : {x y : Serving} → ReachServing u x → ServingStep x y → ReachServing u y

-- With the sessions left out, these are steps of Listener.Udp.Steps.
pub ReachServing-Reach : {u : UdpServer} {x : Serving} → ReachServing u x → Server.Reach u x.server
ReachServing-Reach begins = Server.begin
ReachServing-Reach (goes_on r (datagram parent now addr d h)) =
    Server.next (ReachServing-Reach r) (Server.datagram now addr d h)
ReachServing-Reach (goes_on r (elsewhere step h)) = Server.next (ReachServing-Reach r) step
ReachServing-Reach (goes_on r (reads i done first m rest now old q e)) =
    Server.next (ReachServing-Reach r) (Server.reads i done first m rest e)
ReachServing-Reach (goes_on r (read_fails i done first e rest old q h)) = ReachServing-Reach r
ReachServing-Reach (goes_on r (written i answers old busy alive good)) = ReachServing-Reach r
ReachServing-Reach (goes_on r (lost i answers e old busy alive bad)) = ReachServing-Reach r
ReachServing-Reach (goes_on r (leaves i now q old stale)) = ReachServing-Reach r
ReachServing-Reach (goes_on r (goes_round i now q old young)) = ReachServing-Reach r
ReachServing-Reach (goes_on r (inner i step old h away)) = ReachServing-Reach r
