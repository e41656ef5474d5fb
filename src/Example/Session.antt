-- ===== src/Example/Session.antt =====
-- example/quiclistener, tcplistener and udplistener over listener/session.go: one session with all its
-- goroutines: the one behind Data, the handler that echoes, the writer, and whoever closes it. What the
-- transport reads and writes is left open here.
pub mod Parts
pub mod Passing
pub mod Reading
pub mod Carrying
use gopher_socks.Common.{ℕ, ◌≡◌, ◌≢◌, List, [], ◌∷◌, ◌++◌, none, some, Bool, true, false}
use gopher_socks.Common.Int.{ℤ}
use gopher_socks.Errors.{Error}
use gopher_socks.Listener.Session.{
  Session, touch, close_with, user_close, read_cause, send_to_client, wait_to_send, queued, refused,
  waits, IsReady, space, ended, expired,
}
use gopher_socks.Listener.Session.Steps.{
  State, Step, takes, writer_exits, closes, parent_ends, accept, start, with_session,
}
use gopher_socks.Listener.Session.Feed as Feeding
use gopher_socks.Listener.Session.Feed.{Feed, FeedStep, reading}

-- Where handleSession is: in the loop over Data; with a message to send; waiting in SendToClient for room;
-- behind SendToClient, which has returned nil; it has returned, with the message that it then had.
pub data Handler : Type 0 where
  ranging : Handler
  sending : List ℕ → Handler
  waiting : List ℕ → Handler
  echoed : Handler
  finished : List (List ℕ) → Handler

-- `feed` and `state` have the same session: `feed` as Data sees it and `state` as SendToClient does.
pub record Echo : Type 0 where
  pub feed : Feed
  pub state : State
  pub handler : Handler

-- Steps of the goroutine behind Data that do not touch the session.
abbrev pub is_local : {f g : Feed} → FeedStep f g → Bool
is_local (Feeding.calls_first q) = true
is_local (Feeding.calls_again q) = true
is_local (Feeding.puts m q room) = true
is_local (Feeding.gives_up m e q h) = true
is_local _ = false

-- Steps of a session that are neither the handler's nor its reader's, and in which nothing is written.
abbrev pub is_other : {t u : State} → Step t u → Bool
is_other (takes m rest d idle e) = true
is_other (writer_exits e c idle) = true
is_other (closes e) = true
is_other (parent_ends e) = true
is_other _ = false

-- The session in a new state, as both sides have it.
abbrev pub with_state : Echo → State → Handler → Echo
with_state x t h = record { feed = record (x.feed) { session = t.session }; state = t; handler = h }

-- readMessage has returned `m`.
abbrev pub read_one : List ℕ → ℤ → Echo → Echo
read_one m now x = record x {
  feed = record (x.feed) {
    session = touch now x.feed.session;
    pump = Feeding.holding m;
    read = x.feed.read ++ m ∷ [];
  };
  state = with_session x.state (touch now x.state.session);
}

-- readMessage has returned the error `e`.
abbrev pub read_error : Error → Echo → Echo
read_error e x = record x {
  feed = record (x.feed) {
    session = close_with (some (read_cause e)) x.feed.session;
    pump = Feeding.over none;
    closed = true;
  };
  state = with_session x.state (close_with (some (read_cause e)) x.state.session);
}

-- writeMessages has returned nil.
abbrev pub write_batch : Echo → Echo
write_batch x = record x {
  state = record (x.state) { batch = []; sent = x.state.sent ++ x.state.batch };
}

-- writeMessages has returned the error `e`.
abbrev pub write_error : Error → Echo → Echo
write_error e x =
    with_state x (record (x.state) { session = close_with (some e) x.state.session; done = true })
      x.handler

-- The handler has called CloseSession and returns.
abbrev pub leave : Echo → Echo
leave x = with_state x (with_session x.state (user_close x.state.session)) (finished [])

pub data EchoStep (x : Echo) : Echo → Type 0 where
  reads : (m : List ℕ) (now : ℤ) → x.feed.pump ≡ reading → EchoStep x (read_one m now x)
  read_fails : (e : Error) → x.feed.pump ≡ reading → EchoStep x (read_error e x)
  writes : x.state.batch ≢ [] → x.state.done ≡ false → EchoStep x (write_batch x)
  write_fails :
      (e : Error) → x.state.batch ≢ [] → x.state.done ≡ false → EchoStep x (write_error e x)
  pumps :
      {f : Feed} (step : FeedStep x.feed f)
      → is_local step ≡ true
      → EchoStep x (record x { feed = f })
  ranges :
      (m : List ℕ) (rest : List (List ℕ))
      → x.handler ≡ ranging
      → x.feed.channel ≡ m ∷ rest
      → EchoStep x (record x {
        feed = record (x.feed) { channel = rest; taken = x.feed.taken ++ m ∷ [] };
        handler = sending m;
      })
  ends_range :
      x.handler ≡ ranging
      → x.feed.channel ≡ []
      → x.feed.closed ≡ true
      → EchoStep x (record x { handler = finished [] })
  queues :
      (m : List ℕ)
      → x.handler ≡ sending m
      → (send_to_client m x.state.session).0 ≡ queued
      → EchoStep x (with_state x (accept m x.state) echoed)
  is_refused :
      (m : List ℕ) (e : Error)
      → x.handler ≡ sending m
      → (send_to_client m x.state.session).0 ≡ refused e
      → EchoStep x (record x { handler = finished (m ∷ []) })
  blocks :
      (m : List ℕ)
      → x.handler ≡ sending m
      → (send_to_client m x.state.session).0 ≡ waits
      → EchoStep x (record x {
        state = record (x.state) { waiting = m ∷ x.state.waiting };
        handler = waiting m;
      })
  gets_room :
      (front : List (List ℕ)) (m : List ℕ) (back : List (List ℕ))
      → x.handler ≡ waiting m
      → x.state.waiting ≡ front ++ m ∷ back
      → IsReady x.state.session space
      → EchoStep x (with_state x (record (accept m x.state) { waiting = front ++ back }) echoed)
  finds_ended :
      (front : List (List ℕ)) (m : List ℕ) (back : List (List ℕ)) (e : Error)
      → x.handler ≡ waiting m
      → x.state.waiting ≡ front ++ m ∷ back
      → IsReady x.state.session (ended e)
      → EchoStep x (record x {
        state = record (x.state) { waiting = front ++ back };
        handler = finished (m ∷ []);
      })
  is_slow :
      (front : List (List ℕ)) (m : List ℕ) (back : List (List ℕ))
      → x.handler ≡ waiting m
      → x.state.waiting ≡ front ++ m ∷ back
      → IsReady x.state.session expired
      → EchoStep x (
          with_state x
            (record (x.state) {
              session = (wait_to_send m expired x.state.session).1;
              waiting = front ++ back;
            })
            (finished (m ∷ [])))
  goes_round : x.handler ≡ echoed → EchoStep x (record x { handler = ranging })
  leaves : x.handler ≡ echoed → EchoStep x (leave x)
  others :
      {t : State} (step : Step x.state t)
      → is_other step ≡ true
      → EchoStep x (with_state x t x.handler)

-- Steps that need no answer of the transport, in any of the programs.
abbrev pub is_inner : {x y : Echo} → EchoStep x y → Bool
is_inner (reads m now q) = false
is_inner (read_fails e q) = false
is_inner (writes busy alive) = false
is_inner (write_fails e busy alive) = false
is_inner (leaves q) = false
is_inner _ = true

-- The handler goes back to the head of its loop.
abbrev pub is_round : {x y : Echo} → EchoStep x y → Bool
is_round (goes_round q) = true
is_round _ = false

-- The session `s` when it begins to be served.
abbrev pub serving : Session → Echo
serving s = record { feed = Feeding.fresh_feed s; state = start s; handler = ranging }

pub data ReachEcho (s : Session) : Echo → Type 0 where
  begins : ReachEcho s (serving s)
  goes_on : {x y : Echo} → ReachEcho s x → EchoStep x y → ReachEcho s y
