-- ===== src/Listener/Session.antt =====
-- listener/session.go: one client connection. Each function runs on one goroutine with no other in
-- between; Session.Steps has the goroutines of a session beside one another.
pub mod Steps
pub mod Batch
pub mod Closing
pub mod Delivery
pub mod Pulling
pub mod Pump
pub mod TooLong
pub mod Wire
pub mod Arrival
pub mod Reading
pub mod Messages
pub mod Feed
pub mod Feeding
pub mod Interface
mod FeedTests
mod MessagesTests
mod Tests
use gopher_socks.Common.{
  ℕ, ◌+◌, ◌-◌, ◌<◌, ◌≡◌, List, [], ◌∷◌, ◌++◌, Option, none, some, Bool, true, false, length, ltb,
  if◌then◌else◌, ◌||◌,
}
use gopher_socks.Common.Int.{ℤ, pos, ltb_ℤ, max_ℤ, pos_part}
use gopher_socks.Errors.{
  Error, sentinel, eof, net_closed, slow_consumer, session_closed, message_too_large, network,
  protocol, session, errors_is, Result, ok, err,
}
use gopher_socks.Listener.Config.{ServerConfig, default_send_queue_size}
use gopher_socks.Listener.Server.{SessionRef, or_cause}

abbrev pub max_batch : ℕ
max_batch = 128

-- What `closeWith` calls.
pub data CloseCall : Type 0 where
  on_close : CloseCall
  transport_close : Error → CloseCall
  cancel_context : Error → CloseCall

-- `session`. `out` is the channel of that name, with its capacity `queue`; `cause` is
-- context.Cause(s.ctx); `closed` says that closeOnce has run, and `calls` what it has called, in order.
-- `last` counts nanoseconds.
pub record Session : Type 0 where
  pub ref : SessionRef
  pub out : List (List ℕ)
  pub queue : ℕ
  pub last : ℤ
  pub max_len : ℤ
  pub send_wait : ℤ
  pub buf_size : ℤ
  pub cause : Option Error
  pub closed : Bool
  pub calls : List CloseCall

-- `newSession`, at the time `now`; `parent` is the cause of the parent context.
unfoldable pub new_session : Option Error → SessionRef → ServerConfig → ℤ → Session
new_session parent ref cfg now = record {
  ref = ref;
  out = [];
  queue =
      if ltb_ℤ cfg.send_queue_size (pos 1)
      then default_send_queue_size
      else pos_part cfg.send_queue_size;
  last = now;
  max_len = pos cfg.max_length;
  send_wait = cfg.write_timeout;
  buf_size = max_ℤ cfg.buffer_size (pos 1);
  cause = parent;
  closed = false;
  calls = [];
}

unfoldable pub touch : ℤ → Session → Session
touch now s = record s { last = now }

-- The cancel function of the context: the first cause stays.
abbrev pub cancel : Error → Session → Session
cancel e s = record s { cause = some (or_cause s.cause e) }

-- `closeWith`; `none` is a nil cause.
unfoldable pub close_with : Option Error → Session → Session
close_with cause s =
    if s.closed
    then s
    else let e = or_cause cause (sentinel session_closed) in
      cancel e (record s {
        closed = true;
        calls = s.calls ++ on_close ∷ transport_close e ∷ cancel_context e ∷ [];
      })

-- `CloseSession`.
unfoldable pub user_close : Session → Session
unfolding close_with
user_close s = close_with (some (sentinel session_closed)) s

-- `readCause`.
unfoldable pub read_cause : Error → Error
read_cause e = if errors_is e eof || errors_is e net_closed then sentinel session_closed else e

-- How the part of `SendToClient` before `waitToSend` ends.
pub data Sending : Type 0 where
  refused : Error → Sending
  queued : Sending
  waits : Sending

abbrev pub enqueue : List ℕ → Session → Session
enqueue msg s = record s { out = s.out ++ msg ∷ [] }

-- A session whose context has ended.
abbrev pub ended_error : Error → Error
ended_error e = network session "session closed" e

abbrev pub too_large_error : Error
too_large_error = network protocol "message exceeds maximum length" (sentinel message_too_large)

-- `SendToClient` without its last line.
unfoldable pub send_to_client : List ℕ → Session → Sending × Session
send_to_client msg s =
    if ltb_ℤ s.max_len (pos (length msg)) then (refused too_large_error, s) else elim s.cause [
      | some e ↦ (refused (ended_error e), s)
      | none ↦ if ltb (length s.out) s.queue then (queued, enqueue msg s) else (waits, s)
    ]

-- Which case the select of `waitToSend` takes.
pub data Ready : Type 0 where
  space : Ready
  ended : Error → Ready
  expired : Ready

-- The case is ready: there is room, the context has ended, the timer (made only for a positive
-- `sendWait`) has fired.
abbrev pub IsReady : Session → Ready → Type 0
IsReady s space = length s.out < s.queue
IsReady s (ended e) = s.cause ≡ some e
IsReady s expired = ltb_ℤ (pos 0) s.send_wait ≡ true

-- `waitToSend`, with the case that its select takes; `none` is a nil error.
unfoldable pub wait_to_send : List ℕ → Ready → Session → Option Error × Session
unfolding close_with
wait_to_send msg space s = (none, enqueue msg s)
wait_to_send msg (ended e) s = (some (ended_error e), s)
wait_to_send msg expired s =
    (some (sentinel slow_consumer), close_with (some (sentinel slow_consumer)) s)

abbrev pub sending : List ℕ → Ready → Sending × Session → Option Error × Session
sending msg ready (refused e, s) = (some e, s)
sending msg ready (queued, s) = (none, s)
sending msg ready (waits, s) = wait_to_send msg ready s

-- `SendToClient`, with the case that the select of `waitToSend` takes if it comes to that.
unfoldable pub send : List ℕ → Ready → Session → Option Error × Session
send msg ready s = sending msg ready (send_to_client msg s)

-- `fillBatch`: the batch, and what is left in the channel.
unfoldable pub fill_batch : List (List ℕ) → List (List ℕ) → List (List ℕ) × List (List ℕ)
fill_batch batch [] = (batch, [])
fill_batch batch (m ∷ out) =
    let more = fill_batch (batch ++ m ∷ []) out in
    if ltb (length batch) max_batch then more else (batch, m ∷ out)

-- `Messages`: `reads` is what readMessage will return, call by call, and `wants` how many messages the
-- consumer takes before its yield returns false. The result is what was yielded and what was not read.
unfoldable pub messages :
    ℤ → ℕ → List (Result (List ℕ)) → Session → List (List ℕ) × List (Result (List ℕ)) × Session
unfolding close_with read_cause touch
messages now wants [] s = ([], [], s)
messages now wants (err e ∷ reads) s = ([], reads, close_with (some (read_cause e)) s)
messages now wants (ok m ∷ reads) s =
    let (yielded, left, s') = messages now (wants - 1) reads (touch now s) in
    if ltb wants 2 then (m ∷ [], reads, touch now s) else (m ∷ yielded, left, s')
