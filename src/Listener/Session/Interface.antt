-- ===== src/Listener/Session/Interface.antt =====
-- listener/types.go: the interface Session, and what it documents of its methods.
pub mod Shutting
pub mod Checks
pub mod Looping
pub mod Copying
pub mod Laws
mod Tests
use Prim.Native.String.{String}
use gopher_socks.Common.{
  ℕ, ◌≤◌, ◌<◌, ◌≡◌, ◌≢◌, ◌⊎◌, List, [], ◌∷◌, ◌++◌, Option, none, some, Bool, true, false, length,
  take,
}
use gopher_socks.Common.Int.{ℤ, pos, ltb_ℤ}
use gopher_socks.Errors.{Error, sentinel, slow_consumer, Result, ok, err}
use gopher_socks.Listener.Session.{
  Session, Ready, space, ended, expired, user_close, send, messages, ended_error, too_large_error,
}
use gopher_socks.Listener.Session.Pulling.{oks}
use gopher_socks.Listener.Session.Pump as Pump
use gopher_socks.Listener.Session.Pump.{Pumping, returned, Pumped, pump_data}

-- `Session`. `context` is the cause of the context once that has ended; `out` is what is queued for the client,
-- at most `send_queue_size` messages. `send_to_client` takes the case that its wait ends with, if it waits.
-- `data_channel` is what the goroutine behind Data does while a consumer empties the channel: the answers
-- are what each of its selects takes, true for the end of the context; the result tells whether the channel
-- is closed and what was put into it. Listener.Session.Feed has that goroutine beside the consumer.
pub record SessionMethods (S : Type 0) : Type 0 where
  pub send_to_client : List ℕ → Ready → S → Option Error × S
  pub messages : ℤ → ℕ → List (Result (List ℕ)) → S → List (List ℕ) × List (Result (List ℕ)) × S
  pub data_channel : ℤ → List Bool → List (Result (List ℕ)) → S → Bool × List (List ℕ) × S
  pub close_session : S → S
  pub context : S → Option Error
  pub get_session_id : S → ℕ
  pub get_client_addr : S → String
  pub get_last_received : S → ℤ
  pub out : S → List (List ℕ)
  pub send_queue_size : S → ℕ
  pub max_length : S → ℤ

-- What a method may do to a session whatever it is called with: the client stays the same, and a context that
-- has ended keeps its cause.
pub record Continues {S : Type 0} (m : SessionMethods S) (s s' : S) : Type 0 where
  pub id : m.get_session_id s' ≡ m.get_session_id s
  pub addr : m.get_client_addr s' ≡ m.get_client_addr s
  pub cause : (e : Error) → m.context s ≡ some e → m.context s' ≡ some e

module _ {S : Type 0} (m : SessionMethods S) (msg : List ℕ) (s : S) where
  abbrev pub Fits : Type 0
  Fits = ltb_ℤ (m.max_length s) (pos (length msg)) ≡ false

  abbrev pub IsFull : Type 0
  IsFull = m.send_queue_size s ≤ length (m.out s)

-- How SendToClient ends, and when: a message that is too long is refused; one to a session whose context has
-- ended is; else it is queued behind the others where there is room, and where there is none what the wait
-- ends with decides: there is room now; the context has ended; or WriteTimeout is over, the session is
-- closed and nothing is queued. A refusal changes nothing.
pub data Sends {S : Type 0} (m : SessionMethods S) (msg : List ℕ) (s : S)
    : Ready → Option Error × S → Type 0 where
  too_long :
      (r : Ready)
      → ltb_ℤ (m.max_length s) (pos (length msg)) ≡ true
      → Sends m msg s r (some too_large_error, s)
  has_ended :
      (r : Ready) (e : Error)
      → Fits m msg s
      → m.context s ≡ some e
      → Sends m msg s r (some (ended_error e), s)
  is_queued :
      (r : Ready) (s' : S)
      → Fits m msg s
      → m.context s ≡ none
      → (length (m.out s) < m.send_queue_size s) ⊎ (r ≡ space)
      → m.context s' ≡ none
      → m.out s' ≡ m.out s ++ msg ∷ []
      → Sends m msg s r (none, s')
  ends_waiting :
      (e : Error)
      → Fits m msg s
      → m.context s ≡ none
      → IsFull m msg s
      → Sends m msg s (ended e) (some (ended_error e), s)
  is_slow :
      (s' : S)
      → Fits m msg s
      → m.context s ≡ none
      → IsFull m msg s
      → m.context s' ≢ none
      → m.out s' ≡ m.out s
      → Sends m msg s expired (some (sentinel slow_consumer), s')

-- The messages before the first read that failed.
abbrev pub before_failure : List (Result (List ℕ)) → List (List ℕ)
before_failure [] = []
before_failure (err e ∷ reads) = []
before_failure (ok m ∷ reads) = m ∷ before_failure reads

-- For each of these messages, the select takes the channel.
abbrev pub takes : List (List ℕ) → List Bool
takes [] = []
takes (m ∷ ms) = false ∷ takes ms

-- What the comments say of Messages.
pub record IsMessages {S : Type 0} (m : SessionMethods S) (Sound : S → Type 0) : Type 0 where
  pub yields :
      (now : ℤ) (wants : ℕ) (reads : List (Result (List ℕ))) (s : S)
      → 1 ≤ wants
      → (m.messages now wants reads s).0 ≡ take wants (before_failure reads)
  pub reads_no_more :
      (now : ℤ) (front : List (List ℕ)) (reads : List (Result (List ℕ))) (s : S)
      → 1 ≤ length front
      → (m.messages now (length front) (oks front ++ reads) s).1 ≡ reads
  pub stops :
      (now : ℤ) (wants : ℕ) (front : List (List ℕ)) (e : Error) (reads : List (Result (List ℕ)))
      (s : S)
      → length front < wants
      → Sound s
      → m.context (m.messages now wants (oks front ++ err e ∷ reads) s).2 ≢ none
  pub continues :
      (now : ℤ) (wants : ℕ) (reads : List (Result (List ℕ))) (s : S)
      → let s' = (m.messages now wants reads s).2 in
        Continues m s s' × (m.out s' ≡ m.out s) × (Sound s → Sound s')
  pub last_received :
      (now : ℤ) (wants : ℕ) (reads : List (Result (List ℕ))) (s : S)
      → let r = m.messages now wants reads s in
        m.get_last_received r.2 ≡ elim r.0 [ [] ↦ m.get_last_received s | y ∷ ys ↦ now ]

-- What the comments say of Data.
pub record IsData {S : Type 0} (m : SessionMethods S) (Sound : S → Type 0) : Type 0 where
  pub puts :
      (now : ℤ) (answers : List Bool) (reads : List (Result (List ℕ))) (s : S)
      → (rest : List (List ℕ)) × (before_failure reads
          ≡ (m.data_channel now answers reads s).1 ++ rest)
  pub puts_all :
      (now : ℤ) (answers : List Bool) (front : List (List ℕ)) (s : S)
      → let r = m.data_channel now (takes front ++ answers) (oks front) s in
        (r.1 ≡ front) × (r.0 ≡ false)
  pub closes_failed :
      (now : ℤ) (answers : List Bool) (front : List (List ℕ)) (e : Error)
      (reads : List (Result (List ℕ))) (s : S)
      → let r = m.data_channel now (takes front ++ answers) (oks front ++ err e ∷ reads) s in
        (r.0 ≡ true) × (r.1 ≡ front) × (Sound s → m.context r.2 ≢ none)
  pub closes_ended :
      (now : ℤ) (answers : List Bool) (front : List (List ℕ)) (msg : List ℕ)
      (reads : List (Result (List ℕ))) (s : S)
      → let r =
          m.data_channel now (takes front ++ true ∷ answers) (oks front ++ ok msg ∷ reads) s in
        (r.0 ≡ true) × (r.1 ≡ front)
  pub continues :
      (now : ℤ) (answers : List Bool) (reads : List (Result (List ℕ))) (s : S)
      → let s' = (m.data_channel now answers reads s).2 in
        Continues m s s' × (m.out s' ≡ m.out s) × (Sound s → Sound s')

-- What the comments say of the methods, of a session that is `Sound`.
pub record IsSession {S : Type 0} (m : SessionMethods S) (Sound : S → Type 0) : Type 0 where
  pub sends :
      (msg : List ℕ) (r : Ready) (s : S) → Sound s → Sends m msg s r (m.send_to_client msg r s)
  pub send_continues :
      (msg : List ℕ) (r : Ready) (s : S)
      → Continues m s (m.send_to_client msg r s).1 × (Sound s → Sound (m.send_to_client msg r s).1)
  pub pulls : IsMessages m Sound
  pub channel : IsData m Sound
  pub closes : (s : S) → Sound s → m.context (m.close_session s) ≢ none
  pub closes_once : (s : S) → m.close_session (m.close_session s) ≡ m.close_session s
  pub close_continues :
      (s : S)
      → Continues m s (m.close_session s)
        × (m.out (m.close_session s) ≡ m.out s)
        × (Sound s → Sound (m.close_session s))

abbrev pub is_closed : Pumping → Bool
is_closed Pump.waits = false
is_closed returned = true

-- The session of the four servers.
unfoldable pub session_methods : SessionMethods Session
session_methods = record {
  send_to_client = send;
  messages = messages;
  data_channel = λ now answers reads s.
      let p = pump_data now answers reads s in (is_closed p.state, p.put, p.session);
  close_session = user_close;
  context = λ s. s.cause;
  get_session_id = λ s. s.ref.id;
  get_client_addr = λ s. s.ref.addr;
  get_last_received = λ s. s.last;
  out = λ s. s.out;
  send_queue_size = λ s. s.queue;
  max_length = λ s. s.max_len;
}
