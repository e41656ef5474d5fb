-- ===== src/Listener/Session/Feed.antt =====
-- session.go, Data and pumpData: the goroutine that reads ahead into the channel, beside the consumer and
-- whatever else the session's goroutines do.
use gopher_socks.Common.{
  ℕ, ◌<◌, ◌≡◌, ◌≢◌, List, [], ◌∷◌, ◌++◌, Option, none, some, Bool, true, false, length,
}
use gopher_socks.Common.Int.{ℤ, pos_part}
use gopher_socks.Errors.{Error}
use gopher_socks.Listener.Session.{Session, touch, close_with, read_cause}

-- Where the goroutine is: Data has not been called; it is in readMessage; it has this message and waits in
-- its select; it has returned, with the message that it then had.
pub data Pump : Type 0 where
  unstarted : Pump
  reading : Pump
  holding : List ℕ → Pump
  over : Option (List ℕ) → Pump

-- `channel` is the channel of Data with `closed` for its close; `read` is what readMessage has returned
-- and `taken` what the consumer has received, in order.
pub record Feed : Type 0 where
  pub session : Session
  pub pump : Pump
  pub channel : List (List ℕ)
  pub closed : Bool
  pub read : List (List ℕ)
  pub taken : List (List ℕ)

abbrev pub fresh_feed : Session → Feed
fresh_feed s = record {
  session = s;
  pump = unstarted;
  channel = [];
  closed = false;
  read = [];
  taken = [];
}

-- A session that has been closed has had its context ended.
abbrev pub IsEnded : Session → Type 0
IsEnded s = s.closed ≡ true → s.cause ≢ none

-- What the rest of the program may do to a session: it does not change the buffer size, a context that
-- has ended stays so, and closing ends it.
pub record Keeps (s s' : Session) : Type 0 where
  pub buf_size : s'.buf_size ≡ s.buf_size
  pub ended : s.cause ≢ none → s'.cause ≢ none
  pub closing : IsEnded s → IsEnded s'

pub data FeedStep (f : Feed) : Feed → Type 0 where
  calls_first : f.pump ≡ unstarted → FeedStep f (record f { pump = reading })
  calls_again : f.pump ≢ unstarted → FeedStep f f
  reads :
      (m : List ℕ) (now : ℤ)
      → f.pump ≡ reading
      → FeedStep f
          (record f { session = touch now f.session; pump = holding m; read = f.read ++ m ∷ [] })
  read_fails :
      (e : Error)
      → f.pump ≡ reading
      → FeedStep f (record f {
        session = close_with (some (read_cause e)) f.session;
        pump = over none;
        closed = true;
      })
  puts :
      (m : List ℕ)
      → f.pump ≡ holding m
      → length f.channel < pos_part f.session.buf_size
      → FeedStep f (record f { pump = reading; channel = f.channel ++ m ∷ [] })
  gives_up :
      (m : List ℕ) (e : Error)
      → f.pump ≡ holding m
      → f.session.cause ≡ some e
      → FeedStep f (record f { pump = over (some m); closed = true })
  takes :
      (m : List ℕ) (rest : List (List ℕ))
      → f.channel ≡ m ∷ rest
      → FeedStep f (record f { channel = rest; taken = f.taken ++ m ∷ [] })
  elsewhere : (s : Session) → Keeps f.session s → FeedStep f (record f { session = s })

pub data ReachFeed (s : Session) : Feed → Type 0 where
  opens : ReachFeed s (fresh_feed s)
  goes_on : {f g : Feed} → ReachFeed s f → FeedStep f g → ReachFeed s g
