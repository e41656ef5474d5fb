-- ===== src/Example/Frames.antt =====
-- example/wslistener over listener/websocket.go and listener/session.go: the echoing session of a WebSocket,
-- with what its client sends and what goes out.
pub mod Incoming
pub mod Back
mod Tests
use gopher_socks.Common.{ℕ, ◌≡◌, ◌≢◌, List, [], ◌∷◌, ◌++◌, Option, none, some, true, false}
use gopher_socks.Common.Int.{ℤ}
use gopher_socks.Errors.{Error, ok, err}
use gopher_socks.Listener.Config.{ServerConfig}
use gopher_socks.Listener.Session.{Session}
use gopher_socks.Listener.Session.Feed.{reading}
use gopher_socks.Listener.Session.Messages.{web_socket_write}
use gopher_socks.Listener.WebSocket.{Round, read_message}
use gopher_socks.Example.Session as Inner
use gopher_socks.Example.Session.{
  Echo, EchoStep, is_inner, read_one, read_error, write_batch, write_error,
}

-- `rounds` is what the connection will still answer to readMessage, and `sent` the frames that went out.
pub record Talking : Type 0 where
  pub echo : Echo
  pub rounds : List Round
  pub sent : List (List ℕ)

-- A call of readMessage goes through the rounds up to the first at which it returns.
pub record Returns (cfg : ServerConfig) (rounds front : List Round) (last : Round)
    (rest : List Round) (res : gopher_socks.Errors.Result (List ℕ)) : Type 0 where
  pub split : rounds ≡ front ++ last ∷ rest
  pub waits : read_message cfg.read_timeout front ≡ none
  pub returns : read_message cfg.read_timeout (front ++ last ∷ []) ≡ some res

pub data FrameStep (cfg : ServerConfig) (x : Talking) : Talking → Type 0 where
  reads :
      (front : List Round) (last : Round) (rest : List Round) (m : List ℕ) (now : ℤ)
      → x.echo.feed.pump ≡ reading
      → Returns cfg x.rounds front last rest (ok m)
      → FrameStep cfg x (record x { echo = read_one m now x.echo; rounds = rest })
  read_fails :
      (front : List Round) (last : Round) (rest : List Round) (e : Error)
      → x.echo.feed.pump ≡ reading
      → Returns cfg x.rounds front last rest (err e)
      → FrameStep cfg x (record x { echo = read_error e x.echo; rounds = rest })
  written :
      (env : Option Error × List (Option Error))
      → x.echo.state.batch ≢ []
      → x.echo.state.done ≡ false
      → (web_socket_write cfg env x.echo.state.batch).1 ≡ none
      → FrameStep cfg x (record x {
        echo = write_batch x.echo;
        sent = x.sent ++ (web_socket_write cfg env x.echo.state.batch).0;
      })
  lost :
      (env : Option Error × List (Option Error)) (e : Error)
      → x.echo.state.batch ≢ []
      → x.echo.state.done ≡ false
      → (web_socket_write cfg env x.echo.state.batch).1 ≡ some e
      → FrameStep cfg x (record x {
        echo = write_error e x.echo;
        sent = x.sent ++ (web_socket_write cfg env x.echo.state.batch).0;
      })
  inner :
      {e : Echo} (step : EchoStep x.echo e)
      → is_inner step ≡ true
      → FrameStep cfg x (record x { echo = e })

-- The session `s` of a WebSocket begins to be served.
abbrev pub serving : Session → List Round → Talking
serving s rounds = record { echo = Inner.serving s; rounds = rounds; sent = [] }

pub data ReachTalking (cfg : ServerConfig) (s : Session) (rounds : List Round)
    : Talking → Type 0 where
  begins : ReachTalking cfg s rounds (serving s rounds)
  goes_on :
      {x y : Talking}
      → ReachTalking cfg s rounds x
      → FrameStep cfg x y
      → ReachTalking cfg s rounds y
