-- ===== src/Example/Stream.antt =====
-- example/quiclistener (and tcplistener) over listener/session.go and listener/stream.go: the echoing session
-- of a byte stream, with the streams in both directions.
pub mod Reading
pub mod Writing
pub mod Order
pub mod Completing
pub mod Listeners
mod Tests
use gopher_socks.Common.{ℕ, ◌≡◌, ◌≢◌, List, [], Option, none, some, true, false}
use gopher_socks.Common.Int.{ℤ}
use gopher_socks.Errors.{Error, ok, err}
use gopher_socks.Listener.Stream.{StreamTransport, ReadEnv, WriteEnv, read_message, write_messages}
use gopher_socks.Listener.Session.{Session}
use gopher_socks.Listener.Session.Feed.{reading}
use gopher_socks.Example.Session as Inner
use gopher_socks.Example.Session.{
  Echo, EchoStep, is_inner, read_one, read_error, write_batch, write_error,
}

-- `inbound` is the stream from the client and `outbound` the one to it.
pub record Echoing : Type 0 where
  pub echo : Echo
  pub inbound : StreamTransport
  pub outbound : StreamTransport

pub data StreamStep (x : Echoing) : Echoing → Type 0 where
  reads :
      (env : ReadEnv) (m : List ℕ) (inbound : StreamTransport) (now : ℤ)
      → x.echo.feed.pump ≡ reading
      → read_message env x.inbound ≡ some (ok m, inbound)
      → StreamStep x (record x { echo = read_one m now x.echo; inbound = inbound })
  read_fails :
      (env : ReadEnv) (e : Error) (inbound : StreamTransport)
      → x.echo.feed.pump ≡ reading
      → read_message env x.inbound ≡ some (err e, inbound)
      → StreamStep x (record x { echo = read_error e x.echo; inbound = inbound })
  written :
      (env : WriteEnv)
      → x.echo.state.batch ≢ []
      → x.echo.state.done ≡ false
      → (write_messages env x.outbound x.echo.state.batch).0 ≡ none
      → StreamStep x (record x {
        echo = write_batch x.echo;
        outbound = (write_messages env x.outbound x.echo.state.batch).1;
      })
  lost :
      (env : WriteEnv) (e : Error)
      → x.echo.state.batch ≢ []
      → x.echo.state.done ≡ false
      → (write_messages env x.outbound x.echo.state.batch).0 ≡ some e
      → StreamStep x (record x {
        echo = write_error e x.echo;
        outbound = (write_messages env x.outbound x.echo.state.batch).1;
      })
  inner :
      {e : Echo} (step : EchoStep x.echo e)
      → is_inner step ≡ true
      → StreamStep x (record x { echo = e })

-- The state in which the session `s` is served, with what the client sends and the connection to it.
abbrev pub serving : Session → StreamTransport → StreamTransport → Echoing
serving s inbound outbound = record {
  echo = Inner.serving s;
  inbound = inbound;
  outbound = outbound;
}

pub data ReachStream (s : Session) (inbound outbound : StreamTransport) : Echoing → Type 0 where
  begins : ReachStream s inbound outbound (serving s inbound outbound)
  goes_on :
      {x y : Echoing}
      → ReachStream s inbound outbound x
      → StreamStep x y
      → ReachStream s inbound outbound y

-- With the streams left out, these are steps of Example.Session.
pub ReachStream-ReachEcho :
    {s : Session} {inbound outbound : StreamTransport} {x : Echoing}
    → ReachStream s inbound outbound x
    → Inner.ReachEcho s x.echo
ReachStream-ReachEcho begins = Inner.begins
ReachStream-ReachEcho (goes_on r (reads env m inbound now q e)) =
    Inner.goes_on (ReachStream-ReachEcho r) (Inner.reads m now q)
ReachStream-ReachEcho (goes_on r (read_fails env e inbound q h)) =
    Inner.goes_on (ReachStream-ReachEcho r) (Inner.read_fails e q)
ReachStream-ReachEcho (goes_on r (written env busy alive good)) =
    Inner.goes_on (ReachStream-ReachEcho r) (Inner.writes busy alive)
ReachStream-ReachEcho (goes_on r (lost env e busy alive bad)) =
    Inner.goes_on (ReachStream-ReachEcho r) (Inner.write_fails e busy alive)
ReachStream-ReachEcho (goes_on r (inner step h)) = Inner.goes_on (ReachStream-ReachEcho r) step
