-- ===== src/Example/Stream/Writing.antt =====
-- The echoing session: what its writer has been through.
use gopher_socks.Common.{refl, some}
use gopher_socks.Listener.Stream.{StreamTransport}
use gopher_socks.Listener.Session.{Session, read_cause}
use gopher_socks.Listener.Session.Steps.{State, touches, closes}
use gopher_socks.Listener.Session.Wire as Wire
use gopher_socks.Listener.Session.Wire.{ReachWire, connect}
use gopher_socks.Example.Session.Parts.{Moves, stays, moves, EchoStep-Moves}
use gopher_socks.Example.Stream.{
  Echoing, reads, read_fails, written, lost, inner, ReachStream, begins, goes_on,
}

Moves-ReachWire :
    {s : Session} {t : State} {u : State} {outbound transport : StreamTransport}
    → Moves t u
    → ReachWire s outbound (record { state = t; transport = transport })
    → ReachWire s outbound (record { state = u; transport = transport })
Moves-ReachWire stays r = r
Moves-ReachWire (moves step quiet) r = Wire.goes_on r (Wire.elsewhere step quiet)

pub ReachStream-ReachWire :
    {s : Session} {inbound outbound : StreamTransport} {x : Echoing}
    → ReachStream s inbound outbound x
    → ReachWire s outbound (record { state = x.echo.state; transport = x.outbound })
ReachStream-ReachWire begins = connect
ReachStream-ReachWire (goes_on r (reads env m inbound now q e)) =
    Wire.goes_on (ReachStream-ReachWire r) (Wire.elsewhere (touches now) refl)
ReachStream-ReachWire (goes_on r (read_fails env e inbound q h)) =
    Wire.goes_on (ReachStream-ReachWire r) (Wire.elsewhere (closes (some (read_cause e))) refl)
ReachStream-ReachWire (goes_on r (written env busy alive good)) =
    Wire.goes_on (ReachStream-ReachWire r) (Wire.written env busy alive good)
ReachStream-ReachWire (goes_on r (lost env e busy alive bad)) =
    Wire.goes_on (ReachStream-ReachWire r) (Wire.lost env e busy alive bad)
ReachStream-ReachWire (goes_on r (inner step h)) =
    Moves-ReachWire (EchoStep-Moves step h) (ReachStream-ReachWire r)
