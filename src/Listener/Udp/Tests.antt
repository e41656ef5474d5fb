-- ===== src/Listener/Udp/Tests.antt =====
-- udp.go on concrete inputs: two datagrams come from one address, and the first is read.
use gopher_socks.Common.{
  ◌*◌, ◌/◌, max, ℕ, ◌≡◌, refl, List, [], ◌∷◌, none, some, true, false, arith, if◌then◌else◌,
}
use gopher_socks.Common.Int.{pos, ltb_ℤ, ◌+ℤ◌, ◌-ℤ◌}
use gopher_socks.Errors.{ok, sentinel, deadline_exceeded}
use gopher_socks.Listener.Config.{default_config, validate_config}
use gopher_socks.Listener.Config.Options.{apply_options}
use gopher_socks.Listener.HostPort.{host_port}
use gopher_socks.Listener.Server.{
  SessionRef, get_session, new_server, try_admit, add_active, enter, add,
}
use gopher_socks.Listener.Accept.{accept, admit}
use gopher_socks.Common.Assoc.{lookup, insert}
use gopher_socks.Listener.Udp.{idle, UdpServer, new_udp, read_message, receive, deliver, push}
use gopher_socks.Listener.Udp.InOrder.{Ordered}
use gopher_socks.Listener.Udp.Ticks.{tick_time, run_ticks}
use gopher_socks.Listener.Udp.Expiry.{run_ticks-expires}
use gopher_socks.Listener.Udp.Reachable.{Reach-Ordered}
use gopher_socks.Listener.Udp.Steps.{
  State, start, serve_datagram, give, datagram, reads, Reach, begin, next,
}

abbrev ping : List ℕ
ping = 1 ∷ 2 ∷ []

abbrev pong : List ℕ
pong = 3 ∷ []

abbrev server : UdpServer
server = record {
  world = record { server = new_server none default_config.max_connections; closed = λ i. none };
  cfg = default_config;
  addr = host_port "" 9000;
  conn = none;
  inbox = λ i. [];
  last = λ i. pos 0;
}

made : new_udp "" 9000 none [] ≡ ok server
unfolding new_udp validate_config apply_options
made = refl

abbrev after : State
after =
    serve_datagram (pos 7) "192.0.2.7:9000" pong
      (serve_datagram (pos 6) "192.0.2.7:9000" ping (start server))

after-Reach : Reach server after
after-Reach =
    next (next begin (datagram (pos 6) "192.0.2.7:9000" ping (omega arith)))
      (datagram (pos 7) "192.0.2.7:9000" pong (omega arith))

waiting : after.udp.inbox 0 ≡ ping ∷ pong ∷ []
unfolding receive deliver push accept admit try_admit add_active enter new_server add insert lookup
waiting = refl

abbrev end : State
end = give 0 ping (pong ∷ []) after

end-Reach : Reach server end
unfolding read_message receive deliver push accept admit try_admit add_active enter new_server add
    insert lookup
end-Reach = next after-Reach (reads 0 false false ping (pong ∷ []) refl)

Reach-Ordered_example : Ordered end
Reach-Ordered_example = Reach-Ordered "" 9000 none [] server end made end-Reach

-- A session whose last datagram came at 0, and a ticker made at 5.
abbrev silent : SessionRef
silent = record { id = 1; addr = "192.0.2.7:9000" }

abbrev with_silent : UdpServer
with_silent = record server {
  world = record {
    server = record (new_server none (pos 2)) {
      by_addr = ("192.0.2.7:9000", silent) ∷ [];
      active = pos 1;
    };
    closed = λ i. none;
  };
}

-- With a period of 7.5 s, the fourth tick is the first after the thirty seconds.
due :
    (idle (tick_time with_silent (pos 5) 4) with_silent silent ≡ true)
    × (idle (tick_time with_silent (pos 5) 3) with_silent silent ≡ false)
due = (refl, refl)

run_ticks-expires_example : (run_ticks (pos 5) 4 with_silent).world.closed 1 ≡ (
    if ltb_ℤ
      (pos 30_000_000_000)
      ((pos 5 +ℤ pos (4 * max (30_000_000_000 / 4) 10_000_000)) -ℤ pos 0)
    then some (sentinel deadline_exceeded)
    else none)
unfolding get_session lookup
run_ticks-expires_example =
    run_ticks-expires (λ i. silent) "192.0.2.7:9000" silent (pos 5) with_silent 3 30_000_000_000
      refl (omega arith) (refl, tt) refl refl
