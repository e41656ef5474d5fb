-- ===== src/Example/Datagrams/Tests.antt =====
-- example/udplistener: a datagram that is sent back.
use gopher_socks.Common.{ℕ, ◌≡◌, refl, List, [], ◌∷◌, none, false, arith}
use gopher_socks.Common.Int.{pos}
use gopher_socks.Common.Assoc.{insert, lookup}
use gopher_socks.Errors.{ok}
use gopher_socks.Listener.Config.{default_config, validate_config}
use gopher_socks.Listener.Config.Options.{apply_options}
use gopher_socks.Listener.Server.{new_server, try_admit, add_active, enter, add}
use gopher_socks.Listener.HostPort.{host_port}
use gopher_socks.Listener.Accept.{accept, admit}
use gopher_socks.Listener.Udp.{
  UdpServer, new_udp, receive, deliver, push, read_message, write_messages,
}
use gopher_socks.Listener.Session.{new_session, touch, send_to_client, fill_batch}
use gopher_socks.Listener.Session.Steps.{takes}
use gopher_socks.Listener.Session.Feed as Feeding
use gopher_socks.Example.Session.{pumps, ranges, queues, others}
use gopher_socks.Example.Datagrams.{
  Serving, ReachServing, begins, goes_on, datagram, reads, written, inner,
}
use gopher_socks.Example.Datagrams.Back.{SendsBack, datagrams_in_order}

abbrev server : UdpServer
server = record {
  world = record { server = new_server none default_config.max_connections; closed = λ i. none };
  cfg = default_config;
  addr = host_port "" 9000;
  conn = none;
  inbox = λ i. [];
  last = λ i. pos 0;
}

made : new_udp "" 9000 none [] ≡ ok server
unfolding new_udp validate_config apply_options
made = refl

abbrev ping : List ℕ
ping = 112 ∷ 105 ∷ []

unfoldable run : (x : Serving) × ReachServing server x
unfolding new_session touch send_to_client fill_batch read_message write_messages receive deliver
    push accept admit try_admit add_active enter new_server add insert lookup
run =
    let r0 = goes_on begins (datagram none (pos 6) "192.0.2.7:9000" ping (omega arith)) in
    let r1 = goes_on r0 (inner 0 (pumps (Feeding.calls_first refl) refl) (omega arith) refl refl) in
    let r2 = goes_on r1 (reads 0 false false ping [] (pos 7) (omega arith) refl refl) in
    let r3 =
      goes_on r2
        (inner 0 (pumps (Feeding.puts ping refl (omega arith)) refl) (omega arith) refl refl) in
    let r4 = goes_on r3 (inner 0 (ranges ping [] refl refl) (omega arith) refl refl) in
    let r5 = goes_on r4 (inner 0 (queues ping refl refl) (omega arith) refl refl) in
    let r6 =
      goes_on r5 (inner 0 (others (takes ping [] refl refl refl) refl) (omega arith) refl refl) in
    (_, goes_on r6 (written 0 [] (omega arith) (λ e. cc) refl refl))

sent_back : run.0.sent 0 ≡ ping ∷ []
unfolding run write_messages fill_batch
sent_back = refl

datagrams_in_order_example : SendsBack run.0 0
datagrams_in_order_example = datagrams_in_order "" 9000 none [] server run.0 0 made run.1
