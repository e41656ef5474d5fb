-- ===== src/Listener/Udp/Reachable.antt =====
-- udp.go: from NewUDP on, a session reads the datagrams of its address, in order.
use Prim.Native.String.{String}
use mathlib.Core.List.{nil-sublist}
use gopher_socks.Common.{
  ℕ, ◌≡◌, refl, sym, ap, subst, ◌∙◌, inl, inr, List, [], Option, some, none, length, arith,
  Bool-cases,
}
use gopher_socks.Listener.HostPort.{host_port}
use gopher_socks.Common.Int.{ℤ, pos, ltb_ℤ}
use gopher_socks.Common.Assoc.{lookup}
use gopher_socks.Errors.{Error, ok, err, Result, sentinel, server_stopped, network, configuration}
use gopher_socks.Listener.Config.{ServerConfig, default_config, validate_config}
use gopher_socks.Listener.Config.Options.{ServerOption, apply_options}
use gopher_socks.Listener.Server.{
  SessionRef, World, get_session, close_session, halt, stop_to_wait, get_active_sessions,
  new_server,
}
use gopher_socks.Listener.Udp.{UdpServer, new_udp, idle, reap_idle, stop_listener}
use gopher_socks.Listener.Udp.InOrder.{
  Ordered, NoNew, close_session-NoNew, close_all-NoNew, reap-NoNew, world-Ordered, give-Ordered,
  read_message-takes, datagram-Ordered,
}
use gopher_socks.Listener.Udp.Steps.{
  State, start, Step, datagram, reads, ticks, closes, stops, Reach, begin, next,
}

ticks-Ordered : (now : ℤ) (t : State) → Ordered t → Ordered (record t { udp = reap_idle now t.udp })
unfolding reap_idle
ticks-Ordered now t v = elim (Bool-cases (ltb_ℤ (pos 0) t.udp.cfg.read_timeout)) [
  | inr off ↦ rw (off, reap_idle) v
  | inl on ↦
      rw (on, reap_idle)
        (world-Ordered _ t v refl refl
          (reap-NoNew (idle now t.udp) t.udp.world (get_active_sessions t.udp.world.server)))
]

stop-NoNew : (w : World) → NoNew w (stop_to_wait w)
unfolding stop_to_wait get_session
stop-NoNew w k sess h =
    close_all-NoNew (sentinel server_stopped) (record w { server = halt w.server })
      (get_active_sessions w.server) k sess h

Step-Ordered : {t v : State} → Step t v → Ordered t → Ordered v
Step-Ordered {t} (datagram now addr d h) o = datagram-Ordered now addr d t o h
Step-Ordered {t} (reads i done first m rest e) o =
    give-Ordered i m rest t o (read_message-takes done first (t.udp.inbox i) m rest e)
Step-Ordered {t} (ticks now) o = ticks-Ordered now t o
Step-Ordered {t} (closes e sess) o =
    world-Ordered (record (t.udp) { world = close_session e t.udp.world sess }) t o refl refl
      (close_session-NoNew e t.udp.world sess)
Step-Ordered {t} (stops answer) o =
    unfold stop_listener in
    world-Ordered (record (t.udp) { world = stop_to_wait t.udp.world }) t o refl refl
      (stop-NoNew t.udp.world)

-- A server without sessions.
record Empty (u : UdpServer) : Type 0 where
  by_addr : u.world.server.by_addr ≡ []
  inbox : (i : ℕ) → u.inbox i ≡ []

new_udp-Empty :
    (host : String) (port : ℕ) (parent : Option Error) (opts : List ServerOption) (u : UdpServer)
    → new_udp host port parent opts ≡ ok u
    → Empty u
unfolding new_udp new_server
new_udp-Empty host port parent opts u h = go (validate_config (apply_options opts default_config)) h
  where
    built : ServerConfig → UdpServer
    built config = record {
      world = record { server = new_server parent config.max_connections; closed = λ i. none };
      cfg = config;
      addr = host_port host port;
      conn = none;
      inbox = λ i. [];
      last = λ i. pos 0;
    }

    go :
        (o : Option Error)
        → elim o as (λ x. Result UdpServer) [
          | some e ↦ err (network configuration "invalid configuration" e)
          | none ↦ ok (built (apply_options opts default_config))
        ]
          ≡ ok u
        → Empty u
    go none e =
        let same : built (apply_options opts default_config) ≡ u = cc in
        subst Empty same (record { by_addr = refl; inbox = λ i. refl })
    go (some x) e = absurd (cc)

not_there : (k : String) (sess : SessionRef) → ¬ (◌≡◌ {A = Option SessionRef} none (some sess))
not_there k sess h = cc

start-Ordered : (u : UdpServer) → Empty u → Ordered (start u)
unfolding get_session lookup
start-Ordered u e = record {
  registered = λ k sess h. absurd (not_there k sess (sym (ap (lookup k) e.by_addr) ∙ h));
  unused = λ i h. (e.inbox i, refl);
  room = λ i. omega (arith, ap length (e.inbox i));
  in_order = λ i. rw (e.inbox i) (nil-sublist []);
}

-- In every state that a new UDP server reaches under any interleaving of its read loop, the readers of its
-- sessions, the ticks of reapIdle and closings: each registered session stands under its own address; no
-- channel is over its capacity; and what a session has read, followed by what waits in its channel, are
-- datagrams that came from its address, whole, each at most once and in the order in which they came.
pub Reach-Ordered :
    (host : String) (port : ℕ) (parent : Option Error) (opts : List ServerOption) (u : UdpServer)
    (t : State)
    → new_udp host port parent opts ≡ ok u
    → Reach u t
    → Ordered t
Reach-Ordered host port parent opts u t e begin =
    start-Ordered u (new_udp-Empty host port parent opts u e)
Reach-Ordered host port parent opts u t e (next r step) =
    Step-Ordered step (Reach-Ordered host port parent opts u _ e r)
