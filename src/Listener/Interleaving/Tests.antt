-- ===== src/Listener/Interleaving/Tests.antt =====
-- server.go: a server with one connection, whose session closes and which then stops.
use Prim.Native.String.{String}
use gopher_socks.Common.{
  ◌+◌, ◌*◌, ◌≤◌, ◌≡◌, ◌⊎◌, refl, [], ◌∷◌, none, some, Bool, true, false, arith,
}
use gopher_socks.Common.Int.{pos}
use gopher_socks.Listener.Server.{
  SessionRef, Server, new_server, enter, add_active, add, get_session,
}
use gopher_socks.Listener.Interleaving.{
  Shared, mark_stopped, admitted, entered, in_session, Reach, counts, stops, advances, enters,
  creates, registers, begin, next, Conn,
}
use gopher_socks.Listener.Interleaving.Lookup.{
  opens, early, Orderly, ReachOrderly, begin_orderly, next_orderly, find,
}
use gopher_socks.Listener.Interleaving.Registered.{get_session-find}
use gopher_socks.Listener.Interleaving.Slots.{total}
use gopher_socks.Listener.Interleaving.Ending.{
  work, arrivals, moves, Moving, Drained, stopping_ends,
}
use gopher_socks.Listener.Interleaving.Draining.{Steps, done, more}

abbrev dave : SessionRef
dave = record { id = 5; addr = "192.0.2.5:9000" }

abbrev serving : Server
serving = (enter (add_active (pos 1) (new_server none (pos 1)))).1

abbrev in_handshake : Shared
in_handshake = record { server = serving; conns = in_session dave false false ∷ [] }

in_handshake-Reach : Reach (new_server none (pos 1)) in_handshake
unfolding new_server add_active enter
in_handshake-Reach =
    next (next (next begin counts) (advances [] admitted entered [] serving refl enters))
      (advances [] entered _ [] _ refl (creates dave))

abbrev stopping : Shared
stopping = record { server = mark_stopped serving; conns = in_session dave false false ∷ [] }

stopping-Reach : Reach (new_server none (pos 1)) stopping
stopping-Reach = next in_handshake-Reach stops

is_stopped : stopping.server.stopped ≡ true
unfolding mark_stopped
is_stopped = refl

abbrev registered : Shared
registered = record { server = add dave serving; conns = in_session dave true false ∷ [] }

dave_alone : (done_add : Bool) → Orderly (in_session dave done_add false ∷ [])
dave_alone true = record { distinct = λ k. ground arith; timely = refl }
dave_alone false = record { distinct = λ k. ground arith; timely = refl }

nobody : (c : Conn) → ((k : String) → opens k c ≡ 0) → early c ≡ 0 → Orderly (c ∷ [])
nobody c unopened timely = record {
  distinct = λ k. omega (arith, unopened k);
  timely = omega (arith, timely);
}

registered-ReachOrderly : ReachOrderly (new_server none (pos 1)) registered
unfolding new_server add_active enter add
registered-ReachOrderly =
    let r1 = next_orderly begin_orderly counts (nobody admitted (λ k. refl) refl) in
    let r2 =
      next_orderly r1 (advances [] admitted entered [] serving refl enters)
        (nobody entered (λ k. refl) refl) in
    let r3 =
      next_orderly r2
        (advances [] entered (in_session dave false false) [] serving refl (creates dave))
        (dave_alone false) in
    next_orderly r3 (advances [] (in_session dave false false) _ [] _ refl (registers dave false))
      (dave_alone true)

get_session-find_example :
    get_session registered.server "192.0.2.5:9000" ≡ find "192.0.2.5:9000" registered.conns
get_session-find_example =
    get_session-find none (pos 1) registered registered-ReachOrderly "192.0.2.5:9000"

found_dave : find "192.0.2.5:9000" registered.conns ≡ some dave
found_dave = refl

abbrev stopping_registered : Shared
stopping_registered = record {
  server = add dave (mark_stopped serving);
  conns = in_session dave true false ∷ [];
}

abbrev registers_late : Steps stopping stopping_registered
registers_late =
    more done (advances [] (in_session dave false false) _ [] _ refl (registers dave false))

stopping_ends_example :
    (moves registers_late + total work stopping_registered.conns
      ≤ total work stopping.conns + 5 * arrivals registers_late)
    × (Moving stopping_registered ⊎ Drained stopping_registered)
stopping_ends_example =
    stopping_ends none (pos 1) stopping stopping_registered stopping-Reach is_stopped registers_late
