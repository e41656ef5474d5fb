-- ===== src/Listener/Interleaving/StopperTests.antt =====
-- server.go, stop: a server with one session, which StopListener closes and waits for.
use gopher_socks.Common.{◌≡◌, refl, [], ◌∷◌, none, true, false, All}
use gopher_socks.Common.Int.{pos}
use gopher_socks.Common.Assoc.{insert, lookup}
use gopher_socks.Listener.Server.{
  SessionRef, Server, new_server, enter, add_active, add, remove, release, unregister, wg_done,
}
use gopher_socks.Listener.Interleaving.{
  mark_stopped, admitted, entered, in_session, counts, advances, finishes, enters, creates,
  registers, returns,
}
use gopher_socks.Listener.Interleaving.Slots.{total, holds}
use gopher_socks.Listener.Interleaving.Stopper.{
  Stopping, before, returned, ReachStop, calls, goes_on, others, marks, closes_open, waits,
  comes_back, TurnedAway, returned_quiet,
}

abbrev dave : SessionRef
dave = record { id = 5; addr = "192.0.2.5:9000" }

abbrev registered : Server
registered = add dave (enter (add_active (pos 1) (new_server none (pos 1)))).1

abbrev serving : Stopping
serving = record {
  shared = record { server = registered; conns = in_session dave true false ∷ [] };
  phase = before;
}

serving-reached : ReachStop (new_server none (pos 1)) serving
unfolding new_server add_active enter add
serving-reached =
    goes_on
      (goes_on
        (goes_on (goes_on calls (others counts))
          (others (advances [] admitted entered [] _ refl enters)))
        (others (advances [] entered _ [] _ refl (creates dave))))
      (others (advances [] (in_session dave false false) _ [] _ refl (registers dave false)))

abbrev over_now : Stopping
over_now = record {
  shared = record { server = wg_done (remove dave (mark_stopped registered)); conns = [] };
  phase = returned;
}

over_now-reached : ReachStop (new_server none (pos 1)) over_now
unfolding new_server add_active enter add remove release unregister wg_done mark_stopped insert
    lookup
over_now-reached =
    goes_on
      (goes_on
        (goes_on
          (goes_on (goes_on serving-reached (marks refl))
            (closes_open [] dave [] [] dave true [] refl refl refl))
          (waits refl))
        (others (finishes [] (in_session dave true true) [] _ refl (returns dave))))
      (comes_back refl refl)

returned_quiet_example :
    All TurnedAway over_now.shared.conns
    × ((enter over_now.shared.server ≡ (false, over_now.shared.server))
        × (over_now.shared.server.active ≡ pos (total holds over_now.shared.conns)))
returned_quiet_example = returned_quiet none (pos 1) over_now over_now-reached refl
