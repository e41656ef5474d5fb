-- ===== src/Listener/Server/Tests.antt =====
-- server.go on concrete inputs: sequences of calls, and registries in another order.
use Prim.Native.String.{String}
use mathlib.Core.List.{Permᴰ}
use gopher_socks.Common.{ℕ, ◌≡◌, refl, List, [], ◌∷◌, none, Bool, true, false, ◌==◌, if◌then◌else◌}
use gopher_socks.Common.Int.{pos}
use gopher_socks.Listener.Server.{
  SessionRef, Server, World, new_server, close_all, halt, stop_to_wait, try_admit, enter, add,
}
use gopher_socks.Errors.{sentinel, server_stopped}
use gopher_socks.Listener.Server.Spec.{
  Call, call, ask_slot, ask_entry, enlist, delist, shut, run, spec_run, view, viewed, run_refines,
}
use gopher_socks.Listener.Server.Order.{stop_any_order}

abbrev dora : SessionRef
dora = record { id = 1; addr = "192.0.2.4:9000" }

abbrev emil : SessionRef
emil = record { id = 2; addr = "192.0.2.5:9000" }

-- dora's successor at her address.
abbrev dora2 : SessionRef
dora2 = record { id = 3; addr = "192.0.2.4:9000" }

abbrev small : Server
small = new_server none (pos 2)

abbrev calls : List Call
calls =
    ask_slot
    ∷ ask_entry
    ∷ enlist dora
    ∷ ask_slot
    ∷ enlist dora2
    ∷ ask_slot
    ∷ delist dora
    ∷ shut
    ∷ ask_entry
    ∷ []

answers : (run calls small).0 ≡ true ∷ true ∷ true ∷ true ∷ true ∷ false ∷ true ∷ true ∷ false ∷ []
unfolding run call try_admit enter new_server add
answers = refl

run_refines_example : viewed (run calls small) ≡ spec_run calls (view small)
run_refines_example = run_refines calls small

abbrev entries : List (String × SessionRef)
entries = ("192.0.2.4:9000", dora) ∷ ("192.0.2.5:9000", emil) ∷ []

abbrev shuffled : List (String × SessionRef)
shuffled = ("192.0.2.5:9000", emil) ∷ ("192.0.2.4:9000", dora) ∷ []

-- The sessions at the pointers 1 and 2.
abbrev heap : ℕ → SessionRef
heap i = if i == 1 then dora else emil

abbrev two : World
two = record { server = record small { by_addr = entries; active = pos 2 }; closed = λ i. none }

stop_any_order_example :
    close_all (sentinel server_stopped) (record two { server = halt two.server }) shuffled
    ≡ stop_to_wait two
stop_any_order_example = stop_any_order heap two shuffled (refl, (refl, tt)) (Permᴰ.swap refl refl)

abbrev all_idle : SessionRef → Bool
all_idle sess = true
