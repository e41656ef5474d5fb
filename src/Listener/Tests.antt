-- ===== src/Listener/Tests.antt =====
-- session.go, server.go, stream.go and base.go on concrete inputs.
use gopher_socks.Common.{
  if◌then◌else◌, ◌==◌, ℕ, zero, suc, ◌≡◌, refl, ◌≢◌, List, [], ◌∷◌, ◌++◌, some, none, arith, length,
  true, false,
}
use gopher_socks.Common.Int.{pos}
use gopher_socks.Errors.{Error, sentinel, eof, ok, err}
use gopher_socks.Framing.Prefix.{uint32_codec}
use gopher_socks.Listener.Config.{default_config, validate_config}
use gopher_socks.Listener.Stream.{StreamTransport, ReadEnv, WriteEnv, write_messages}
use gopher_socks.Listener.Stream.Batches.{Succeeds}
use gopher_socks.Listener.Server.{
  SessionRef, Server, World, new_server, try_admit, add, remove, stop, stop_to_wait, get_session,
}
use gopher_socks.Listener.Server.Registry.{Removes, remove-Removes}
use gopher_socks.Listener.Server.Stopping.{Stops, stop-Stops}
use gopher_socks.Listener.Session.{
  Session, new_session, messages, send_to_client, fill_batch, queued,
}
use gopher_socks.Listener.Session.Steps.{
  State, Reach, begin, next, sends, takes, start, accept, take_batch,
}
use gopher_socks.Listener.Session.Delivery.{Inv, IsFresh, Reach-Inv}
use gopher_socks.Framing.Legacy.{Legacy, default_delimiter, codec}
use gopher_socks.Listener.Session.TooLong.{accepted_refused}
use gopher_socks.Listener.Session.Pulling.{Pulls, messages-Pulls}
use gopher_socks.Listener.Interleaving.{Shared, counts, advances, enters, admitted}
use gopher_socks.Listener.Interleaving.Slots.{Counts, Reach-Counts}
use gopher_socks.Listener.Interleaving.Late.{late_registration}

abbrev alice : SessionRef
alice = record { id = 1; addr = "192.0.2.1:9000" }

abbrev bob : SessionRef
bob = record { id = 2; addr = "192.0.2.2:9000" }

no_length : validate_config (record default_config { max_length = 0 }) ≢ none
unfolding validate_config
no_length e = cc

-- A session of the default configuration.
abbrev fresh : Session
fresh = new_session none alice default_config (pos 0)

fresh-IsFresh : IsFresh fresh
unfolding new_session
fresh-IsFresh = record { out = refl; closed = refl; calls = refl }

-- One message is sent, taken, and still in the writer's hand when the session closes.
abbrev one_sent : State
one_sent = accept (7 ∷ []) (start fresh)

abbrev one_taken : State
one_taken = take_batch (7 ∷ []) [] one_sent

one_taken-Reach : Reach fresh one_taken
unfolding new_session send_to_client fill_batch
one_taken-Reach = next (next begin (sends (7 ∷ []) refl)) (takes (7 ∷ []) [] refl refl refl)

Reach-Inv_example : Inv one_taken
Reach-Inv_example = Reach-Inv fresh one_taken fresh-IsFresh one_taken-Reach

messages-Pulls_example :
    Pulls
      (pos 5)
      3
      (ok (1 ∷ []) ∷ ok (2 ∷ []) ∷ err (sentinel eof) ∷ [])
      fresh
      (messages (pos 5) 3 (ok (1 ∷ []) ∷ ok (2 ∷ []) ∷ err (sentinel eof) ∷ []) fresh)
messages-Pulls_example =
    messages-Pulls (pos 5) 3 (ok (1 ∷ []) ∷ ok (2 ∷ []) ∷ err (sentinel eof) ∷ []) fresh
      (omega arith)

-- A server that admits one connection, with alice connected.
abbrev busy : Server
busy = add alice (try_admit (new_server none (pos 1))).1

full : (try_admit busy).0 ≡ false
unfolding try_admit new_server add
full = refl

remove-Removes_example : Removes bob busy (remove bob busy)
remove-Removes_example = remove-Removes bob busy

abbrev world : World
world = record { server = busy; closed = λ i. none }

stop-Stops_example :
    Stops world (stop_to_wait world)
    × (stop world ≡ (if world.server.wg == 0 then some (stop_to_wait world) else none))
stop-Stops_example = stop-Stops world

abbrev counted : Shared
counted = record { server = (try_admit (new_server none (pos 1))).1; conns = admitted ∷ [] }

counted-Reach : gopher_socks.Listener.Interleaving.Reach (new_server none (pos 1)) counted
unfolding try_admit new_server
counted-Reach =
    gopher_socks.Listener.Interleaving.next gopher_socks.Listener.Interleaving.begin counts

Reach-Counts_example : Counts (pos 1) counted
Reach-Counts_example = Reach-Counts none (pos 1) counted counted-Reach

late_registration_example :
    (t : Shared) × (gopher_socks.Listener.Interleaving.Reach (new_server none (pos 1)) t
      × ((t.conns ≡ []) × (get_session t.server "192.0.2.1:9000" ≡ some alice)))
late_registration_example = late_registration none (pos 1) alice (omega arith)

-- A TCP stream.
abbrev transport : List ℕ → StreamTransport
transport bytes = record {
  reader = record { bytes = bytes; size = 16; fail = sentinel eof };
  codec = uint32_codec;
  max = pos 100;
  read_timeout = pos 10;
  write_timeout = pos 10;
  idle_timeout = true;
  deadlines = 0;
  wire = [];
  retained = 0;
}

abbrev good : WriteEnv
good = record { set_deadline = none; write = none; capacity = 64 }

good-Succeeds : Succeeds good
good-Succeeds = record { deadline = refl; written = refl }

abbrev idle : ReadEnv
idle = record { buffered = 0; set_deadline = none }

abbrev two : List (List ℕ)
two = (1 ∷ 2 ∷ []) ∷ (3 ∷ []) ∷ []

-- A message of 65536 bytes, over the Legacy framing.
abbrev zeros : ℕ → List ℕ
zeros zero = []
zeros (suc n) = 0 ∷ zeros n

length-zeros : (n : ℕ) → length (zeros n) ≡ n
length-zeros zero = refl
length-zeros (suc n) = omega (arith, length-zeros n)

abbrev legacy : Legacy
legacy = record { delim = default_delimiter }

accepted_refused_example :
    ((send_to_client (zeros 65536) fresh).0 ≡ queued)
    × ((e : Error) × (write_messages good
            (record (transport []) { codec = codec legacy })
            (two ++ zeros 65536 ∷ [])
          ≡ (some e, record (transport []) { codec = codec legacy })))
unfolding new_session
accepted_refused_example =
    accepted_refused legacy fresh (zeros 65536) (record (transport []) { codec = codec legacy })
      good two [] refl (omega (arith, length-zeros 65536)) (omega (arith, length-zeros 65536)) refl
      (omega arith)
