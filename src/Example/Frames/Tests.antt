-- ===== src/Example/Frames/Tests.antt =====
-- example/wslistener: a text message is passed over and a binary one is sent back.
use gopher_socks.Common.{ℕ, ◌≡◌, refl, List, [], ◌∷◌, ◌++◌, none, arith}
use gopher_socks.Common.Int.{pos}
use gopher_socks.Listener.Config.{default_config}
use gopher_socks.Listener.Server.{SessionRef}
use gopher_socks.Listener.WebSocket.{Round, binary, text, read_message, write_messages, write_loop}
use gopher_socks.Listener.Session.{new_session, touch, send_to_client, fill_batch}
use gopher_socks.Listener.Session.Steps.{takes}
use gopher_socks.Listener.Session.Feed as Feeding
use gopher_socks.Example.Session.{pumps, ranges, queues, others}
use gopher_socks.Example.Frames.{
  Talking, Returns, ReachTalking, begins, goes_on, reads, written, inner,
}
use gopher_socks.Example.Frames.Incoming.{incoming}
use gopher_socks.Example.Frames.Back.{frames_in_order}

abbrev ken : SessionRef
ken = record { id = 3; addr = "192.0.2.3:9000" }

abbrev hello : List ℕ
hello = 104 ∷ 105 ∷ []

abbrev rounds : List Round
rounds =
    record { set_deadline = none; frame = text (1 ∷ []) }
    ∷ record { set_deadline = none; frame = binary hello }
    ∷ []

returned :
    Returns default_config rounds
      (record { set_deadline = none; frame = text (1 ∷ []) } ∷ [])
      (record { set_deadline = none; frame = binary hello })
      []
      (gopher_socks.Errors.ok hello)
unfolding read_message
returned = record { split = refl; waits = refl; returns = refl }

unfoldable run :
    (x : Talking) × ReachTalking default_config
      (new_session none ken default_config (pos 0))
      rounds
      x
unfolding new_session touch send_to_client fill_batch write_messages write_loop
run =
    let r1 = goes_on begins (inner (pumps (Feeding.calls_first refl) refl) refl) in
    let r2 = goes_on r1 (reads _ _ [] hello (pos 7) refl returned) in
    let r3 = goes_on r2 (inner (pumps (Feeding.puts hello refl (omega arith)) refl) refl) in
    let r4 = goes_on r3 (inner (ranges hello [] refl refl) refl) in
    let r5 = goes_on r4 (inner (queues hello refl refl) refl) in
    let r6 = goes_on r5 (inner (others (takes hello [] refl refl refl) refl) refl) in
    (_, goes_on r6 (written (none, []) (λ e. cc) refl refl))

sent_back : run.0.sent ≡ hello ∷ []
unfolding run write_messages write_loop fill_batch
sent_back = refl

frames_in_order_example :
    (later : List (List ℕ)) × (run.0.sent ++ later ≡ incoming default_config.read_timeout rounds)
frames_in_order_example = frames_in_order default_config none ken (pos 0) rounds run.0 run.1
