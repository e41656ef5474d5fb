-- ===== src/Listener/Session/MessagesTests.antt =====
-- session.go over udp.go on a concrete input: one message is sent, and goes out as a datagram.
use gopher_socks.Common.{ℕ, refl, List, [], ◌∷◌, ◌++◌, none, inr}
use gopher_socks.Common.Int.{pos}
use gopher_socks.Listener.Config.{default_config}
use gopher_socks.Listener.Server.{SessionRef}
use gopher_socks.Listener.Udp.{write_messages}
use gopher_socks.Listener.Session.{Session, new_session, send_to_client, fill_batch}
use gopher_socks.Listener.Session.Steps.{State, sends, takes, start, accept, take_batch}
use gopher_socks.Listener.Session.Messages.{
  Carried, Carries, ReachCarried, connect, goes_on, elsewhere, written, new_session-Carries,
}

abbrev grete : SessionRef
grete = record { id = 7; addr = "192.0.2.7:9000" }

abbrev opened : Session
opened = new_session none grete default_config (pos 0)

abbrev hello : List ℕ
hello = 104 ∷ 105 ∷ []

abbrev taken : State
taken = take_batch hello [] (accept hello (start opened))

abbrev over : Carried
over = record {
  state = record taken { batch = []; sent = taken.sent ++ taken.batch };
  wire = [] ++ (write_messages [] taken.batch).0;
}

over-reached : ReachCarried write_messages opened over
unfolding new_session fill_batch send_to_client write_messages
over-reached =
    goes_on
      (goes_on (goes_on connect (elsewhere (sends hello refl) refl))
        (elsewhere (takes hello [] refl refl refl) refl))
      (written [] (λ e. cc) refl refl)

new_session-Carries_example : Carries over
new_session-Carries_example =
    new_session-Carries none grete default_config (pos 0) over (inr over-reached)
