-- ===== src/Listener/Session/Tests.antt =====
-- session.go, stream.go and tcp.go together on concrete inputs: one message is sent, and read.
use gopher_socks.Common.{ℕ, refl, List, [], ◌∷◌, ◌++◌, none, arith}
use gopher_socks.Common.Int.{pos}
use gopher_socks.Errors.{sentinel, eof}
use gopher_socks.Framing.Prefix.{append_uint32}
use gopher_socks.Framing.Laws.{Uint32Fits}
use gopher_socks.Listener.Config.{default_config}
use gopher_socks.Listener.Server.{SessionRef}
use gopher_socks.Listener.Stream.{
  StreamTransport, ReadEnv, WriteEnv, write_messages, encode, flush, write_buffer, new_reader,
}
use gopher_socks.Listener.Session.{Session, new_session, send_to_client, fill_batch}
use gopher_socks.Listener.Session.Steps.{State, sends, takes, start, accept, take_batch}
use gopher_socks.Listener.Session.Delivery.{IsFresh}
use gopher_socks.Listener.Session.Wire.{Wired, ReachWire, connect, goes_on, elsewhere, written}
use gopher_socks.Listener.Session.Reading.{Arrives, tcp_transport-Arrives}
use gopher_socks.Listener.Tcp.{tcp_transport}

abbrev frida : SessionRef
frida = record { id = 6; addr = "192.0.2.6:9000" }

abbrev opened : Session
opened = new_session none frida default_config (pos 0)

abbrev stream : StreamTransport
stream = tcp_transport default_config [] (sentinel eof)

abbrev hello : List ℕ
hello = 104 ∷ 105 ∷ []

abbrev takes_all : WriteEnv
takes_all = record { set_deadline = none; write = none; capacity = 64 }

-- After SendToClient, after the writer has taken the message, and after it has written it.
abbrev accepted : State
accepted = accept hello (start opened)

abbrev taken : State
taken = take_batch hello [] accepted

abbrev done : Wired
done = record {
  state = record taken { batch = []; sent = taken.sent ++ taken.batch };
  transport = (write_messages takes_all stream taken.batch).1;
}

done-reached : ReachWire opened stream done
unfolding new_session fill_batch send_to_client tcp_transport new_reader write_messages encode flush
    write_buffer append_uint32
done-reached =
    goes_on
      (goes_on (goes_on connect (elsewhere (sends hello refl) refl))
        (elsewhere (takes hello [] refl refl refl) refl))
      (written takes_all (λ e. cc) refl refl)

abbrev peer : StreamTransport
peer = record stream { reader = new_reader done.transport.wire (sentinel eof) }

abbrev once : List ReadEnv
once = record { buffered = 0; set_deadline = none } ∷ []

tcp_transport-Arrives_example : Arrives once done peer
unfolding tcp_transport new_reader fill_batch
tcp_transport-Arrives_example =
    tcp_transport-Arrives default_config none frida (pos 0) [] (sentinel eof) done peer once
      (omega arith) done-reached refl (omega arith) (omega arith) refl refl (refl, tt)

opened-IsFresh : IsFresh opened
unfolding new_session
opened-IsFresh = record { out = refl; closed = refl; calls = refl }

hello_fits : Uint32Fits peer.max hello
unfolding tcp_transport
hello_fits = (omega arith, omega arith)
