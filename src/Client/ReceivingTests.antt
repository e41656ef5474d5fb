-- ===== src/Client/ReceivingTests.antt =====
-- client/quic.go: a client that receives from a session of a QUIC server.
use gopher_socks.Common.{ℕ, refl, List, [], ◌∷◌, ◌++◌, none, some, arith}
use gopher_socks.Common.Int.{pos}
use gopher_socks.Errors.{sentinel, eof}
use gopher_socks.Framing.Prefix.{uvarint_codec, append_uvarint}
use gopher_socks.Framing.Laws.{uvarint-IsCodec}
use gopher_socks.Listener.Server.{SessionRef}
use gopher_socks.Listener.Stream.{
  StreamTransport, WriteEnv, new_reader, write_messages, encode, flush, write_buffer,
}
use gopher_socks.Listener.Session.{Session, new_session, send_to_client, fill_batch}
use gopher_socks.Listener.Session.Steps.{State, sends, takes, start, accept, take_batch}
use gopher_socks.Listener.Session.Wire.{Wired, ReachWire, connect, goes_on, elsewhere, written}
use gopher_socks.Listener.Quic.{quic_transport}
use gopher_socks.Client.Quic.{Stream, QuicClient}
use gopher_socks.Client.Receiving.{Receives, receive_times-Receives}

abbrev gina : SessionRef
gina = record { id = 7; addr = "192.0.2.7:9000" }

abbrev opened : Session
opened = new_session none gina gopher_socks.Listener.Config.default_config (pos 0)

abbrev stream : StreamTransport
stream = quic_transport gopher_socks.Listener.Config.default_config uvarint_codec [] (sentinel eof)

abbrev hello : List ℕ
hello = 104 ∷ 105 ∷ []

abbrev takes_all : WriteEnv
takes_all = record { set_deadline = none; write = none; capacity = 64 }

abbrev taken : State
taken = take_batch hello [] (accept hello (start opened))

abbrev done : Wired
done = record {
  state = record taken { batch = []; sent = taken.sent ++ taken.batch };
  transport = (write_messages takes_all stream taken.batch).1;
}

done-reached : ReachWire opened stream done
unfolding new_session fill_batch send_to_client quic_transport new_reader write_messages encode
    flush write_buffer append_uvarint
done-reached =
    goes_on
      (goes_on (goes_on connect (elsewhere (sends hello refl) refl))
        (elsewhere (takes hello [] refl refl refl) refl))
      (written takes_all (λ e. cc) refl refl)

abbrev received : Stream
received = record {
  codec = uvarint_codec;
  wire = [];
  reader = record { bytes = done.transport.wire; size = 4096; fail = sentinel eof };
}

abbrev client : QuicClient
client = record {
  addr = "192.0.2.1:9000";
  config = gopher_socks.Client.Config.default_config;
  protocol = some "nixie/2";
  stream = some received;
}

receive_times-Receives_example : Receives client received done
unfolding fill_batch
receive_times-Receives_example =
    receive_times-Receives gopher_socks.Listener.Config.default_config uvarint_codec none gina
      (pos 0) [] (sentinel eof) done client received uvarint-IsCodec done-reached refl refl
      (omega arith) refl ((omega arith, omega arith), tt)
