-- ===== src/Example/Stream/Tests.antt =====
-- example/quicclient with example/quiclistener: one message that is echoed.
use gopher_socks.Common.{ℕ, refl, List, [], ◌∷◌, ◌++◌, none, some, false, arith}
use gopher_socks.Common.Int.{pos}
use gopher_socks.Errors.{sentinel, eof}
use gopher_socks.Framing.Reader.{read_uvarint, uvarint_loop, read_full}
use gopher_socks.Framing.Prefix.{
  uvarint_codec, append_uvarint, uvarint, read_uvarint_frame, read_header, read_payload,
}
use gopher_socks.Framing.Laws.{uvarint-IsCodec}
use gopher_socks.Framing.Empty.{uvarint-Dry}
use gopher_socks.Listener.Config.{default_config}
use gopher_socks.Listener.Server.{SessionRef}
use gopher_socks.Listener.Stream.{
  StreamTransport, ReadEnv, WriteEnv, new_reader, needs_deadline, read_buffer_size, read_message,
  write_messages, encode, flush, write_buffer,
}
use gopher_socks.Listener.Session.{Session, new_session, send_to_client, fill_batch, touch}
use gopher_socks.Listener.Session.Steps.{State, takes, start, accept, take_batch}
use gopher_socks.Listener.Session.Wire.{written}
use gopher_socks.Listener.Session.Feed as Feeding
use gopher_socks.Listener.Quic.{quic_transport}
use gopher_socks.Client.Quic.{Stream, QuicClient, send}
use gopher_socks.Client.Sending.{send_all, wire_of}
use gopher_socks.Example.Session.{ranging, pumps, ranges, queues, goes_round, others}
use gopher_socks.Example.Stream.{Echoing, ReachStream, begins, goes_on, reads, written, inner}
use gopher_socks.Framing.Prefix.{uint32_codec}
use gopher_socks.Listener.Stream.Batches.{frames}
use gopher_socks.Listener.Tcp.{tcp_transport}
use gopher_socks.Example.Stream.Completing.{SendsAll}
use gopher_socks.Example.Stream.Listeners.{streams_complete}
use gopher_socks.Example.Stream.Order.{ComesBack, stream_round_trip}

abbrev judy : SessionRef
judy = record { id = 7; addr = "192.0.2.7:9000" }

abbrev opened : Session
opened = new_session none judy default_config (pos 0)

abbrev hello : List ℕ
hello = 104 ∷ 105 ∷ []

abbrev out : Stream
out = record {
  codec = uvarint_codec;
  wire = [];
  reader = record { bytes = []; size = 4096; fail = sentinel eof };
}

abbrev from : QuicClient
from = record {
  addr = "192.0.2.1:9000";
  config = gopher_socks.Client.Config.default_config;
  protocol = some "nixie/2";
  stream = some out;
}

abbrev inbound : StreamTransport
inbound =
    quic_transport default_config uvarint_codec (wire_of (send_all (hello ∷ []) from).1)
      (sentinel eof)

abbrev on_time : ReadEnv
on_time = record { buffered = 0; set_deadline = none }

abbrev takes_all : WriteEnv
takes_all = record { set_deadline = none; write = none; capacity = 64 }

-- The stream once the message has been read.
abbrev emptied : StreamTransport
emptied = record inbound {
  reader = record { bytes = []; size = read_buffer_size; fail = sentinel eof };
}

abbrev taken : State
taken = take_batch hello [] (accept hello (start (touch (pos 5) opened)))

abbrev done : Echoing
done = record {
  echo = record {
    feed = record {
      session = taken.session;
      pump = Feeding.reading;
      channel = [];
      closed = false;
      read = hello ∷ [];
      taken = hello ∷ [];
    };
    state = record taken { batch = []; sent = taken.sent ++ taken.batch };
    handler = ranging;
  };
  inbound = emptied;
  outbound = (write_messages takes_all inbound taken.batch).1;
}

done-reached : ReachStream opened inbound inbound done
unfolding new_session touch send_to_client fill_batch send_all send append_uvarint uvarint
    quic_transport new_reader needs_deadline read_message read_uvarint_frame read_header
    read_payload read_full read_uvarint uvarint_loop encode flush write_buffer write_messages
done-reached =
    let r1 = goes_on begins (inner (pumps (Feeding.calls_first refl) refl) refl) in
    let r2 = goes_on r1 (reads on_time hello emptied (pos 5) refl refl) in
    let r3 = goes_on r2 (inner (pumps (Feeding.puts hello refl (omega arith)) refl) refl) in
    let r4 = goes_on r3 (inner (ranges hello [] refl refl) refl) in
    let r5 = goes_on r4 (inner (pumps (Feeding.calls_again (λ e. cc)) refl) refl) in
    let r6 = goes_on r5 (inner (queues hello refl refl) refl) in
    let r7 = goes_on r6 (inner (goes_round refl) refl) in
    let r8 = goes_on r7 (inner (others (takes hello [] refl refl refl) refl) refl) in
    goes_on r8 (written takes_all (λ e. cc) refl refl)

abbrev got : Stream
got = record {
  codec = uvarint_codec;
  wire = [];
  reader = record { bytes = done.outbound.wire; size = 4096; fail = sentinel eof };
}

abbrev client : QuicClient
client = record from { stream = some got }

stream_round_trip_example : ComesBack (hello ∷ []) client got done
unfolding fill_batch
stream_round_trip_example =
    stream_round_trip default_config uvarint_codec none judy (pos 0) (sentinel eof) (hello ∷ [])
      from out done client got uvarint-IsCodec uvarint-Dry ((omega arith, omega arith), tt)
      ((omega arith, omega arith), tt) refl refl refl done-reached refl refl (omega arith) refl

-- Two messages, one of them empty, to both programs.
abbrev two : List (List ℕ)
two = hello ∷ [] ∷ []

streams_complete_example :
    SendsAll opened uvarint_codec
      (quic_transport default_config uvarint_codec (frames uvarint_codec two) (sentinel eof))
      two
    × SendsAll opened uint32_codec
        (tcp_transport default_config (frames uint32_codec two) (sentinel eof))
        two
streams_complete_example =
    streams_complete default_config uvarint_codec judy (pos 0) (sentinel eof) two uvarint-IsCodec
      ((omega arith, omega arith), ((omega arith, omega arith), tt))
      (omega arith, (omega arith, tt)) (omega arith)
