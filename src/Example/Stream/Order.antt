-- ===== src/Example/Stream/Order.antt =====
-- example/quicclient with example/quiclistener: the client's messages come back in order.
use gopher_socks.Common.{
  ℕ, ◌≤◌, ◌≡◌, refl, sym, ap, subst, ◌∙◌, List, [], ◌++◌, Option, none, some, length, All,
  All-append_left, arith,
}
use gopher_socks.Common.Int.{ℤ, pos, min_ℤ}
use gopher_socks.Errors.{Error}
use gopher_socks.Framing.Codec.{Codec}
use gopher_socks.Framing.Laws.{IsCodec}
use gopher_socks.Framing.Empty.{Dry}
use gopher_socks.Listener.Config.{ServerConfig}
use gopher_socks.Listener.Server.{SessionRef}
use gopher_socks.Listener.Stream.{new_reader}
use gopher_socks.Listener.Stream.Batches.{frames}
use gopher_socks.Listener.Session.{new_session}
use gopher_socks.Listener.Session.Feeding.{in_hand, new_session-Feeds}
use gopher_socks.Listener.Quic.{quic_transport}
use gopher_socks.Client.Quic.{Stream, QuicClient}
use gopher_socks.Client.Sending.{send_all, wire_of, send_all-frames}
use gopher_socks.Client.Receiving.{receive_times, reading, receive_times-Receives}
use gopher_socks.Example.Session.Parts.{ReachEcho-Parts}
use gopher_socks.Example.Session.Carrying.{front_trans}
use gopher_socks.Example.Session.Passing.{with_handler, ReachEcho-Passed}
use gopher_socks.Example.Stream.{Echoing, ReachStream, ReachStream-ReachEcho}
use gopher_socks.Example.Stream.Writing.{ReachStream-ReachWire}
use gopher_socks.Example.Stream.Reading.{Has, ReachStream-front}

-- What the client gets in as many calls of Receive as the session has written messages.
pub record ComesBack (msgs : List (List ℕ)) (c : QuicClient) (s : Stream) (x : Echoing)
    : Type 0 where
  pub later : List (List ℕ)
  pub front : x.echo.state.sent ++ later ≡ msgs
  pub rest : List ℕ
  pub received :
      receive_times (length x.echo.state.sent) c ≡ some (x.echo.state.sent, reading rest c s)

pub quic_transport-Has :
    (cfg : ServerConfig) (codec : Codec) (bytes : List ℕ) (fail : Error) (msgs : List (List ℕ))
    → bytes ≡ frames codec msgs
    → Has codec
        (min_ℤ (pos cfg.max_length) (pos codec.max_payload))
        msgs
        (quic_transport cfg codec bytes fail)
unfolding quic_transport new_reader
quic_transport-Has cfg codec bytes fail msgs e = record {
  codec = refl;
  max_payload = refl;
  roomy = omega arith;
  bytes = e;
}

sent_frames :
    (from : QuicClient) (out : Stream) (codec : Codec) (msgs : List (List ℕ))
    → send_all msgs from ≡ (
      none,
      record from { stream = some (record out { wire = out.wire ++ frames out.codec msgs }) },
    )
    → out.codec ≡ codec
    → out.wire ≡ []
    → wire_of (send_all msgs from).1 ≡ frames codec msgs
sent_frames from out codec msgs e same unused =
    ap (λ r. wire_of r.1) e
    ∙ ap (λ w. w ++ frames out.codec msgs) unused
    ∙ ap (λ k. frames k msgs) same

-- A client sends messages over one stream to the QUIC listener program, and reads from it what comes back,
-- with one lawful codec on both sides that carries them within both limits, and that reads no message
-- from a stream that has ended. Whatever the goroutines of the session do, and however the connection answers
-- them: when the client has all the bytes that were sent back so far, it receives exactly the messages
-- that the session's writer has written, and these are the first that it sent, unchanged and in order.
pub stream_round_trip :
    {Fits : ℤ → List ℕ → Type 0} (cfg : ServerConfig) (codec : Codec) (parent : Option Error)
    (ref : SessionRef) (now : ℤ) (fail : Error) (msgs : List (List ℕ)) (from : QuicClient)
    (out : Stream) (x : Echoing) (c : QuicClient) (s : Stream)
    → IsCodec codec Fits
    → Dry codec
    → All (Fits (min_ℤ (pos cfg.max_length) (pos codec.max_payload))) msgs
    → All (Fits c.config.max_length) msgs
    → from.stream ≡ some out
    → out.codec ≡ codec
    → out.wire ≡ []
    → ReachStream
        (new_session parent ref cfg now)
        (quic_transport cfg codec (wire_of (send_all msgs from).1) fail)
        (quic_transport cfg codec (wire_of (send_all msgs from).1) fail)
        x
    → c.stream ≡ some s
    → s.codec ≡ codec
    → 1 ≤ s.reader.size
    → s.reader.bytes ≡ x.outbound.wire
    → ComesBack msgs c s x
stream_round_trip {Fits} cfg codec parent ref now fail msgs from out x c s lawful dry fits back
      connected same unused r has_stream own roomy wired =
    let max = min_ℤ (pos cfg.max_length) (pos codec.max_payload) in
    let bytes = wire_of (send_all msgs from).1 in
    let inside = ReachStream-ReachEcho r in
    let parts = ReachEcho-Parts inside in
    let all_sent =
      send_all-frames max msgs from out (subst (λ k. IsCodec k Fits) (sym same) lawful) connected
        fits in
    let has =
      quic_transport-Has cfg codec bytes fail msgs
        (sent_frames from out codec msgs all_sent same unused) in
    let (unread, read) = ReachStream-front codec lawful dry max msgs fits has r in
    let fed = (new_session-Feeds parent ref cfg now x.echo.feed parts.fed).0 in
    let after_reading = x.echo.feed.channel ++ in_hand x.echo.feed.pump in
    let taken = front_trans x.echo.feed.taken after_reading unread fed.in_order read in
    let accepted =
      front_trans x.echo.state.accepted (with_handler x.echo.handler) (after_reading ++ unread)
        (ReachEcho-Passed inside) taken in
    let passed = with_handler x.echo.handler ++ (after_reading ++ unread) in
    let fits_back =
      All-append_left (Fits c.config.max_length) x.echo.state.accepted passed
        (subst (All (Fits c.config.max_length)) (sym accepted) back) in
    let got =
      receive_times-Receives cfg codec parent ref now bytes fail
        (record { state = x.echo.state; transport = x.outbound }) c s lawful
        (ReachStream-ReachWire r) has_stream own roomy wired fits_back in
    record {
      later = (x.echo.state.batch ++ x.echo.state.session.out) ++ passed;
      front =
          front_trans x.echo.state.sent (x.echo.state.batch ++ x.echo.state.session.out) passed
            got.first_in_order accepted;
      rest = got.rest;
      received = got.received;
    }
