-- ===== src/Example/Stream/Listeners.antt =====
-- example/quiclistener and tcplistener: with a connection that goes on, nothing has to stay behind.
use gopher_socks.Common.{ℕ, ◌≤◌, ◌<◌, ◌^◌, refl, List, none, length, All, All-impl, arith}
use gopher_socks.Common.Int.{ℤ, pos, min_ℤ}
use gopher_socks.Errors.{Error}
use gopher_socks.Framing.Codec.{Codec}
use gopher_socks.Framing.Prefix.{uint32_codec}
use gopher_socks.Framing.Laws.{IsCodec, Uint32Fits, uint32-IsCodec}
use gopher_socks.Listener.Config.{ServerConfig}
use gopher_socks.Listener.Server.{SessionRef}
use gopher_socks.Listener.Stream.{new_reader}
use gopher_socks.Listener.Stream.Batches.{frames}
use gopher_socks.Listener.Session.{new_session}
use gopher_socks.Listener.Quic.{quic_transport}
use gopher_socks.Listener.Tcp.{tcp_transport}
use gopher_socks.Example.Stream.Reading.{Has}
use gopher_socks.Example.Stream.Order.{quic_transport-Has}
use gopher_socks.Example.Stream.Completing.{SendsAll, serving-SendsAll}

tcp_transport-Has :
    (cfg : ServerConfig) (fail : Error) (msgs : List (List ℕ))
    → Has uint32_codec (pos cfg.max_length) msgs (tcp_transport cfg (frames uint32_codec msgs) fail)
unfolding tcp_transport new_reader
tcp_transport-Has cfg fail msgs = record {
  codec = refl;
  max_payload = refl;
  roomy = omega arith;
  bytes = refl;
}

-- A client has sent messages within the server's MaxLength, which is below 2 ^ 32, and frames of them have
-- arrived at a listener program: at QUIC framed with any lawful codec, when that codec carries each of the
-- messages within the lesser of MaxLength and its own MaxPayload; at TCP with a uint32 prefix. There is a
-- run of the session's goroutines after which all of the messages have been sent back, once each, unchanged
-- and in order, and the frames of all of them are what went out.
pub streams_complete :
    {Fits : ℤ → List ℕ → Type 0} (cfg : ServerConfig) (codec : Codec) (ref : SessionRef) (now : ℤ)
    (fail : Error) (msgs : List (List ℕ))
    → IsCodec codec Fits
    → All (Fits (min_ℤ (pos cfg.max_length) (pos codec.max_payload))) msgs
    → All (λ m. length m ≤ cfg.max_length) msgs
    → cfg.max_length < 2 ^ 32
    → SendsAll
        (new_session none ref cfg now)
        codec
        (quic_transport cfg codec (frames codec msgs) fail)
        msgs
      × SendsAll
          (new_session none ref cfg now)
          uint32_codec
          (tcp_transport cfg (frames uint32_codec msgs) fail)
          msgs
unfolding quic_transport tcp_transport
streams_complete cfg codec ref now fail msgs lawful fits short small = (
  serving-SendsAll ref cfg now codec lawful (min_ℤ (pos cfg.max_length) (pos codec.max_payload))
      (quic_transport cfg codec (frames codec msgs) fail) msgs fits short
      (quic_transport-Has cfg codec (frames codec msgs) fail msgs refl) refl refl,
  serving-SendsAll ref cfg now uint32_codec uint32-IsCodec (pos cfg.max_length)
      (tcp_transport cfg (frames uint32_codec msgs) fail) msgs
      (All-impl (λ m. length m ≤ cfg.max_length) (Uint32Fits (pos cfg.max_length)) msgs
        (λ m h. (omega arith, omega arith)) short)
      short (tcp_transport-Has cfg fail msgs) refl refl,
)
