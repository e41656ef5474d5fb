-- ===== src/Example/Stream/Completing.antt =====
-- example/quiclistener and tcplistener: the echoing session can send everything back.
use gopher_socks.Common.{
  ℕ, ◌≤◌, ◌<◌, ◌≡◌, refl, sym, ap, subst, ◌∙◌, List, [], ◌∷◌, ◌++◌, none, some, false, length,
  append-nil, append_assoc, All, arith,
}
use gopher_socks.Common.Int.{ℤ, pos_part}
use gopher_socks.Errors.{ok}
use gopher_socks.Framing.Codec.{Codec}
use gopher_socks.Framing.Laws.{IsCodec}
use gopher_socks.Listener.Config.{ServerConfig}
use gopher_socks.Listener.Server.{SessionRef}
use gopher_socks.Listener.Stream.{StreamTransport, ReadEnv, WriteEnv, read_message, write_messages}
use gopher_socks.Listener.Stream.Batches.{frames, write_messages-frames}
use gopher_socks.Listener.Stream.Delivery.{read_message-lawful}
use gopher_socks.Listener.Session.{Session, new_session, touch, send_to_client, queued, fill_batch}
use gopher_socks.Listener.Session.Steps.{takes}
use gopher_socks.Listener.Session.Wire.{frames-append}
use gopher_socks.Listener.Session.Feed as Feeding
use gopher_socks.Example.Session.{ranging, pumps, ranges, queues, goes_round, others}
use gopher_socks.Example.Stream.{Echoing, ReachStream, begins, goes_on, reads, written, inner}
use gopher_socks.Example.Stream.Reading.{Has}

abbrev quiet : ReadEnv
quiet = record { buffered = 0; set_deadline = none }

abbrev takes_all : WriteEnv
takes_all = record { set_deadline = none; write = none; capacity = 0 }

-- A session that waits for the next message and has sent `back`.
abbrev idle : Session → List (List ℕ) → StreamTransport → StreamTransport → Echoing
idle s back inbound outbound = record {
  echo = record {
    feed = record {
      session = s;
      pump = Feeding.reading;
      channel = [];
      closed = false;
      read = back;
      taken = back;
    };
    state = record {
      session = s;
      waiting = [];
      batch = [];
      sent = back;
      accepted = back;
      done = false;
    };
    handler = ranging;
  };
  inbound = inbound;
  outbound = outbound;
}

-- A state that the session reaches in which all messages have been sent back.
pub record SendsAll (s : Session) (c : Codec) (start : StreamTransport) (msgs : List (List ℕ))
    : Type 0 where
  pub final : Echoing
  pub reached : ReachStream s start start final
  pub sent : final.echo.state.sent ≡ msgs
  pub wire : final.outbound.wire ≡ frames c msgs

module _ (ref : SessionRef) (cfg : ServerConfig) (now : ℤ) where
  session : Session
  session = new_session none ref cfg now

  has_room : 0 < pos_part session.buf_size
  unfolding session new_session
  has_room = ground arith

  is_queued : (m : List ℕ) → length m ≤ cfg.max_length → (send_to_client m session).0 ≡ queued
  unfolding session new_session send_to_client
  is_queued m short = ground arith

  -- One message is read, passed on and written.
  one_round :
      {start inbound inbound' outbound : StreamTransport} (back : List (List ℕ)) (m : List ℕ)
      → length m ≤ cfg.max_length
      → read_message quiet inbound ≡ some (ok m, inbound')
      → (write_messages takes_all outbound (m ∷ [])).0 ≡ none
      → ReachStream session start start (idle session back inbound outbound)
      → ReachStream session start start
          (idle session (back ++ m ∷ []) inbound' (write_messages takes_all outbound (m ∷ [])).1)
  unfolding session new_session touch fill_batch
  one_round {inbound' = inbound'} back m short got good r0 =
      let r1 = goes_on r0 (reads quiet m inbound' now refl got) in
      let r2 = goes_on r1 (inner (pumps (Feeding.puts m refl has_room) refl) refl) in
      let r3 = goes_on r2 (inner (ranges m [] refl refl) refl) in
      let r4 = goes_on r3 (inner (queues m refl (is_queued m short)) refl) in
      let r5 = goes_on r4 (inner (goes_round refl) refl) in
      let r6 = goes_on r5 (inner (others (takes m [] refl refl refl) refl) refl) in
      goes_on r6 (written takes_all (λ e. cc) refl good)

  module _ {Fits : ℤ → List ℕ → Type 0} (c : Codec) (lawful : IsCodec c Fits) (max : ℤ)
      (start : StreamTransport) where
    good_write :
        (outbound : StreamTransport) (back : List (List ℕ)) (m : List ℕ)
        → Fits max m
        → outbound.codec ≡ c
        → outbound.wire ≡ frames c back
        → let r = write_messages takes_all outbound (m ∷ []) in
          (r.0 ≡ none) × (r.1.codec ≡ c) × (r.1.wire ≡ frames c (back ++ m ∷ []))
    good_write outbound back m fits own wire =
        let e =
          write_messages-frames outbound (subst (λ k. IsCodec k Fits) (sym own) lawful) max
            takes_all (m ∷ []) (fits, tt) (record { deadline = refl; written = refl }) in
        (
          ap (λ r. r.0) e,
          ap (λ r. r.1.codec) e ∙ own,
          ap (λ r. r.1.wire) e
              ∙ ap (λ k. outbound.wire ++ frames k (m ∷ [])) own
              ∙ ap (λ w. w ++ frames c (m ∷ [])) wire
              ∙ sym (frames-append c back (m ∷ [])),
        )

    good_read :
        (inbound : StreamTransport) (m : List ℕ) (unread : List (List ℕ))
        → Fits max m
        → Has c max (m ∷ unread) inbound
        → (inbound' : StreamTransport) × (read_message quiet inbound ≡ some (ok m, inbound'))
          × Has c max unread inbound'
    unfolding frames
    good_read inbound m unread fits h =
        let (k, got) =
          read_message-lawful quiet inbound m (frames c unread)
            (subst (λ k. IsCodec k Fits) (sym h.codec) lawful) h.roomy
            (subst (λ n. Fits n m) (sym h.max_payload) fits) refl
            (h.bytes ∙ ap (λ k. (k.append [] m).0 ++ frames c unread) (sym h.codec)) in
        (
          record inbound {
            reader = record (inbound.reader) { bytes = frames c unread };
            deadlines = k;
          },
          got,
          record { codec = h.codec; max_payload = h.max_payload; roomy = h.roomy; bytes = refl },
        )

    every_round :
        (back unread : List (List ℕ)) (inbound outbound : StreamTransport)
        → All (Fits max) unread
        → All (λ m. length m ≤ cfg.max_length) unread
        → Has c max unread inbound
        → outbound.codec ≡ c
        → outbound.wire ≡ frames c back
        → ReachStream session start start (idle session back inbound outbound)
        → SendsAll session c start (back ++ unread)
    every_round back [] inbound outbound fits short h own wire r = record {
      final = idle session back inbound outbound;
      reached = r;
      sent = sym (append-nil back);
      wire = wire ∙ ap (frames c) (sym (append-nil back));
    }
    every_round back (m ∷ unread) inbound outbound fits short h own wire r =
        let (inbound', got, h') = good_read inbound m unread fits.0 h in
        let (good, own', wire') = good_write outbound back m fits.0 own wire in
        subst (SendsAll session c start) (append_assoc back (m ∷ []) unread) (
          every_round (back ++ m ∷ []) unread inbound'
            (write_messages takes_all outbound (m ∷ [])).1 fits.1 short.1 h' own' wire'
            (one_round back m short.0 got good r))

    pub serving-SendsAll :
        (msgs : List (List ℕ))
        → All (Fits max) msgs
        → All (λ m. length m ≤ cfg.max_length) msgs
        → Has c max msgs start
        → start.codec ≡ c
        → start.wire ≡ []
        → SendsAll (new_session none ref cfg now) c start msgs
    unfolding frames session
    serving-SendsAll msgs fits short h own unused =
        every_round [] msgs start start fits short h own unused
          (goes_on begins (inner (pumps (Feeding.calls_first refl) refl) refl))
