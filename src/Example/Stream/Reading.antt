-- ===== src/Example/Stream/Reading.antt =====
-- The echoing session: what its reader has read of the stream.
use gopher_socks.Common.{
  ℕ, ◌+◌, ◌≤◌, ◌≡◌, refl, sym, ap, subst, ◌∙◌, List, [], ◌∷◌, ◌++◌, Option, none, some, false,
  append_assoc, All, All-append_right, Bool-cases, Option-cases, inl, inr,
}
use gopher_socks.Common.Int.{ℤ}
use gopher_socks.Errors.{Result, ok, err}
use gopher_socks.Framing.Reader.{Reader}
use gopher_socks.Framing.Codec.{Codec}
use gopher_socks.Framing.Laws.{IsCodec}
use gopher_socks.Framing.Empty.{Dry}
use gopher_socks.Listener.Stream.{StreamTransport, ReadEnv, read_message, received, needs_deadline}
use gopher_socks.Listener.Stream.Batches.{frames}
use gopher_socks.Listener.Session.{Session}
use gopher_socks.Example.Session.Reading.{is_over, Unread, EchoStep-Unread}
use gopher_socks.Example.Stream.{
  Echoing, StreamStep, reads, read_fails, written, lost, inner, ReachStream, begins, goes_on,
}

-- A call of readMessage that returns a message has it from the codec.
record Got (t : StreamTransport) (m : List ℕ) (t' : StreamTransport) : Type 0 where
  read : t.codec.read t.reader t.max ≡ some (ok m, t'.reader)
  codec : t'.codec ≡ t.codec
  max : t'.max ≡ t.max

received-Got :
    (t u : StreamTransport) (o : Option (Result (List ℕ) × Reader)) (m : List ℕ)
    (t' : StreamTransport)
    → t.codec.read t.reader t.max ≡ o
    → u.codec ≡ t.codec
    → u.max ≡ t.max
    → received u o ≡ some (ok m, t')
    → Got t m t'
received-Got t u none m t' e c n h = cc
received-Got t u (some (res, r)) m t' e c n h =
    let same : record u { reader = r } ≡ t' = cc in
    let result : res ≡ ok m = cc in
    record {
      read = e ∙ ap (λ x. some (x, r)) result ∙ ap (λ x. some (ok m, x.reader)) same;
      codec = ap (λ x. x.codec) (sym same) ∙ c;
      max = ap (λ x. x.max) (sym same) ∙ n;
    }

read_message-Got :
    (env : ReadEnv) (t : StreamTransport) (m : List ℕ) (t' : StreamTransport)
    → read_message env t ≡ some (ok m, t')
    → Got t m t'
unfolding read_message
read_message-Got env t m t' h = elim (Bool-cases (needs_deadline t env)) [
  | inr off ↦ received-Got t t _ m t' refl refl refl (rw off at h)
  | inl on ↦ elim (Option-cases env.set_deadline) [
    | inl quiet ↦
        received-Got t (record t { deadlines = t.deadlines + 1 }) _ m t' refl refl refl
          (rw (on, quiet) at h)
    | inr (e, loud) ↦ absurd (
        let f : some (err e, record t { deadlines = t.deadlines + 1 }) ≡ some (ok m, t') =
          rw (on, loud) at h in
        cc)
  ]
]

-- The stream has the frames of these messages still.
pub record Has (c : Codec) (max : ℤ) (unread : List (List ℕ)) (t : StreamTransport) : Type 0 where
  pub codec : t.codec ≡ c
  pub max_payload : t.max ≡ max
  pub roomy : 1 ≤ t.reader.size
  pub bytes : t.reader.bytes ≡ frames c unread

module _ {Fits : ℤ → List ℕ → Type 0} (c : Codec) (lawful : IsCodec c Fits) (dry : Dry c)
    (max : ℤ) where
  -- What is read from such a stream is the first of them.
  record Next (unread : List (List ℕ)) (m : List ℕ) (t' : StreamTransport) : Type 0 where
    rest : List (List ℕ)
    first : unread ≡ m ∷ rest
    has : Has c max rest t'

  read_by :
      (t : StreamTransport) (m : List ℕ) (t' : StreamTransport) (unread : List (List ℕ))
      → Has c max unread t
      → Got t m t'
      → c.read t.reader max ≡ some (ok m, t'.reader)
  read_by t m t' unread h g =
      ap (λ n. c.read t.reader n) (sym h.max_payload)
      ∙ ap (λ k. k.read t.reader t.max) (sym h.codec)
      ∙ g.read

  read_from :
      (t : StreamTransport) (m : List ℕ) (t' : StreamTransport) (unread : List (List ℕ))
      → All (Fits max) unread
      → Has c max unread t
      → Got t m t'
      → Next unread m t'
  unfolding frames
  read_from t m t' [] fits h g =
      absurd (dry max t.reader t'.reader m h.roomy h.bytes (read_by t m t' [] h g))
  read_from t m t' (n ∷ unread) fits h g =
      let by_law = lawful.reads max n (frames c unread) t.reader h.roomy fits.0 h.bytes in
      let both = sym (read_by t m t' (n ∷ unread) h g) ∙ by_law in
      let reader : t'.reader ≡ record t.reader { bytes = frames c unread } = cc in
      record {
        rest = unread;
        first = cc;
        has = record {
          codec = g.codec ∙ h.codec;
          max_payload = g.max ∙ h.max_payload;
          roomy = subst (λ (r : Reader). 1 ≤ r.size) (sym reader) h.roomy;
          bytes = ap (λ r. r.bytes) reader;
        };
      }

  -- The messages that were read are the first ones, and while the reader goes on the stream has the rest.
  record Inbound (msgs : List (List ℕ)) (x : Echoing) : Type 0 where
    unread : List (List ℕ)
    split : x.echo.feed.read ++ unread ≡ msgs
    has : is_over x.echo.feed.pump ≡ false → Has c max unread x.inbound

  All-append_rest :
      (front back : List (List ℕ)) {msgs : List (List ℕ)}
      → front ++ back ≡ msgs
      → All (Fits max) msgs
      → All (Fits max) back
  All-append_rest front back e fits =
      All-append_right (Fits max) front back (subst (All (Fits max)) (sym e) fits)

  kept :
      {msgs : List (List ℕ)} {x y : Echoing}
      → Inbound msgs x
      → Unread x.echo y.echo
      → y.inbound ≡ x.inbound
      → Inbound msgs y
  kept p u i = record {
    unread = p.unread;
    split = ap (λ l. l ++ p.unread) u.read ∙ p.split;
    has = λ o. subst (Has c max p.unread) (sym i) (p.has (u.over o));
  }

  StreamStep-Inbound :
      {msgs : List (List ℕ)} {x y : Echoing}
      → All (Fits max) msgs
      → StreamStep x y
      → Inbound msgs x
      → Inbound msgs y
  StreamStep-Inbound {x = x} fits (reads env m inbound now q e) p =
      let read = x.echo.feed.read in
      let n =
        read_from x.inbound m inbound p.unread (All-append_rest read p.unread p.split fits)
          (p.has (ap is_over q)) (read_message-Got env x.inbound m inbound e) in
      record {
        unread = n.rest;
        split = append_assoc read (m ∷ []) n.rest ∙ ap (◌++◌ read) (sym n.first) ∙ p.split;
        has = λ o. n.has;
      }
  StreamStep-Inbound fits (read_fails env e inbound q h) p = record {
    unread = p.unread;
    split = p.split;
    has = λ o. cc;
  }
  StreamStep-Inbound fits (written env busy alive good) p =
      kept p (record { read = refl; over = λ o. o }) refl
  StreamStep-Inbound fits (lost env e busy alive bad) p =
      kept p (record { read = refl; over = λ o. o }) refl
  StreamStep-Inbound fits (inner step h) p = kept p (EchoStep-Unread step h) refl

  ReachStream-inbound :
      {s : Session} {inbound outbound : StreamTransport} {x : Echoing} (msgs : List (List ℕ))
      → All (Fits max) msgs
      → Has c max msgs inbound
      → ReachStream s inbound outbound x
      → Inbound msgs x
  ReachStream-inbound msgs fits h begins = record { unread = msgs; split = refl; has = λ o. h }
  ReachStream-inbound msgs fits h (goes_on r step) =
      StreamStep-Inbound fits step (ReachStream-inbound msgs fits h r)

  -- A reader that has read so far has read the first of the messages.
  pub ReachStream-front :
      {s : Session} {inbound outbound : StreamTransport} {x : Echoing} (msgs : List (List ℕ))
      → All (Fits max) msgs
      → Has c max msgs inbound
      → ReachStream s inbound outbound x
      → (unread : List (List ℕ)) × (x.echo.feed.read ++ unread ≡ msgs)
  ReachStream-front msgs fits h r = let p = ReachStream-inbound msgs fits h r in (p.unread, p.split)
