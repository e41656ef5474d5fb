-- ===== src/Example/Datagrams/Back.antt =====
-- example/udplistener: what a session sends back came from its client, in order.
use Prim.Native.String.{String}
use mathlib.Core.List.{Sublist, sublist-append_left}
use mathlib.Core.List.Sublist
use gopher_socks.Common.{
  ℕ, ◌≡◌, refl, sym, ap, subst, ◌∙◌, List, [], ◌∷◌, ◌++◌, Option, none, some, true, ◌==◌, ==_iff,
  arith, Bool-cases, inl, inr,
}
use gopher_socks.Common.Int.{pos}
use gopher_socks.Errors.{Error, ok}
use gopher_socks.Listener.Config.Options.{ServerOption}
use gopher_socks.Listener.Udp.{UdpServer, set, new_udp, write_messages}
use gopher_socks.Listener.Udp.Steps as Server
use gopher_socks.Listener.Udp.InOrder.{Ordered}
use gopher_socks.Listener.Udp.Reachable.{Reach-Ordered}
use gopher_socks.Listener.Session.{read_cause}
use gopher_socks.Listener.Session.Steps.{touches, closes}
use gopher_socks.Listener.Session.Messages.{udp-IsWriter}
use gopher_socks.Example.Session as Inner
use gopher_socks.Example.Session.{Echo, EchoStep, ReachEcho, is_inner}
use gopher_socks.Example.Session.Parts.{Moves, stays, moves, EchoStep-Moves, user_close-closes}
use gopher_socks.Example.Session.Reading.{EchoStep-Unread}
use gopher_socks.Example.Session.Carrying.{
  Carrying, new_session-Carrying, Moves-Carrying, write_batch-Carrying, write_error-Carrying,
  Carrying-front,
}
use gopher_socks.Example.Datagrams.{
  Serving, ServingStep, datagram, elsewhere, reads, read_fails, written, lost, leaves, goes_round,
  inner, is_elsewhere, ReachServing, begins, goes_on, ReachServing-Reach,
}

-- A session has come to this by its own steps, and `given` is what the server has given to its reader.
record Echoes (e : Echo) (wire given : List (List ℕ)) : Type 0 where
  carrying : Carrying write_messages e wire
  same_read : e.feed.read ≡ given

module _ {A B : Type 0} (P : ℕ → A → B → Type 0) (f : ℕ → A) (g : ℕ → B) (i : ℕ) where
  set-both :
      (a : A) (b : B)
      → ((j : ℕ) → P j (f j) (g j))
      → P i a b
      → (j : ℕ) → P j (set f i a j) (set g i b j)
  set-both a b h p j = elim (Bool-cases (i == j)) [
    | inr other ↦ rw other (h j)
    | inl same ↦ rw same (subst (λ k. P k a b) ((==_iff i j).0 same) p)
  ]

  set-one : (a : A) → ((j : ℕ) → P j (f j) (g j)) → P i a (g i) → (j : ℕ) → P j (set f i a j) (g j)
  set-one a h p j = elim (Bool-cases (i == j)) [
    | inr other ↦ rw other (h j)
    | inl same ↦ rw same (subst (λ k. P k a (g k)) ((==_iff i j).0 same) p)
  ]

-- So have all sessions.
abbrev AllEcho : Serving → Type 0
AllEcho x = (j : ℕ) → Echoes (x.at j) (x.sent j) (x.server.read j)

elsewhere-read :
    {t u : Server.State} (step : Server.Step t u) → is_elsewhere step ≡ true → u.read ≡ t.read
elsewhere-read (Server.datagram now addr d q) h = absurd (cc)
elsewhere-read (Server.reads i done first m rest q) h = absurd (cc)
elsewhere-read (Server.ticks now) h = refl
elsewhere-read (Server.closes e sess) h = refl
elsewhere-read (Server.stops answer) h = refl

-- One session makes a step in which nothing is written.
step-AllEcho :
    (x : Serving) (i : ℕ) {e : Echo}
    → AllEcho x
    → EchoStep (x.at i) e
    → Moves (x.at i).state e.state
    → e.feed.read ≡ (x.at i).feed.read
    → AllEcho (record x { at = set x.at i e })
step-AllEcho x i {e} h step m q =
    set-one (λ j y w. Echoes y w (x.server.read j)) x.at x.sent i e h
      (record {
        carrying = Moves-Carrying write_messages step m (h i).carrying;
        same_read = q ∙ (h i).same_read;
      })

ServingStep-AllEcho : {x y : Serving} → Ordered x.server → ServingStep x y → AllEcho x → AllEcho y
ServingStep-AllEcho {x} o (datagram parent now addr d short) h =
    let new =
      new_session-Carrying write_messages parent (record { id = x.server.fresh; addr = addr })
        x.server.udp.cfg now in
    set-both (λ j y w. Echoes y w (x.server.read j)) x.at x.sent x.server.fresh _ [] h
      (subst (Echoes _ []) (sym (o.unused x.server.fresh (omega arith)).1)
        (record { carrying = new; same_read = refl }))
ServingStep-AllEcho {x} o (elsewhere step q) h =
    λ j. subst (λ r. Echoes (x.at j) (x.sent j) (r j)) (sym (elsewhere-read step q)) (h j)
ServingStep-AllEcho {x} o (reads i done first m rest now old q e) h =
    set-both (λ j y r. Echoes y (x.sent j) r) x.at x.server.read i _ _ h
      (record {
        carrying =
            Moves-Carrying write_messages (Inner.reads m now q) (moves (touches now) refl)
              (h i).carrying;
        same_read = ap (λ l. l ++ m ∷ []) (h i).same_read;
      })
ServingStep-AllEcho {x} o (read_fails i done first e rest old q r) h =
    step-AllEcho x i h (Inner.read_fails e q) (moves (closes (some (read_cause e))) refl) refl
ServingStep-AllEcho {x} o (written i answers old busy alive good) h =
    set-both (λ j y w. Echoes y w (x.server.read j)) x.at x.sent i _ _ h
      (record {
        carrying = write_batch-Carrying write_messages answers busy alive good (h i).carrying;
        same_read = (h i).same_read;
      })
ServingStep-AllEcho {x} o (lost i answers e old busy alive bad) h =
    set-both (λ j y w. Echoes y w (x.server.read j)) x.at x.sent i _ _ h
      (record {
        carrying = write_error-Carrying write_messages answers e busy alive bad (h i).carrying;
        same_read = (h i).same_read;
      })
ServingStep-AllEcho {x} o (leaves i now q old stale) h =
    step-AllEcho x i h (Inner.leaves q) (user_close-closes (x.at i).state) refl
ServingStep-AllEcho {x} o (goes_round i now q old young) h =
    step-AllEcho x i h (Inner.goes_round q) stays refl
ServingStep-AllEcho {x} o (inner i step old q away) h =
    step-AllEcho x i h step (EchoStep-Moves step q) (EchoStep-Unread step q).read

ReachServing-AllEcho :
    (host : String) (port : ℕ) (parent : Option Error) (opts : List ServerOption) (u : UdpServer)
    {x : Serving}
    → new_udp host port parent opts ≡ ok u
    → ReachServing u x
    → AllEcho x
ReachServing-AllEcho host port parent opts u made begins = λ j. record {
  carrying = new_session-Carrying write_messages none _ u.cfg (pos 0);
  same_read = refl;
}
ReachServing-AllEcho host port parent opts u made (goes_on r step) =
    ServingStep-AllEcho (Reach-Ordered host port parent opts u _ made (ReachServing-Reach r)) step
      (ReachServing-AllEcho host port parent opts u made r)

-- What has gone out for the session at `i`.
pub record SendsBack (x : Serving) (i : ℕ) : Type 0 where
  pub later : List (List ℕ)
  pub front : x.sent i ++ later ≡ x.server.read i
  pub in_order : Sublist (x.sent i) (x.server.arrived (x.server.client i))

-- In every state that a new UDP server reaches that runs the UDP listener program, whatever its read loop, the
-- ticks of reapIdle, the closings, and each session's reader, handler and writer do and in whatever order, and
-- whatever the network answers: the datagrams that have gone out for a session are the first of those that
-- it has read, unchanged and in order; and they came from the address of its client, each of them sent
-- back at most once and in the order in which they came.
pub datagrams_in_order :
    (host : String) (port : ℕ) (parent : Option Error) (opts : List ServerOption) (u : UdpServer)
    (x : Serving) (i : ℕ)
    → new_udp host port parent opts ≡ ok u
    → ReachServing u x
    → SendsBack x i
datagrams_in_order host port parent opts u x i made r =
    let p = ReachServing-AllEcho host port parent opts u made r i in
    let (later, sent) = Carrying-front write_messages (x.at i) (x.sent i) udp-IsWriter p.carrying in
    let front = sent ∙ p.same_read in
    let ordered = Reach-Ordered host port parent opts u x.server made (ReachServing-Reach r) in
    record {
      later = later;
      front = front;
      in_order =
          Sublist.trans (subst (Sublist (x.sent i)) front (sublist-append_left (x.sent i) later)) (
            Sublist.trans (sublist-append_left (x.server.read i) (x.server.udp.inbox i))
              (ordered.in_order i));
    }
