-- ===== src/Listener/Session/Feeding.antt =====
-- session.go, pumpData: the channel of Data has the messages in order, within its size.
use gopher_socks.Common.{
  ℕ, ◌+◌, ◌≤◌, ◌≡◌, ◌≢◌, refl, sym, ap, subst, ◌∙◌, List, [], ◌∷◌, ◌++◌, Option, none, some, Bool,
  true, false, length, length-append, append_assoc, append-nil, arith, Bool-cases, inl, inr,
}
use gopher_socks.Common.Int.{ℤ, pos, pos_part, max_ℤ}
use gopher_socks.Errors.{Error, sentinel, slow_consumer}
use gopher_socks.Listener.Server.{SessionRef}
use gopher_socks.Listener.Config.{ServerConfig}
use gopher_socks.Listener.Session.{
  Session, new_session, touch, close_with, read_cause, wait_to_send,
}
use gopher_socks.Listener.Session.Steps.{
  State, Step, sends, passes, wakes, gives_up, expires, takes, writes, write_fails, writer_exits,
  closes, parent_ends, touches,
}
use gopher_socks.Listener.Session.Feed.{
  Pump, unstarted, reading, holding, over, Feed, IsEnded, Keeps, FeedStep, calls_first, calls_again,
  reads, read_fails, puts, gives_up, takes, elsewhere, ReachFeed, opens, goes_on,
}

-- What has been read and is not in the channel.
abbrev pub in_hand : Pump → List (List ℕ)
in_hand unstarted = []
in_hand reading = []
in_hand (holding m) = m ∷ []
in_hand (over none) = []
in_hand (over (some m)) = m ∷ []

-- What each position of the goroutine means.
abbrev pub Position : List (List ℕ) → Bool → Option Error → Pump → Type 0
Position read closed cause unstarted = (read ≡ []) × (closed ≡ false)
Position read closed cause reading = closed ≡ false
Position read closed cause (holding m) = closed ≡ false
Position read closed cause (over none) = (closed ≡ true) × (cause ≢ none)
Position read closed cause (over (some m)) = (closed ≡ true) × (cause ≢ none)

pub record Feeds (size : ℤ) (f : Feed) : Type 0 where
  pub in_order : f.taken ++ (f.channel ++ in_hand f.pump) ≡ f.read
  pub room : length f.channel ≤ pos_part size
  pub position : Position f.read f.closed f.session.cause f.pump
  pub same_size : f.session.buf_size ≡ size
  pub ends : IsEnded f.session

pub close_with-Keeps : (e : Option Error) (s : Session) → Keeps s (close_with e s)
unfolding close_with
close_with-Keeps e s = elim (Bool-cases s.closed) [
  | inl c ↦ rw (c, close_with) (record { buf_size = refl; ended = λ h. h; closing = λ h. h })
  | inr c ↦
      rw (c, close_with) (record { buf_size = refl; ended = λ h q. cc; closing = λ h c q. cc })
]

Position-Keeps :
    (read : List (List ℕ)) (closed : Bool) (s s' : Session) (p : Pump)
    → Keeps s s'
    → Position read closed s.cause p
    → Position read closed s'.cause p
Position-Keeps read closed s s' unstarted k h = h
Position-Keeps read closed s s' reading k h = h
Position-Keeps read closed s s' (holding m) k h = h
Position-Keeps read closed s s' (over none) k h = (h.0, k.ended h.1)
Position-Keeps read closed s s' (over (some m)) k h = (h.0, k.ended h.1)

touch-Keeps : (now : ℤ) (s : Session) → Keeps s (touch now s)
unfolding touch
touch-Keeps now s = record { buf_size = refl; ended = λ h. h; closing = λ h. h }

close_with-ended : (e : Error) (s : Session) → IsEnded s → (close_with (some e) s).cause ≢ none
unfolding close_with
close_with-ended e s h = elim (Bool-cases s.closed) [
  | inl c ↦ rw (c, close_with) (h c)
  | inr c ↦ rw (c, close_with) (λ q. cc)
]

-- The position of the goroutine, once it is known.
at :
    {size : ℤ} (f : Feed) (p : Pump)
    → Feeds size f
    → f.pump ≡ p
    → Position f.read f.closed f.session.cause p
at f p v q = subst (Position f.read f.closed f.session.cause) q v.position

order_at :
    {size : ℤ} (f : Feed) (p : Pump)
    → Feeds size f
    → f.pump ≡ p
    → f.taken ++ (f.channel ++ in_hand p) ≡ f.read
order_at f p v q = subst (λ x. f.taken ++ (f.channel ++ in_hand x) ≡ f.read) q v.in_order

empty_hand : (f : Feed) → f.taken ++ (f.channel ++ []) ≡ f.read → f.taken ++ f.channel ≡ f.read
empty_hand f h = ap (◌++◌ f.taken) (sym (append-nil f.channel)) ∙ h

FeedStep-Feeds : {size : ℤ} {f g : Feed} → FeedStep f g → Feeds size f → Feeds size g
FeedStep-Feeds {size} {f} (calls_first q) v = record {
  in_order = order_at f unstarted v q;
  room = v.room;
  position = (at f unstarted v q).1;
  same_size = v.same_size;
  ends = v.ends;
}
FeedStep-Feeds (calls_again q) v = v
FeedStep-Feeds {size} {f} (reads m now q) v = record {
  in_order =
      sym (append_assoc f.taken f.channel (m ∷ []))
      ∙ ap (λ l. l ++ m ∷ []) (empty_hand f (order_at f reading v q));
  room = v.room;
  position = at f reading v q;
  same_size = (touch-Keeps now f.session).buf_size ∙ v.same_size;
  ends = (touch-Keeps now f.session).closing v.ends;
}
FeedStep-Feeds {size} {f} (read_fails e q) v =
    let k = close_with-Keeps (some (read_cause e)) f.session in
    record {
      in_order = order_at f reading v q;
      room = v.room;
      position = (refl, close_with-ended (read_cause e) f.session v.ends);
      same_size = k.buf_size ∙ v.same_size;
      ends = k.closing v.ends;
    }
FeedStep-Feeds {size} {f} (puts m q space) v = record {
  in_order = ap (◌++◌ f.taken) (append-nil (f.channel ++ m ∷ [])) ∙ order_at f (holding m) v q;
  room = omega (arith, length-append f.channel (m ∷ []), ap pos_part v.same_size);
  position = at f (holding m) v q;
  same_size = v.same_size;
  ends = v.ends;
}
FeedStep-Feeds {size} {f} (gives_up m e q c) v = record {
  in_order = order_at f (holding m) v q;
  room = v.room;
  position = (refl, λ n. cc);
  same_size = v.same_size;
  ends = v.ends;
}
FeedStep-Feeds {size} {f} (takes m rest q) v = record {
  in_order =
      append_assoc f.taken (m ∷ []) (rest ++ in_hand f.pump)
      ∙ ap (λ c. f.taken ++ (c ++ in_hand f.pump)) (sym q)
      ∙ v.in_order;
  room = omega (arith, v.room, ap length q);
  position = v.position;
  same_size = v.same_size;
  ends = v.ends;
}
FeedStep-Feeds {size} {f} (elsewhere s k) v = record {
  in_order = v.in_order;
  room = v.room;
  position = Position-Keeps f.read f.closed f.session s f.pump k v.position;
  same_size = k.buf_size ∙ v.same_size;
  ends = k.closing v.ends;
}

length-in_hand : (p : Pump) → length (in_hand p) ≤ 1
length-in_hand unstarted = omega arith
length-in_hand reading = omega arith
length-in_hand (holding m) = omega arith
length-in_hand (over none) = omega arith
length-in_hand (over (some m)) = omega arith

read_ahead :
    {size : ℤ} (f : Feed) → Feeds size f → length f.read ≤ length f.taken + pos_part size + 1
read_ahead f v = omega (
  arith,
  v.room,
  ap length v.in_order,
  length-append f.taken (f.channel ++ in_hand f.pump),
  length-append f.channel (in_hand f.pump),
  length-in_hand f.pump,
)

pub ReachFeed-holds : (s : Session) (f : Feed) → IsEnded s → ReachFeed s f → Feeds s.buf_size f
ReachFeed-holds s f h opens = record {
  in_order = refl;
  room = omega arith;
  position = (refl, refl);
  same_size = refl;
  ends = h;
}
ReachFeed-holds s f h (goes_on r step) = FeedStep-Feeds step (ReachFeed-holds s _ h r)

pub same_Keeps :
    {s s' : Session}
    → s'.buf_size ≡ s.buf_size
    → s'.cause ≡ s.cause
    → s'.closed ≡ s.closed
    → Keeps s s'
same_Keeps b c d = record {
  buf_size = b;
  ended = λ h q. h (sym c ∙ q);
  closing = λ h q r. h (sym d ∙ q) (sym c ∙ r);
}

-- What the writing side of the session does is of that kind.
pub Step-Keeps : {t u : State} → Step t u → Keeps t.session u.session
Step-Keeps (sends msg q) = same_Keeps refl refl refl
Step-Keeps (passes msg q) = same_Keeps refl refl refl
Step-Keeps (wakes front msg back e q) = same_Keeps refl refl refl
Step-Keeps (gives_up front msg back x e q) = same_Keeps refl refl refl
Step-Keeps {t} (expires front msg back e q) =
    unfold wait_to_send in close_with-Keeps (some (sentinel slow_consumer)) t.session
Step-Keeps (takes m rest d idle e) = same_Keeps refl refl refl
Step-Keeps (writes busy d) = same_Keeps refl refl refl
Step-Keeps {t} (write_fails e busy d) = close_with-Keeps (some e) t.session
Step-Keeps (writer_exits e q idle) = same_Keeps refl refl refl
Step-Keeps {t} (closes e) = close_with-Keeps e t.session
Step-Keeps (parent_ends e) = record { buf_size = refl; ended = λ h q. cc; closing = λ h c q. cc }
Step-Keeps {t} (touches now) = touch-Keeps now t.session

-- A session of any server, with what the rest of the program does to it, as far as that leaves its buffer
-- size and an ended context alone. The consumer of Data has received the messages that were read, in
-- order, followed by those in the channel and the one that the goroutine has in hand or had when it
-- returned. The channel holds at most BufferSize messages, or one if that is less, so no more than
-- these and one in hand are read ahead; nothing is read before Data is called; and the channel is closed
-- exactly when the goroutine has returned, which it does only with the session's context ended.
pub new_session-Feeds :
    (parent : Option Error) (ref : SessionRef) (cfg : ServerConfig) (now : ℤ) (f : Feed)
    → ReachFeed (new_session parent ref cfg now) f
    → Feeds (max_ℤ cfg.buffer_size (pos 1)) f
      × (length f.read ≤ length f.taken + pos_part (max_ℤ cfg.buffer_size (pos 1)) + 1)
unfolding new_session
new_session-Feeds parent ref cfg now f r =
    let v = ReachFeed-holds (new_session parent ref cfg now) f (λ c. cc) r in (v, read_ahead f v)
