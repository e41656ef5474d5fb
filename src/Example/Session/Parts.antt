-- ===== src/Example/Session/Parts.antt =====
-- The echoing session, seen from each of its parts.
use gopher_socks.Common.{◌≡◌, refl, sym, ap, subst, ◌∙◌, [], ◌∷◌, some, true, false}
use gopher_socks.Errors.{sentinel, session_closed}
use gopher_socks.Listener.Session.{Session, touch, close_with, user_close, read_cause}
use gopher_socks.Listener.Session.Steps.{
  State, Step, sends, passes, wakes, gives_up, expires, takes, writer_exits, closes, parent_ends,
  touches, Reach, begin, next,
}
use gopher_socks.Listener.Session.Steps as Steps
use gopher_socks.Listener.Session.Wire.{calls_transport}
use gopher_socks.Listener.Session.Feed as Feeding
use gopher_socks.Listener.Session.Feed.{Feed, FeedStep, Keeps, ReachFeed, opens}
use gopher_socks.Listener.Session.Feeding.{Step-Keeps}
use gopher_socks.Example.Session.{
  Handler, sending, waiting, finished, echoed, Echo, EchoStep, is_local, is_other, reads,
  read_fails, writes, write_fails, pumps, ranges, ends_range, queues, is_refused, blocks, gets_room,
  finds_ended, is_slow, goes_round, leaves, others, is_inner, serving, ReachEcho, begins, goes_on,
  with_state,
}

-- The session has one reader, one writer and one handler: what each part of it has been through.
pub record Parts (s : Session) (x : Echo) : Type 0 where
  pub fed : ReachFeed s x.feed
  pub wrote : Reach s x.state
  pub one_session : x.feed.session ≡ x.state.session

-- At most one step of the session, in which nothing is written.
pub data Moves (t : State) : State → Type 0 where
  stays : Moves t t
  moves : {u : State} (step : Step t u) → calls_transport step ≡ false → Moves t u

local-session : {f g : Feed} (step : FeedStep f g) → is_local step ≡ true → g.session ≡ f.session
local-session (Feeding.calls_first q) h = refl
local-session (Feeding.calls_again q) h = refl
local-session (Feeding.puts m q room) h = refl
local-session (Feeding.gives_up m e q d) h = refl
local-session (Feeding.reads m now q) h = absurd (cc)
local-session (Feeding.read_fails e q) h = absurd (cc)
local-session (Feeding.takes m rest q) h = absurd (cc)
local-session (Feeding.elsewhere s k) h = absurd (cc)

is_other-quiet :
    {t u : State} (step : Step t u) → is_other step ≡ true → calls_transport step ≡ false
is_other-quiet (takes m rest d idle e) h = refl
is_other-quiet (writer_exits e c idle) h = refl
is_other-quiet (closes e) h = refl
is_other-quiet (parent_ends e) h = refl
is_other-quiet (sends m d) h = absurd (cc)
is_other-quiet (passes m d) h = absurd (cc)
is_other-quiet (wakes front m back e d) h = absurd (cc)
is_other-quiet (gives_up front m back x e d) h = absurd (cc)
is_other-quiet (expires front m back e d) h = absurd (cc)
is_other-quiet (Steps.writes busy d) h = absurd (cc)
is_other-quiet (Steps.write_fails e busy d) h = absurd (cc)
is_other-quiet (touches now) h = absurd (cc)

pub user_close-closes : (t : State) → Moves t (record t { session = user_close t.session })
unfolding user_close
user_close-closes t = moves (closes (some (sentinel session_closed))) refl

-- What a step that writes nothing is to SendToClient and the writer.
pub EchoStep-Moves :
    {x y : Echo} (step : EchoStep x y) → is_inner step ≡ true → Moves x.state y.state
EchoStep-Moves (reads m now q) h = moves (touches now) refl
EchoStep-Moves (read_fails e q) h = moves (closes (some (read_cause e))) refl
EchoStep-Moves (writes busy alive) h = absurd (cc)
EchoStep-Moves (write_fails e busy alive) h = absurd (cc)
EchoStep-Moves (pumps step l) h = stays
EchoStep-Moves (ranges m rest q e) h = stays
EchoStep-Moves (ends_range q e c) h = stays
EchoStep-Moves (queues m q e) h = moves (sends m e) refl
EchoStep-Moves (is_refused m e q r) h = stays
EchoStep-Moves (blocks m q e) h = moves (passes m (λ d r. cc)) refl
EchoStep-Moves (gets_room front m back q e room) h = moves (wakes front m back e room) refl
EchoStep-Moves (finds_ended front m back d q e r) h = moves (gives_up front m back d e r) refl
EchoStep-Moves (is_slow front m back q e r) h = moves (expires front m back e r) refl
EchoStep-Moves (goes_round q) h = stays
EchoStep-Moves {x} (leaves q) h = absurd (cc)
EchoStep-Moves (others step q) h = moves step (is_other-quiet step q)

module _ {s : Session} {x : Echo} (p : Parts s x) where
  -- A step of the session, as both sides see it.
  through : {t : State} (h : Handler) → Step x.state t → Parts s (with_state x t h)
  through {t} h step = record {
    fed = Feeding.goes_on p.fed (
        Feeding.elsewhere t.session
          (subst (λ a. Keeps a t.session) (sym p.one_session) (Step-Keeps step)));
    wrote = next p.wrote step;
    one_session = refl;
  }

  alone : (h : Handler) → Parts s (record x { handler = h })
  alone h = record { fed = p.fed; wrote = p.wrote; one_session = p.one_session }

EchoStep-Parts : {s : Session} {x y : Echo} → EchoStep x y → Parts s x → Parts s y
EchoStep-Parts (reads m now q) p = record {
  fed = Feeding.goes_on p.fed (Feeding.reads m now q);
  wrote = next p.wrote (touches now);
  one_session = ap (touch now) p.one_session;
}
EchoStep-Parts (read_fails e q) p = record {
  fed = Feeding.goes_on p.fed (Feeding.read_fails e q);
  wrote = next p.wrote (closes (some (read_cause e)));
  one_session = ap (close_with (some (read_cause e))) p.one_session;
}
EchoStep-Parts (writes busy alive) p = record {
  fed = p.fed;
  wrote = next p.wrote (Steps.writes busy alive);
  one_session = p.one_session;
}
EchoStep-Parts {x = x} (write_fails e busy alive) p =
    through p x.handler (Steps.write_fails e busy alive)
EchoStep-Parts (pumps step h) p = record {
  fed = Feeding.goes_on p.fed step;
  wrote = p.wrote;
  one_session = local-session step h ∙ p.one_session;
}
EchoStep-Parts (ranges m rest h q) p = record {
  fed = Feeding.goes_on p.fed (Feeding.takes m rest q);
  wrote = p.wrote;
  one_session = p.one_session;
}
EchoStep-Parts (ends_range h q c) p = alone p (finished [])
EchoStep-Parts (queues m h q) p = through p echoed (sends m q)
EchoStep-Parts (is_refused m e h q) p = alone p (finished (m ∷ []))
EchoStep-Parts (blocks m h q) p = record {
  fed = p.fed;
  wrote = next p.wrote (passes m (λ e r. cc));
  one_session = p.one_session;
}
EchoStep-Parts (gets_room front m back h e q) p = through p echoed (wakes front m back e q)
EchoStep-Parts (finds_ended front m back x h e q) p = record {
  fed = p.fed;
  wrote = next p.wrote (gives_up front m back x e q);
  one_session = p.one_session;
}
EchoStep-Parts (is_slow front m back h e q) p =
    through p (finished (m ∷ [])) (expires front m back e q)
EchoStep-Parts (goes_round q) p = alone p gopher_socks.Example.Session.ranging
EchoStep-Parts (leaves q) p =
    unfold user_close in through p (finished []) (closes (some (sentinel session_closed)))
EchoStep-Parts {x = x} (others step h) p = through p x.handler step

pub ReachEcho-Parts : {s : Session} {x : Echo} → ReachEcho s x → Parts s x
ReachEcho-Parts begins = record { fed = opens; wrote = begin; one_session = refl }
ReachEcho-Parts (goes_on r step) = EchoStep-Parts step (ReachEcho-Parts r)
