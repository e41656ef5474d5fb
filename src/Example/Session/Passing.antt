-- ===== src/Example/Session/Passing.antt =====
-- The echoing session: what its handler has passed on.
use gopher_socks.Common.{ℕ, ◌≡◌, refl, sym, ap, subst, ◌∙◌, List, [], ◌∷◌, ◌++◌, true, append-nil}
use gopher_socks.Listener.Session.{Session}
use gopher_socks.Listener.Session.Steps.{
  State, Step, sends, passes, wakes, gives_up, expires, takes, writer_exits, closes, parent_ends,
  touches,
}
use gopher_socks.Listener.Session.Steps as Steps
use gopher_socks.Listener.Session.Feed as Feeding
use gopher_socks.Listener.Session.Feed.{Feed, FeedStep}
use gopher_socks.Example.Session.{
  Handler, ranging, sending, waiting, echoed, finished, Echo, EchoStep, is_local, is_other, reads,
  read_fails, writes, write_fails, pumps, ranges, ends_range, queues, is_refused, blocks, gets_room,
  finds_ended, is_slow, goes_round, leaves, others, ReachEcho, begins, goes_on,
}

-- The message that the handler has, or had when it returned.
abbrev pub with_handler : Handler → List (List ℕ)
with_handler ranging = []
with_handler (sending m) = m ∷ []
with_handler (waiting m) = m ∷ []
with_handler echoed = []
with_handler (finished l) = l

-- What the handler has taken, it has passed on, but for that message.
abbrev Passed : Echo → Type 0
Passed x = x.state.accepted ++ with_handler x.handler ≡ x.feed.taken

is_other-accepted : {t u : State} (step : Step t u) → is_other step ≡ true → u.accepted ≡ t.accepted
is_other-accepted (takes m rest d idle e) h = refl
is_other-accepted (writer_exits e c idle) h = refl
is_other-accepted (closes e) h = refl
is_other-accepted (parent_ends e) h = refl
is_other-accepted (sends m d) h = absurd (cc)
is_other-accepted (passes m d) h = absurd (cc)
is_other-accepted (wakes front m back e d) h = absurd (cc)
is_other-accepted (gives_up front m back x e d) h = absurd (cc)
is_other-accepted (expires front m back e d) h = absurd (cc)
is_other-accepted (Steps.writes busy d) h = absurd (cc)
is_other-accepted (Steps.write_fails e busy d) h = absurd (cc)
is_other-accepted (touches now) h = absurd (cc)

local-taken : {f g : Feed} (step : FeedStep f g) → is_local step ≡ true → g.taken ≡ f.taken
local-taken (Feeding.calls_first q) h = refl
local-taken (Feeding.calls_again q) h = refl
local-taken (Feeding.puts m q room) h = refl
local-taken (Feeding.gives_up m e q d) h = refl
local-taken (Feeding.reads m now q) h = absurd (cc)
local-taken (Feeding.read_fails e q) h = absurd (cc)
local-taken (Feeding.takes m rest q) h = absurd (cc)
local-taken (Feeding.elsewhere s k) h = absurd (cc)

-- Where the handler is, once that is known.
known :
    (x : Echo) (h : Handler)
    → x.handler ≡ h
    → Passed x
    → x.state.accepted ++ with_handler h ≡ x.feed.taken
known x h q p = subst (λ a. x.state.accepted ++ with_handler a ≡ x.feed.taken) q p

passed_on :
    (xs : List (List ℕ)) (m : List ℕ) {taken : List (List ℕ)}
    → xs ++ m ∷ [] ≡ taken
    → (xs ++ m ∷ []) ++ [] ≡ taken
passed_on xs m e = append-nil (xs ++ m ∷ []) ∙ e

EchoStep-Passed : {x y : Echo} → EchoStep x y → Passed x → Passed y
EchoStep-Passed (reads m now q) p = p
EchoStep-Passed (read_fails e q) p = p
EchoStep-Passed (writes busy alive) p = p
EchoStep-Passed (write_fails e busy alive) p = p
EchoStep-Passed {x} (goes_round h) p = known x echoed h p
EchoStep-Passed {x} (leaves h) p = known x echoed h p
EchoStep-Passed (pumps step h) p = p ∙ sym (local-taken step h)
EchoStep-Passed {x} (ranges m rest h q) p =
    ap (λ l. l ++ m ∷ []) (sym (append-nil x.state.accepted) ∙ known x ranging h p)
EchoStep-Passed {x} (ends_range h q c) p = known x ranging h p
EchoStep-Passed {x} (queues m h q) p = passed_on x.state.accepted m (known x (sending m) h p)
EchoStep-Passed {x} (is_refused m e h q) p = known x (sending m) h p
EchoStep-Passed {x} (blocks m h q) p = known x (sending m) h p
EchoStep-Passed {x} (gets_room front m back h e q) p =
    passed_on x.state.accepted m (known x (waiting m) h p)
EchoStep-Passed {x} (finds_ended front m back e h w q) p = known x (waiting m) h p
EchoStep-Passed {x} (is_slow front m back h w q) p = known x (waiting m) h p
EchoStep-Passed {x} (others step h) p =
    ap (λ l. l ++ with_handler x.handler) (is_other-accepted step h) ∙ p

pub ReachEcho-Passed :
    {s : Session} {x : Echo}
    → ReachEcho s x
    → x.state.accepted ++ with_handler x.handler ≡ x.feed.taken
ReachEcho-Passed begins = refl
ReachEcho-Passed (goes_on r step) = EchoStep-Passed step (ReachEcho-Passed r)
