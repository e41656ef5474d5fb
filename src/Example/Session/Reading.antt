-- ===== src/Example/Session/Reading.antt =====
-- The echoing session: the steps in which its reader does not come back.
use gopher_socks.Common.{◌≡◌, refl, ap, Bool, true, false}
use gopher_socks.Listener.Session.Feed as Feeding
use gopher_socks.Listener.Session.Feed.{Feed, FeedStep}
use gopher_socks.Example.Session as Inner
use gopher_socks.Example.Session.{Echo, EchoStep, is_local, is_inner}

abbrev pub is_over : Feeding.Pump → Bool
is_over Feeding.unstarted = false
is_over Feeding.reading = false
is_over (Feeding.holding m) = false
is_over (Feeding.over l) = true

local-read : {f g : Feed} (step : FeedStep f g) → is_local step ≡ true → g.read ≡ f.read
local-read (Feeding.calls_first q) h = refl
local-read (Feeding.calls_again q) h = refl
local-read (Feeding.puts m q room) h = refl
local-read (Feeding.gives_up m e q d) h = refl
local-read (Feeding.reads m now q) h = absurd (cc)
local-read (Feeding.read_fails e q) h = absurd (cc)
local-read (Feeding.takes m rest q) h = absurd (cc)
local-read (Feeding.elsewhere s k) h = absurd (cc)

local-over :
    {f g : Feed} (step : FeedStep f g)
    → is_local step ≡ true
    → is_over g.pump ≡ false
    → is_over f.pump ≡ false
local-over (Feeding.calls_first q) h o = ap is_over q
local-over (Feeding.calls_again q) h o = o
local-over (Feeding.puts m q room) h o = ap is_over q
local-over (Feeding.gives_up m e q d) h o = ap is_over q
local-over (Feeding.reads m now q) h o = absurd (cc)
local-over (Feeding.read_fails e q) h o = absurd (cc)
local-over (Feeding.takes m rest q) h o = absurd (cc)
local-over (Feeding.elsewhere s k) h o = absurd (cc)

-- A step without the transport leaves what was read, and starts no reader that has returned.
pub record Unread (x y : Echo) : Type 0 where
  pub read : y.feed.read ≡ x.feed.read
  pub over : is_over y.feed.pump ≡ false → is_over x.feed.pump ≡ false

pub EchoStep-Unread : {x y : Echo} (step : EchoStep x y) → is_inner step ≡ true → Unread x y
EchoStep-Unread (Inner.reads m now q) h = absurd (cc)
EchoStep-Unread (Inner.read_fails e q) h = absurd (cc)
EchoStep-Unread (Inner.writes busy alive) h = absurd (cc)
EchoStep-Unread (Inner.write_fails e busy alive) h = absurd (cc)
EchoStep-Unread (Inner.leaves q) h = absurd (cc)
EchoStep-Unread (Inner.pumps step l) h = record {
  read = local-read step l;
  over = local-over step l;
}
EchoStep-Unread (Inner.ranges m rest q e) h = record { read = refl; over = λ o. o }
EchoStep-Unread (Inner.ends_range q e c) h = record { read = refl; over = λ o. o }
EchoStep-Unread (Inner.queues m q e) h = record { read = refl; over = λ o. o }
EchoStep-Unread (Inner.is_refused m e q r) h = record { read = refl; over = λ o. o }
EchoStep-Unread (Inner.blocks m q e) h = record { read = refl; over = λ o. o }
EchoStep-Unread (Inner.gets_room front m back q e room) h = record { read = refl; over = λ o. o }
EchoStep-Unread (Inner.finds_ended front m back d q e r) h = record { read = refl; over = λ o. o }
EchoStep-Unread (Inner.is_slow front m back q e r) h = record { read = refl; over = λ o. o }
EchoStep-Unread (Inner.goes_round q) h = record { read = refl; over = λ o. o }
EchoStep-Unread (Inner.others step q) h = record { read = refl; over = λ o. o }
