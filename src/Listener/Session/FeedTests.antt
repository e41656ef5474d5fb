-- ===== src/Listener/Session/FeedTests.antt =====
-- session.go, Data: a consumer that has taken the first of two messages.
use gopher_socks.Common.{ℕ, ◌+◌, ◌≤◌, refl, List, [], ◌∷◌, none, false, length, arith}
use gopher_socks.Common.Int.{pos, pos_part, max_ℤ}
use gopher_socks.Listener.Config.{default_config}
use gopher_socks.Listener.Server.{SessionRef}
use gopher_socks.Listener.Session.{Session, new_session, touch, send_to_client}
use gopher_socks.Listener.Session.Steps.{sends, start, accept}
use gopher_socks.Listener.Session.Feed.{
  Feed, holding, ReachFeed, opens, goes_on, calls_first, reads, puts, takes, elsewhere,
}
use gopher_socks.Listener.Session.Feeding.{Feeds, Step-Keeps, new_session-Feeds}

abbrev iris : SessionRef
iris = record { id = 9; addr = "192.0.2.9:9000" }

abbrev opened : Session
opened = new_session none iris default_config (pos 0)

abbrev first : List ℕ
first = 1 ∷ []

abbrev second : List ℕ
second = 2 ∷ []

-- SendToClient meanwhile puts a message into the queue for the client.
abbrev sent : Session
sent = (accept (7 ∷ []) (start (touch (pos 8) (touch (pos 5) opened)))).session

abbrev one_taken : Feed
one_taken = record {
  session = sent;
  pump = holding second;
  channel = [];
  closed = false;
  read = first ∷ second ∷ [];
  taken = first ∷ [];
}

one_taken-reached : ReachFeed opened one_taken
unfolding new_session touch send_to_client
one_taken-reached =
    goes_on
      (goes_on
        (goes_on
          (goes_on (goes_on (goes_on opens (calls_first refl)) (reads first (pos 5) refl))
            (puts first refl (omega arith)))
          (takes first [] refl))
        (reads second (pos 8) refl))
      (elsewhere sent
        (Step-Keeps {t = start (touch (pos 8) (touch (pos 5) opened))} (sends (7 ∷ []) refl)))

new_session-Feeds_example :
    Feeds (max_ℤ default_config.buffer_size (pos 1)) one_taken
    × (length one_taken.read
        ≤ length one_taken.taken + pos_part (max_ℤ default_config.buffer_size (pos 1)) + 1)
new_session-Feeds_example =
    new_session-Feeds none iris default_config (pos 0) one_taken one_taken-reached
