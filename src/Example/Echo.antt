-- ===== src/Example/Echo.antt =====
-- example/: what the four listener programs have in common, the echoing handler and the shutdown.
use gopher_socks.Common.{
  ℕ, ◌*◌, ◌≡◌, ◌≢◌, refl, ap, List, [], ◌∷◌, ◌++◌, Option, none, some, Bool, true, false,
  if◌then◌else◌, Bool-cases, inl, inr,
}
use gopher_socks.Common.Int.{ℤ, pos, ◌-ℤ◌, ltb_ℤ}
use gopher_socks.Errors.{Error}
use gopher_socks.Listener.Config.{second}
use gopher_socks.Listener.Session.{Session, Ready, send, user_close}

-- A message that the loop gets from Data: what the session's other goroutines have done since the last
-- one, the case that the select of SendToClient takes if it waits, and the time at which it is done.
pub record Item : Type 0 where
  pub msg : List ℕ
  pub meanwhile : Session → Session
  pub ready : Ready
  pub now : ℤ

-- How the loop ends: Data is closed, SendToClient failed, or the session was idle and is closed.
pub data Ended : Type 0 where
  data_closed : Ended
  send_failed : Error → Ended
  went_idle : Ended

pub record Echoed : Type 0 where
  pub echoed : List (List ℕ)
  pub ended : Ended
  pub session : Session

abbrev pub also : List ℕ → Echoed → Echoed
also m r = record r { echoed = m ∷ r.echoed }

abbrev pub after_send : List ℕ → (Session → Echoed) → Option Error × Session → Echoed
after_send m go_on (some e, s) = record { echoed = []; ended = send_failed e; session = s }
after_send m go_on (none, s) = also m (go_on s)

-- The loop of handleSession, and of wslistener's echo.
unfoldable pub echo : List Item → Session → Echoed
echo [] s = record { echoed = []; ended = data_closed; session = s }
echo (i ∷ items) s = after_send (i.msg) (echo items) (send i.msg i.ready (i.meanwhile s))

-- The end of a round of udplistener: a session that has been silent for more than a minute is closed.
abbrev pub stale_check : ℤ → (Session → Echoed) → Session → Echoed
stale_check now go_on s =
    if ltb_ℤ (pos (second * 60)) (now -ℤ s.last)
    then record { echoed = []; ended = went_idle; session = user_close s }
    else go_on s

-- The loop of udplistener's handleSession.
unfoldable pub echo_datagrams : List Item → Session → Echoed
echo_datagrams [] s = record { echoed = []; ended = data_closed; session = s }
echo_datagrams (i ∷ items) s =
    after_send (i.msg) (stale_check i.now (echo_datagrams items))
      (send i.msg i.ready (i.meanwhile s))

-- What a handleShutdown prints after the signal.
pub data Line : Type 0 where
  error_during_shutdown : Error → Line
  complete timed_out : Line

abbrev pub error_line : Option Error → List Line
error_line none = []
error_line (some e) = error_during_shutdown e ∷ []

-- handleShutdown, with the answer of StopListener and whether it comes within ten seconds.
unfoldable pub handle_shutdown : Bool → Option Error → List Line
handle_shutdown true answer = error_line answer ++ complete ∷ []
handle_shutdown false answer = timed_out ∷ []

-- The stop of wslistener: it waits for StopListener.
unfoldable pub stop_web_socket : Option Error → List Line
stop_web_socket none = complete ∷ []
stop_web_socket (some e) = error_during_shutdown e ∷ []

abbrev pub data_of : List Item → List (List ℕ)
data_of [] = []
data_of (i ∷ items) = i.msg ∷ data_of items

-- What the loop has echoed of the messages.
pub record Echoes (items : List Item) (r : Echoed) : Type 0 where
  pub rest : List (List ℕ)
  pub front : r.echoed ++ rest ≡ data_of items
  pub all : r.ended ≡ data_closed → rest ≡ []

nothing_yet :
    (items : List Item) (r : Echoed) → r.echoed ≡ [] → r.ended ≢ data_closed → Echoes items r
nothing_yet items r e ne = record {
  rest = data_of items;
  front = ap (λ l. l ++ data_of items) e;
  all = λ q. absurd (ne q);
}

one_more :
    (i : Item) (items : List Item) (r : Echoed) → Echoes items r → Echoes (i ∷ items) (also i.msg r)
one_more i items r e = record { rest = e.rest; front = ap (◌∷◌ i.msg) e.front; all = e.all }

after_send-Echoes :
    (i : Item) (items : List Item) (go_on : Session → Echoed) (answer : Option Error × Session)
    → ((s : Session) → Echoes items (go_on s))
    → Echoes (i ∷ items) (after_send i.msg go_on answer)
after_send-Echoes i items go_on (some e, s) h = nothing_yet (i ∷ items) _ refl (λ q. cc)
after_send-Echoes i items go_on (none, s) h = one_more i items (go_on s) (h s)

echo-Echoes : (items : List Item) (s : Session) → Echoes items (echo items s)
unfolding echo
echo-Echoes [] s = record { rest = []; front = refl; all = λ q. refl }
echo-Echoes (i ∷ items) s = after_send-Echoes i items (echo items) _ (λ x. echo-Echoes items x)

stale_check-Echoes :
    (now : ℤ) (items : List Item) (go_on : Session → Echoed) (s : Session)
    → Echoes items (go_on s)
    → Echoes items (stale_check now go_on s)
stale_check-Echoes now items go_on s h =
    elim (Bool-cases (ltb_ℤ (pos (second * 60)) (now -ℤ s.last))) [
      | inr fresh ↦ rw fresh h
      | inl old ↦ rw old (nothing_yet items _ refl (λ q. cc))
    ]

echo_datagrams-Echoes : (items : List Item) (s : Session) → Echoes items (echo_datagrams items s)
unfolding echo_datagrams
echo_datagrams-Echoes [] s = record { rest = []; front = refl; all = λ q. refl }
echo_datagrams-Echoes (i ∷ items) s =
    after_send-Echoes i items (stale_check i.now (echo_datagrams items)) _
      (λ x. stale_check-Echoes i.now items (echo_datagrams items) x (echo_datagrams-Echoes items x))

-- The handlers of the listener programs echo what comes from Data, in order and unchanged, whatever other
-- goroutines do to the session: all of it if they end because Data is closed, and else a front.
pub echo_front :
    (items : List Item) (s : Session)
    → Echoes items (echo items s) × Echoes items (echo_datagrams items s)
echo_front items s = (echo-Echoes items s, echo_datagrams-Echoes items s)
