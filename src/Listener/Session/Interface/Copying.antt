-- ===== src/Listener/Session/Interface/Copying.antt =====
-- session.go, pumpData, as the interface Session shows it behind Data.
use gopher_socks.Common.{ℕ, ◌≡◌, ◌≢◌, refl, ap, List, [], ◌∷◌, ◌++◌, none, some, Bool, true, false}
use gopher_socks.Common.Int.{ℤ}
use gopher_socks.Errors.{Error, Result, ok, err}
use gopher_socks.Listener.Session.{Session, touch, read_cause}
use gopher_socks.Listener.Session.Closing.{close_with-SameQueue}
use gopher_socks.Listener.Session.Feed.{IsEnded}
use gopher_socks.Listener.Session.Pulling.{oks}
use gopher_socks.Listener.Session.Pump.{pump_data, waits, returned}
use gopher_socks.Listener.Session.Interface.{
  Continues, IsData, before_failure, is_closed, takes, session_methods,
}
use gopher_socks.Listener.Session.Interface.Shutting.{close_with-Shuts, Shuts-Continues, continued}

pump_data-puts :
    (now : ℤ) (answers : List Bool) (reads : List (Result (List ℕ))) (s : Session)
    → (rest : List (List ℕ)) × (before_failure reads ≡ (pump_data now answers reads s).put ++ rest)
unfolding pump_data
pump_data-puts now answers [] s = ([], refl)
pump_data-puts now answers (err e ∷ reads) s = ([], refl)
pump_data-puts now [] (ok m ∷ reads) s = (m ∷ before_failure reads, refl)
pump_data-puts now (true ∷ answers) (ok m ∷ reads) s = (m ∷ before_failure reads, refl)
pump_data-puts now (false ∷ answers) (ok m ∷ reads) s =
    let (rest, e) = pump_data-puts now answers reads (touch now s) in (rest, ap (λ l. m ∷ l) e)

pump_data-all :
    (now : ℤ) (answers : List Bool) (front : List (List ℕ)) (s : Session)
    → let p = pump_data now (takes front ++ answers) (oks front) s in
      (p.put ≡ front) × (p.state ≡ waits)
unfolding pump_data
pump_data-all now answers [] s = (refl, refl)
pump_data-all now answers (m ∷ ms) s =
    let (put, state) = pump_data-all now answers ms (touch now s) in (ap (λ l. m ∷ l) put, state)

pump_data-failed :
    (now : ℤ) (answers : List Bool) (front : List (List ℕ)) (e : Error)
    (reads : List (Result (List ℕ))) (s : Session)
    → let p = pump_data now (takes front ++ answers) (oks front ++ err e ∷ reads) s in
      (p.state ≡ returned) × (p.put ≡ front) × (IsEnded s → p.session.cause ≢ none)
unfolding pump_data touch
pump_data-failed now answers [] e reads s =
    (refl, refl, λ sound. (close_with-Shuts (some (read_cause e)) s).ends sound)
pump_data-failed now answers (m ∷ ms) e reads s =
    let (state, put, ends) = pump_data-failed now answers ms e reads (touch now s) in
    (state, ap (λ l. m ∷ l) put, ends)

pump_data-ended :
    (now : ℤ) (answers : List Bool) (front : List (List ℕ)) (msg : List ℕ)
    (reads : List (Result (List ℕ))) (s : Session)
    → let p = pump_data now (takes front ++ true ∷ answers) (oks front ++ ok msg ∷ reads) s in
      (p.state ≡ returned) × (p.put ≡ front)
unfolding pump_data
pump_data-ended now answers [] msg reads s = (refl, refl)
pump_data-ended now answers (m ∷ ms) msg reads s =
    let (state, put) = pump_data-ended now answers ms msg reads (touch now s) in
    (state, ap (λ l. m ∷ l) put)

abbrev Kept : Session → Session → Type 0
Kept s s' = Continues session_methods s s' × (s'.out ≡ s.out) × (IsEnded s → IsEnded s')

touch-Kept : (now : ℤ) (s s' : Session) → Kept (touch now s) s' → Kept s s'
unfolding touch session_methods
touch-Kept now s s' (k, out, sound) =
    (record { id = k.id; addr = k.addr; cause = k.cause }, out, sound)

same-Kept : (s : Session) → Kept s s
same-Kept s = (continued refl refl, refl, λ h. h)

pump_data-Kept :
    (now : ℤ) (answers : List Bool) (reads : List (Result (List ℕ))) (s : Session)
    → Kept s (pump_data now answers reads s).session
unfolding pump_data
pump_data-Kept now answers [] s = same-Kept s
pump_data-Kept now answers (err e ∷ reads) s =
    let k = close_with-Shuts (some (read_cause e)) s in
    (Shuts-Continues k, (close_with-SameQueue (some (read_cause e)) s).out, λ h x. k.ends h)
pump_data-Kept now [] (ok m ∷ reads) s = touch-Kept now s (touch now s) (same-Kept (touch now s))
pump_data-Kept now (true ∷ answers) (ok m ∷ reads) s =
    touch-Kept now s (touch now s) (same-Kept (touch now s))
pump_data-Kept now (false ∷ answers) (ok m ∷ reads) s =
    touch-Kept now s _ (pump_data-Kept now answers reads (touch now s))

-- What Data does.
pub session-IsData : IsData session_methods IsEnded
unfolding session_methods
session-IsData = record {
  puts = pump_data-puts;
  puts_all = λ now answers front s.
      let (put, state) = pump_data-all now answers front s in (put, ap is_closed state);
  closes_failed = λ now answers front e reads s.
      let (state, put, ends) = pump_data-failed now answers front e reads s in
      (ap is_closed state, put, ends);
  closes_ended = λ now answers front msg reads s.
      let (state, put) = pump_data-ended now answers front msg reads s in (ap is_closed state, put);
  continues = pump_data-Kept;
}
