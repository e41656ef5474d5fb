-- ===== src/Listener/Session/Pump.antt =====
-- session.go, pumpData: the goroutine behind Data, which copies messages into a channel.
use gopher_socks.Common.{ℕ, ◌≡◌, refl, ap, List, [], ◌∷◌, ◌++◌, some, Bool, true, false}
use gopher_socks.Common.Int.{ℤ}
use gopher_socks.Errors.{Error, Result, ok, err}
use gopher_socks.Listener.Session.{Session, touch, close_with, read_cause}
use gopher_socks.Listener.Session.Pulling.{oks}

-- How the loop stands: it waits for a read or for room in the channel, or it has returned, and the channel is
-- closed.
pub data Pumping : Type 0 where
  waits : Pumping
  returned : Pumping

-- What the loop has put into the channel, what it has not read, and the session.
pub record Pumped : Type 0 where
  pub state : Pumping
  pub put : List (List ℕ)
  pub left : List (Result (List ℕ))
  pub session : Session

abbrev pub put_first : List ℕ → Pumped → Pumped
put_first m p = record p { put = m ∷ p.put }

-- `pumpData` over `Messages`: `reads` is what readMessage returns, call by call, and `ends` what each select
-- takes: true is the end of the context, false the channel; where it is used up the select still waits.
unfoldable pub pump_data : ℤ → List Bool → List (Result (List ℕ)) → Session → Pumped
pump_data now ends [] s = record { state = waits; put = []; left = []; session = s }
pump_data now ends (err e ∷ reads) s = record {
  state = returned;
  put = [];
  left = reads;
  session = close_with (some (read_cause e)) s;
}
pump_data now [] (ok m ∷ reads) s = record {
  state = waits;
  put = [];
  left = reads;
  session = touch now s;
}
pump_data now (true ∷ ends) (ok m ∷ reads) s = record {
  state = returned;
  put = [];
  left = reads;
  session = touch now s;
}
pump_data now (false ∷ ends) (ok m ∷ reads) s = put_first m (pump_data now ends reads (touch now s))

-- One message has been read and not put; or the last read failed; or all reads given were put.
pub data Tail (left : List (Result (List ℕ))) : List (Result (List ℕ)) → Pumping → Type 0 where
  held : (m : List ℕ) (state : Pumping) → Tail left (ok m ∷ left) state
  failed : (e : Error) → Tail left (err e ∷ left) returned
  all_put : left ≡ [] → Tail left left waits

-- The channel gets the messages in the order they were read, all but at most the last one read, which is
-- held while the channel is full and dropped when the context ends; the loop returns at a failed read.
pub pump_data-Tail :
    (now : ℤ) (ends : List Bool) (reads : List (Result (List ℕ))) (s : Session)
    → let p = pump_data now ends reads s in
      (rest : List (Result (List ℕ))) × ((reads ≡ oks p.put ++ rest) × Tail p.left rest p.state)
unfolding pump_data
pump_data-Tail now ends [] s = ([], (refl, all_put refl))
pump_data-Tail now ends (err e ∷ reads) s = (err e ∷ reads, (refl, failed e))
pump_data-Tail now [] (ok m ∷ reads) s = (ok m ∷ reads, (refl, held m waits))
pump_data-Tail now (true ∷ ends) (ok m ∷ reads) s = (ok m ∷ reads, (refl, held m returned))
pump_data-Tail now (false ∷ ends) (ok m ∷ reads) s =
    let (rest, (e, tail)) = pump_data-Tail now ends reads (touch now s) in
    (rest, (ap (λ l. ok m ∷ l) e, tail))
