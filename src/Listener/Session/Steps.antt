-- ===== src/Listener/Session/Steps.antt =====
-- session.go: the goroutines of one session as interleaved steps: callers of SendToClient, the writer
-- goroutine, whoever closes the session or ends its context, and the reader that has read a message.
use gopher_socks.Common.{ℕ, ◌≡◌, ◌≢◌, List, [], ◌∷◌, ◌++◌, Option, some, Bool, true, false}
use gopher_socks.Common.Int.{ℤ}
use gopher_socks.Errors.{Error}
use gopher_socks.Listener.Session.{
  Session, touch, cancel, close_with, enqueue, refused, queued, send_to_client, space, ended,
  expired, IsReady, wait_to_send, fill_batch,
}

-- `waiting` holds the messages of the callers that have passed the checks of SendToClient and are not
-- yet rid of them; `accepted` those for which
-- SendToClient has returned or will return nil, in the order in which the channel took them; `batch`
-- is what the writer has in hand and `sent` what writeMessages has written; `done` says that the
-- writer has returned.
pub record State : Type 0 where
  pub session : Session
  pub waiting : List (List ℕ)
  pub batch : List (List ℕ)
  pub sent : List (List ℕ)
  pub accepted : List (List ℕ)
  pub done : Bool

abbrev pub start : Session → State
start s = record { session = s; waiting = []; batch = []; sent = []; accepted = []; done = false }

abbrev pub with_session : State → Session → State
with_session t s = record t { session = s }

-- A message has entered the channel.
abbrev pub accept : List ℕ → State → State
accept msg t = record t { session = enqueue msg t.session; accepted = t.accepted ++ msg ∷ [] }

-- The writer takes `m` from the channel and fills the batch with what else is there.
abbrev pub take_batch : List ℕ → List (List ℕ) → State → State
take_batch m rest t =
    let r = fill_batch (m ∷ []) rest in
    record t { session = record (t.session) { out = r.1 }; batch = r.0 }

pub data Step (t : State) : State → Type 0 where
  sends : (msg : List ℕ) → (send_to_client msg t.session).0 ≡ queued → Step t (accept msg t)
  passes :
      (msg : List ℕ)
      → ((e : Error) → (send_to_client msg t.session).0 ≢ refused e)
      → Step t (record t { waiting = msg ∷ t.waiting })
  wakes :
      (front : List (List ℕ)) (msg : List ℕ) (back : List (List ℕ))
      → t.waiting ≡ front ++ msg ∷ back
      → IsReady t.session space
      → Step t (record (accept msg t) { waiting = front ++ back })
  gives_up :
      (front : List (List ℕ)) (msg : List ℕ) (back : List (List ℕ)) (e : Error)
      → t.waiting ≡ front ++ msg ∷ back
      → IsReady t.session (ended e)
      → Step t (record t { waiting = front ++ back })
  expires :
      (front : List (List ℕ)) (msg : List ℕ) (back : List (List ℕ))
      → t.waiting ≡ front ++ msg ∷ back
      → IsReady t.session expired
      → Step t
          (record t { session = (wait_to_send msg expired t.session).1; waiting = front ++ back })
  takes :
      (m : List ℕ) (rest : List (List ℕ))
      → t.done ≡ false
      → t.batch ≡ []
      → t.session.out ≡ m ∷ rest
      → Step t (take_batch m rest t)
  writes :
      t.batch ≢ [] → t.done ≡ false → Step t (record t { batch = []; sent = t.sent ++ t.batch })
  write_fails :
      (e : Error)
      → t.batch ≢ []
      → t.done ≡ false
      → Step t (record t { session = close_with (some e) t.session; done = true })
  writer_exits :
      (e : Error) → t.session.cause ≡ some e → t.batch ≡ [] → Step t (record t { done = true })
  closes : (e : Option Error) → Step t (with_session t (close_with e t.session))
  parent_ends : (e : Error) → Step t (with_session t (cancel e t.session))
  touches : (now : ℤ) → Step t (with_session t (touch now t.session))

pub data Reach (s : Session) : State → Type 0 where
  begin : Reach s (start s)
  next : {t u : State} → Reach s t → Step t u → Reach s u
