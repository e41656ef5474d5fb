-- ===== src/Listener/Session/Delivery.antt =====
-- session.go: the order of messages, the bounds of the queue and of a batch, and closing once.
use gopher_socks.Common.{
  ℕ, ◌≤◌, ◌<◌, ◌≡◌, refl, sym, ap, subst, ◌∙◌, ◌≢◌, List, [], ◌∷◌, ◌++◌, Option, some, Bool, true,
  false, length, length-append, append_assoc, arith, All, All-snoc, Bool-cases, inl, inr,
}
use gopher_socks.Common.Int.{pos, ◌≤ℤ◌, ltb_ℤ}
use gopher_socks.Errors.{Error, sentinel, slow_consumer}
use gopher_socks.Listener.Session.{
  Session, touch, cancel, close_with, send_to_client, wait_to_send, refused, too_large_error,
  fill_batch, max_batch, queued,
}
use gopher_socks.Listener.Session.Batch.{fill_batch_split, fill_batch_bounds}
use gopher_socks.Listener.Session.Closing.{
  Calls, SameQueue, close_with-SameQueue, close_with-Calls, cancel-Calls,
}
use gopher_socks.Listener.Session.Steps.{
  State, start, Step, sends, passes, wakes, gives_up, expires, takes, writes, write_fails,
  writer_exits, closes, parent_ends, touches, Reach, begin, next, accept, take_batch,
}

pub record Inv (t : State) : Type 0 where
  pub fifo : t.sent ++ (t.batch ++ t.session.out) ≡ t.accepted
  pub queued_le : length t.session.out ≤ t.session.queue
  pub batch_le : length t.batch ≤ max_batch
  pub sized : All (λ m. pos (length m) ≤ℤ t.session.max_len) t.accepted
  pub waiting_sized : All (λ m. pos (length m) ≤ℤ t.session.max_len) t.waiting
  pub once : Calls t.session.closed t.session.calls t.session.cause

-- A message that SendToClient does not refuse is within the length limit.
passed-sized :
    (msg : List ℕ) (s : Session)
    → ((e : Error) → (send_to_client msg s).0 ≢ refused e)
    → pos (length msg) ≤ℤ s.max_len
passed-sized msg s h = elim (Bool-cases (ltb_ℤ s.max_len (pos (length msg)))) [
  | inl long ↦ absurd (h too_large_error (unfold send_to_client in rw long refl))
  | inr short ↦ ground arith
]

queued-not_refused :
    (msg : List ℕ) (s : Session)
    → (send_to_client msg s).0 ≡ queued
    → ((e : Error) → (send_to_client msg s).0 ≢ refused e)
queued-not_refused msg s h e q = cc

queued-room :
    (msg : List ℕ) (s : Session) → (send_to_client msg s).0 ≡ queued → length s.out < s.queue
unfolding send_to_client
queued-room msg s h = ground arith

All-remove :
    (P : List ℕ → Type 0) (front : List (List ℕ)) (msg : List ℕ) (back : List (List ℕ))
    → All P (front ++ msg ∷ back)
    → P msg × All P (front ++ back)
All-remove P [] msg back h = h
All-remove P (x ∷ front) msg back h = let (a, b) = All-remove P front msg back h.1 in (a, (h.0, b))

-- A message enters the channel.
accept-Inv :
    (msg : List ℕ) (t : State)
    → Inv t
    → length t.session.out < t.session.queue
    → pos (length msg) ≤ℤ t.session.max_len
    → Inv (accept msg t)
accept-Inv msg t v room short = record {
  fifo =
      ap (◌++◌ t.sent) (sym (append_assoc t.batch t.session.out (msg ∷ [])))
      ∙ sym (append_assoc t.sent (t.batch ++ t.session.out) (msg ∷ []))
      ∙ ap (λ l. l ++ msg ∷ []) v.fifo;
  queued_le = omega (arith, length-append t.session.out (msg ∷ []));
  batch_le = v.batch_le;
  sized = All-snoc _ t.accepted msg v.sized short;
  waiting_sized = v.waiting_sized;
  once = v.once;
}

-- Closing the session, or ending its context, in any state.
closed-Inv :
    (s' : Session) (t : State)
    → Inv t
    → SameQueue t.session s'
    → Calls s'.closed s'.calls s'.cause
    → Inv (record t { session = s' })
closed-Inv s' t v same calls = record {
  fifo = ap (λ o. t.sent ++ (t.batch ++ o)) same.out ∙ v.fifo;
  queued_le = omega (arith, ap length same.out, same.queue, v.queued_le);
  batch_le = v.batch_le;
  sized = subst (λ n. All (λ m. pos (length m) ≤ℤ n) t.accepted) (sym same.max_len) v.sized;
  waiting_sized =
      subst (λ n. All (λ m. pos (length m) ≤ℤ n) t.waiting) (sym same.max_len) v.waiting_sized;
  once = calls;
}

waiting-Inv :
    (t : State) (waiting : List (List ℕ))
    → Inv t
    → All (λ m. pos (length m) ≤ℤ t.session.max_len) waiting
    → Inv (record t { waiting = waiting })
waiting-Inv t waiting v h = record {
  fifo = v.fifo;
  queued_le = v.queued_le;
  batch_le = v.batch_le;
  sized = v.sized;
  waiting_sized = h;
  once = v.once;
}

closing-Inv :
    (e : Option Error) (t : State) → Inv t → Inv (record t { session = close_with e t.session })
closing-Inv e t v =
    closed-Inv (close_with e t.session) t v (close_with-SameQueue e t.session)
      (close_with-Calls e t.session v.once)

done-Inv : {t : State} (d : Bool) → Inv t → Inv (record t { done = d })
done-Inv d v = record {
  fifo = v.fifo;
  queued_le = v.queued_le;
  batch_le = v.batch_le;
  sized = v.sized;
  waiting_sized = v.waiting_sized;
  once = v.once;
}

takes-Inv :
    (m : List ℕ) (rest : List (List ℕ)) (t : State)
    → Inv t
    → t.batch ≡ []
    → t.session.out ≡ m ∷ rest
    → Inv (take_batch m rest t)
takes-Inv m rest t v idle e = record {
  fifo =
      ap (◌++◌ t.sent)
        (fill_batch_split (m ∷ []) rest ∙ sym e ∙ ap (λ b. b ++ t.session.out) (sym idle))
      ∙ v.fifo;
  queued_le = omega (
    arith,
    v.queued_le,
    ap length e,
    ap length (fill_batch_split (m ∷ []) rest),
    length-append (fill_batch (m ∷ []) rest).0 (fill_batch (m ∷ []) rest).1,
    fill_batch_bounds (m ∷ []) rest (omega arith),
  );
  batch_le = (fill_batch_bounds (m ∷ []) rest (omega arith)).0;
  sized = v.sized;
  waiting_sized = v.waiting_sized;
  once = v.once;
}

-- Every step keeps the order of messages, the bounds, and that a session closes once.
pub Step-Inv : {t u : State} → Step t u → Inv t → Inv u
Step-Inv {t} (sends msg q) v =
    accept-Inv msg t v (queued-room msg t.session q)
      (passed-sized msg t.session (queued-not_refused msg t.session q))
Step-Inv {t} (passes msg q) v =
    waiting-Inv t (msg ∷ t.waiting) v (passed-sized msg t.session q, v.waiting_sized)
Step-Inv {t} (wakes front msg back e room) v =
    let (short, others) = All-remove _ front msg back (subst (All _) e v.waiting_sized) in
    waiting-Inv (accept msg t) (front ++ back) (accept-Inv msg t v room short) others
Step-Inv {t} (gives_up front msg back x e q) v =
    waiting-Inv t (front ++ back) v
      (All-remove _ front msg back (subst (All _) e v.waiting_sized)).1
Step-Inv {t} (expires front msg back e q) v =
    unfold wait_to_send in
    waiting-Inv (record t { session = close_with (some (sentinel slow_consumer)) t.session })
      (front ++ back) (closing-Inv (some (sentinel slow_consumer)) t v)
      (subst (λ n. All (λ m. pos (length m) ≤ℤ n) (front ++ back))
        (sym (close_with-SameQueue (some (sentinel slow_consumer)) t.session).max_len)
        (All-remove _ front msg back (subst (All _) e v.waiting_sized)).1)
Step-Inv {t} (takes m rest d idle e) v = takes-Inv m rest t v idle e
Step-Inv {t} (writes busy d) v = record {
  fifo = append_assoc t.sent t.batch t.session.out ∙ v.fifo;
  queued_le = v.queued_le;
  batch_le = omega arith;
  sized = v.sized;
  waiting_sized = v.waiting_sized;
  once = v.once;
}
Step-Inv {t} (write_fails e busy d) v = done-Inv true (closing-Inv (some e) t v)
Step-Inv {t} (writer_exits e q idle) v = done-Inv true v
Step-Inv {t} (closes e) v = closing-Inv e t v
Step-Inv {t} (parent_ends e) v =
    closed-Inv (cancel e t.session) t v (record { out = refl; queue = refl; max_len = refl })
      (cancel-Calls e t.session.closed t.session.calls t.session.cause v.once)
Step-Inv {t} (touches now) v =
    unfold touch in
    closed-Inv (touch now t.session) t v (record { out = refl; queue = refl; max_len = refl })
      v.once

-- A session before anything was sent through it.
pub record IsFresh (s : Session) : Type 0 where
  pub out : s.out ≡ []
  pub closed : s.closed ≡ false
  pub calls : s.calls ≡ []

start-Inv : (s : Session) → IsFresh s → Inv (start s)
start-Inv s f = record {
  fifo = f.out;
  queued_le = omega (arith, ap length f.out);
  batch_le = omega arith;
  sized = tt;
  waiting_sized = tt;
  once = subst (λ c. Calls c s.calls s.cause) (sym f.closed) f.calls;
}

-- In every state that a fresh session reaches, the messages written, in hand and in the channel are the
-- accepted ones in order; the channel and the batch are within their limits; an accepted message
-- is no longer than max_len; and closing has called its three callbacks in order or none of them.
pub Reach-Inv : (s : Session) (t : State) → IsFresh s → Reach s t → Inv t
Reach-Inv s t f begin = start-Inv s f
Reach-Inv s t f (next r step) = Step-Inv step (Reach-Inv s _ f r)
