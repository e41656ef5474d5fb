-- ===== src/Listener/Session/Closing.antt =====
-- session.go, closeWith: what it calls, and what it leaves alone.
use gopher_socks.Common.{
  ◌≡◌, refl, sym, ap, subst, ◌≢◌, List, [], ◌∷◌, ◌++◌, Option, none, some, Bool, true, false, arith,
  Bool-cases, inl, inr,
}
use gopher_socks.Errors.{Error, sentinel, session_closed}
use gopher_socks.Listener.Server.{or_cause}
use gopher_socks.Listener.Session.{
  Session, CloseCall, on_close, transport_close, cancel_context, close_with,
}

-- What closing calls: nothing, or all three in order with one cause, and then the context has ended.
abbrev pub Calls : Bool → List CloseCall → Option Error → Type 0
Calls false calls cause = calls ≡ []
Calls true calls cause =
    (cause ≢ none) × ((e : Error) × (calls ≡ on_close ∷ transport_close e ∷ cancel_context e ∷ []))

-- Closing changes nothing that the queue depends on.
pub record SameQueue (s s' : Session) : Type 0 where
  pub out : s'.out ≡ s.out
  pub queue : s'.queue ≡ s.queue
  pub max_len : s'.max_len ≡ s.max_len

pub close_with-SameQueue : (e : Option Error) (s : Session) → SameQueue s (close_with e s)
unfolding close_with
close_with-SameQueue e s = ground arith

pub close_with-Calls :
    (e : Option Error) (s : Session)
    → Calls s.closed s.calls s.cause
    → Calls (close_with e s).closed (close_with e s).calls (close_with e s).cause
close_with-Calls e s h = elim (Bool-cases s.closed) [
  | inl c ↦
      let same : close_with e s ≡ s = unfold close_with in rw c refl in
      subst (λ x. Calls x.closed x.calls x.cause) (sym same) h
  | inr c ↦
      let unused : s.calls ≡ [] = subst (λ b. Calls b s.calls s.cause) c h in
      let x = or_cause e (sentinel session_closed) in
      unfold close_with in
      rw (c, close_with)
        ((λ q. cc), (x, ap (λ l. l ++ on_close ∷ transport_close x ∷ cancel_context x ∷ []) unused))
]

pub cancel-Calls :
    (e : Error) (closed : Bool) (calls : List CloseCall) (cause : Option Error)
    → Calls closed calls cause
    → Calls closed calls (some (or_cause cause e))
cancel-Calls e true calls cause h = ((λ q. cc), h.1)
cancel-Calls e false calls cause h = h
