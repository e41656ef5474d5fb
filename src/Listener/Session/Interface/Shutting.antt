-- ===== src/Listener/Session/Interface/Shutting.antt =====
-- session.go, closeWith, as the interface Session shows it.
use gopher_socks.Common.{
  ◌≡◌, ◌≢◌, refl, sym, ap, subst, ◌∙◌, [], ◌∷◌, ◌++◌, Option, none, some, true, false, Bool-cases,
  inl, inr,
}
use gopher_socks.Errors.{Error, sentinel, session_closed}
use gopher_socks.Listener.Server.{or_cause}
use gopher_socks.Listener.Session.{
  Session, cancel, close_with, on_close, transport_close, cancel_context,
}
use gopher_socks.Listener.Session.Feed.{IsEnded}
use gopher_socks.Listener.Session.Interface.{Continues, session_methods}

-- What the interface shows of closing.
pub record Shuts (s s' : Session) : Type 0 where
  pub ref : s'.ref ≡ s.ref
  pub cause : (e : Error) → s.cause ≡ some e → s'.cause ≡ some e
  pub ends : IsEnded s → s'.cause ≢ none
  pub last : s'.last ≡ s.last

pub close_with-closed : (e : Option Error) (s : Session) → s.closed ≡ true → close_with e s ≡ s
unfolding close_with
close_with-closed e s c = rw c refl

shut : Error → Session → Session
shut x s = cancel x (record s {
  closed = true;
  calls = s.calls ++ on_close ∷ transport_close x ∷ cancel_context x ∷ [];
})

close_with-shut :
    (e : Option Error) (s : Session)
    → s.closed ≡ false
    → close_with e s ≡ shut (or_cause e (sentinel session_closed)) s
unfolding close_with shut
close_with-shut e s c = simp (c)

Shuts-shut : (x : Error) (s : Session) → Shuts s (shut x s)
unfolding shut
Shuts-shut x s = record {
  ref = refl;
  cause = λ y q. ap (λ (o : Option Error). some (or_cause o x)) q;
  ends = λ h q. cc;
  last = refl;
}

pub close_with-Shuts : (e : Option Error) (s : Session) → Shuts s (close_with e s)
close_with-Shuts e s = elim (Bool-cases s.closed) [
  | inl c ↦
      subst (Shuts s) (sym (close_with-closed e s c))
        (record { ref = refl; cause = λ x q. q; ends = λ h. h c; last = refl })
  | inr c ↦
      subst (Shuts s) (sym (close_with-shut e s c))
        (Shuts-shut (or_cause e (sentinel session_closed)) s)
]

pub close_with-closes : (e : Option Error) (s : Session) → (close_with e s).closed ≡ true
unfolding shut
close_with-closes e s = elim (Bool-cases s.closed) [
  | inl c ↦ ap (λ x. x.closed) (close_with-closed e s c) ∙ c
  | inr c ↦ ap (λ x. x.closed) (close_with-shut e s c)
]

pub Shuts-Continues : {s s' : Session} → Shuts s s' → Continues session_methods s s'
unfolding session_methods
Shuts-Continues k = record {
  id = ap (λ r. r.id) k.ref;
  addr = ap (λ r. r.addr) k.ref;
  cause = k.cause;
}

pub continued :
    {s s' : Session} → s'.ref ≡ s.ref → s'.cause ≡ s.cause → Continues session_methods s s'
unfolding session_methods
continued r q = record { id = ap (λ x. x.id) r; addr = ap (λ x. x.addr) r; cause = λ e h. q ∙ h }
