-- ===== src/Listener/Session/Interface/Looping.antt =====
-- session.go, Messages, as the interface Session shows it.
use gopher_socks.Common.{
  ℕ, ◌≤◌, ◌<◌, ◌≡◌, ◌≢◌, refl, sym, ap, subst, ◌∙◌, List, [], ◌∷◌, ◌++◌, none, some, true, false,
  length, take, suc, zero, ◌-◌, arith, Bool-cases, inl, inr, ltb,
}
use gopher_socks.Common.Int.{ℤ}
use gopher_socks.Errors.{Error, Result, ok, err}
use gopher_socks.Listener.Session.{Session, touch, read_cause, messages}
use gopher_socks.Listener.Session.Closing.{close_with-SameQueue}
use gopher_socks.Listener.Session.Feed.{IsEnded}
use gopher_socks.Listener.Session.Pulling.{oks}
use gopher_socks.Listener.Session.Interface.{Continues, IsMessages, before_failure, session_methods}
use gopher_socks.Listener.Session.Interface.Shutting.{close_with-Shuts, Shuts-Continues, continued}

-- A loop over Messages, however it ends.
record Loops (now : ℤ) (s : Session) (yielded : List (List ℕ)) (s' : Session) : Type 0 where
  continues : Continues session_methods s s'
  out : s'.out ≡ s.out
  sound : IsEnded s → IsEnded s'
  last : s'.last ≡ elim yielded [ [] ↦ s.last | y ∷ ys ↦ now ]

read_last :
    (now : ℤ) (ms : List (List ℕ)) (last : ℤ)
    → last ≡ elim ms [ [] ↦ now | y ∷ ys ↦ now ]
    → last ≡ now
read_last now [] last h = h
read_last now (m ∷ ms) last h = h

Loops-more :
    (now : ℤ) (m : List ℕ) (ms : List (List ℕ)) (s s' : Session)
    → Loops now (touch now s) ms s'
    → Loops now s (m ∷ ms) s'
unfolding touch session_methods
Loops-more now m ms s s' p = record {
  continues = record { id = p.continues.id; addr = p.continues.addr; cause = p.continues.cause };
  out = p.out;
  sound = p.sound;
  last = read_last now ms s'.last p.last;
}

touched-Loops : (now : ℤ) (m : List ℕ) (s : Session) → Loops now s (m ∷ []) (touch now s)
unfolding touch
touched-Loops now m s = record {
  continues = continued refl refl;
  out = refl;
  sound = λ h. h;
  last = refl;
}

abbrev LoopsTo : ℤ → Session → List (List ℕ) × List (Result (List ℕ)) × Session → Type 0
LoopsTo now s r = Loops now s r.0 r.2

last_message :
    (now : ℤ) (wants : ℕ) (m : List ℕ) (reads : List (Result (List ℕ))) (s : Session)
    → ltb wants 2 ≡ true
    → messages now wants (ok m ∷ reads) s ≡ (m ∷ [], reads, touch now s)
unfolding messages
last_message now wants m reads s last = simp (last)

more_messages :
    (now : ℤ) (wants : ℕ) (m : List ℕ) (reads : List (Result (List ℕ))) (s : Session)
    → ltb wants 2 ≡ false
    → messages now wants (ok m ∷ reads) s
      ≡ let r = messages now (wants - 1) reads (touch now s) in (m ∷ r.0, r.1, r.2)
unfolding messages
more_messages now wants m reads s more = simp (more)

messages-Loops :
    (now : ℤ) (wants : ℕ) (reads : List (Result (List ℕ))) (s : Session)
    → LoopsTo now s (messages now wants reads s)
unfolding messages
messages-Loops now wants [] s = record {
  continues = continued refl refl;
  out = refl;
  sound = λ h. h;
  last = refl;
}
messages-Loops now wants (err e ∷ reads) s =
    let k = close_with-Shuts (some (read_cause e)) s in
    record {
      continues = Shuts-Continues k;
      out = (close_with-SameQueue (some (read_cause e)) s).out;
      sound = λ h x. k.ends h;
      last = k.last;
    }
messages-Loops now wants (ok m ∷ reads) s = elim (Bool-cases (ltb wants 2)) [
  | inl last ↦
      subst (LoopsTo now s) (sym (last_message now wants m reads s last)) (touched-Loops now m s)
  | inr more ↦
      subst (LoopsTo now s) (sym (more_messages now wants m reads s more))
        (Loops-more now m _ s _ (messages-Loops now (wants - 1) reads (touch now s)))
]

-- One message less to take.
take-less :
    (wants : ℕ) (m : List ℕ) (ms : List (List ℕ))
    → ltb wants 2 ≡ false
    → m ∷ take (wants - 1) ms ≡ take wants (m ∷ ms)
take-less zero m ms h = absurd (cc)
take-less (suc n) m ms h = let e : suc n - 1 ≡ n = omega arith in ap (λ i. m ∷ take i ms) e

take-last :
    (wants : ℕ) (m : List ℕ) (ms : List (List ℕ))
    → 1 ≤ wants
    → ltb wants 2 ≡ true
    → m ∷ [] ≡ take wants (m ∷ ms)
take-last zero m ms w h = absurd (omega arith)
take-last (suc n) m ms w h = let e : 0 ≡ n = ground arith in ap (λ i. m ∷ take i ms) e

messages-take :
    (now : ℤ) (wants : ℕ) (reads : List (Result (List ℕ))) (s : Session)
    → 1 ≤ wants
    → (messages now wants reads s).0 ≡ take wants (before_failure reads)
unfolding messages
messages-take now zero [] s w = absurd (omega arith)
messages-take now (suc n) [] s w = refl
messages-take now zero (err e ∷ reads) s w = absurd (omega arith)
messages-take now (suc n) (err e ∷ reads) s w = refl
messages-take now wants (ok m ∷ reads) s w = elim (Bool-cases (ltb wants 2)) [
  | inl last ↦
      ap (λ r. r.0) (last_message now wants m reads s last)
      ∙ take-last wants m (before_failure reads) w last
  | inr more ↦
      ap (λ r. r.0) (more_messages now wants m reads s more)
      ∙ ap (λ l. m ∷ l) (messages-take now (wants - 1) reads (touch now s) (ground arith))
      ∙ take-less wants m (before_failure reads) more
]

messages-left :
    (now : ℤ) (wants : ℕ) (front : List (List ℕ)) (reads : List (Result (List ℕ))) (s : Session)
    → wants ≡ length front
    → 1 ≤ length front
    → (messages now wants (oks front ++ reads) s).1 ≡ reads
messages-left now wants [] reads s e w = absurd (omega arith)
messages-left now wants (m ∷ []) reads s e w =
    ap (λ r. r.1) (last_message now wants m reads s (ground arith))
messages-left now wants (m ∷ k ∷ ms) reads s e w =
    ap (λ r. r.1) (more_messages now wants m (oks (k ∷ ms) ++ reads) s (ground arith))
    ∙ messages-left now (wants - 1) (k ∷ ms) reads (touch now s) (omega arith) (omega arith)

messages-stops :
    (now : ℤ) (wants : ℕ) (front : List (List ℕ)) (e : Error) (reads : List (Result (List ℕ)))
    (s : Session)
    → length front < wants
    → IsEnded s
    → (messages now wants (oks front ++ err e ∷ reads) s).2.cause ≢ none
unfolding messages touch
messages-stops now wants [] e reads s w sound =
    (close_with-Shuts (some (read_cause e)) s).ends sound
messages-stops now wants (m ∷ ms) e reads s w sound =
    let more : ltb wants 2 ≡ false = ground arith in
    let later = messages-stops now (wants - 1) ms e reads (touch now s) (omega arith) sound in
    λ q. later (ap (λ r. r.2.cause) (sym (more_messages now wants m _ s more)) ∙ q)

-- What Messages does.
pub session-IsMessages : IsMessages session_methods IsEnded
unfolding session_methods
session-IsMessages = record {
  yields = messages-take;
  reads_no_more = λ now front reads s w. messages-left now (length front) front reads s refl w;
  stops = messages-stops;
  continues = λ now wants reads s.
      let p = messages-Loops now wants reads s in (p.continues, p.out, p.sound);
  last_received = λ now wants reads s. (messages-Loops now wants reads s).last;
}
