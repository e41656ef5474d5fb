-- ===== src/Example/Frames/Incoming.antt =====
-- websocket.go, readMessage: the messages that a client's frames bring.
use gopher_socks.Common.{
  ℕ, ◌≡◌, refl, sym, ◌∙◌, List, [], ◌∷◌, ◌++◌, Option, none, some, Bool-cases, Option-cases, inl,
  inr, if◌then◌else◌,
}
use gopher_socks.Common.Int.{ℤ, pos, ltb_ℤ}
use gopher_socks.Errors.{Result, ok}
use gopher_socks.Listener.WebSocket.{Round, Frame, binary, text, failed, read_message, on_frame}

-- The binary messages up to the first failure, in order. A round fails if its deadline is wanted and cannot
-- be set, or with its frame.
abbrev pub of_frame : Frame → List (List ℕ) → List (List ℕ)
of_frame (binary m) later = m ∷ later
of_frame (text m) later = later
of_frame (failed e) later = []

-- A round whose deadline is wanted and cannot be set is one that fails.
abbrev answer : ℤ → Round → Frame
answer read_timeout r =
    if ltb_ℤ (pos 0) read_timeout
    then elim r.set_deadline [ some e ↦ failed e | none ↦ r.frame ]
    else r.frame

unfoldable pub incoming : ℤ → List Round → List (List ℕ)
incoming read_timeout [] = []
incoming read_timeout (r ∷ rounds) = of_frame (answer read_timeout r) (incoming read_timeout rounds)

read_message-answer :
    (t : ℤ) (r : Round) (rounds : List Round)
    → read_message t (r ∷ rounds) ≡ on_frame (read_message t rounds) (answer t r)
unfolding read_message
read_message-answer t r rounds = elim (Bool-cases (ltb_ℤ (pos 0) t)) [
  | inr off ↦ rw off refl
  | inl on ↦ elim (Option-cases r.set_deadline) [
    | inl quiet ↦ rw (on, quiet) refl
    | inr (e, loud) ↦ rw (on, loud) refl
  ]
]

-- A round at which a waiting call does not return brings nothing.
on_frame-skips :
    (again other : Option (Result (List ℕ))) (f : Frame) (later : List (List ℕ))
    → on_frame again f ≡ none
    → (of_frame f later ≡ later) × (again ≡ none) × (on_frame other f ≡ other)
on_frame-skips again other (binary m) later h = cc
on_frame-skips again other (text m) later h = (refl, h, refl)
on_frame-skips again other (failed e) later h = cc

incoming-skips :
    (t : ℤ) (front rest : List Round)
    → read_message t front ≡ none
    → incoming t (front ++ rest) ≡ incoming t rest
unfolding incoming
incoming-skips t [] rest h = refl
incoming-skips t (r ∷ front) rest h =
    let (skips, waits, same) =
      on_frame-skips (read_message t front) none (answer t r) (incoming t (front ++ rest))
        (sym (read_message-answer t r front) ∙ h) in
    skips ∙ incoming-skips t front rest waits

read_message-last :
    (t : ℤ) (front rest : List Round)
    → read_message t front ≡ none
    → read_message t (front ++ rest) ≡ read_message t rest
read_message-last t [] rest h = refl
read_message-last t (r ∷ front) rest h =
    let (skips, waits, same) =
      on_frame-skips (read_message t front) (read_message t (front ++ rest)) (answer t r) []
        (sym (read_message-answer t r front) ∙ h) in
    read_message-answer t r (front ++ rest) ∙ same ∙ read_message-last t front rest waits

on_frame-first :
    (f : Frame) (m : List ℕ) (later : List (List ℕ))
    → on_frame none f ≡ some (ok m)
    → of_frame f later ≡ m ∷ later
on_frame-first (binary n) m later h = cc
on_frame-first (text n) m later h = cc
on_frame-first (failed e) m later h = cc

-- A call that returns a message takes the first of them.
pub incoming-first :
    (t : ℤ) (front : List Round) (last : Round) (rest : List Round) (m : List ℕ)
    → read_message t front ≡ none
    → read_message t (front ++ last ∷ []) ≡ some (ok m)
    → incoming t (front ++ last ∷ rest) ≡ m ∷ incoming t rest
unfolding read_message incoming
incoming-first t front last rest m w h =
    incoming-skips t front (last ∷ rest) w
    ∙ on_frame-first (answer t last) m (incoming t rest)
        (sym (read_message-answer t last []) ∙ sym (read_message-last t front (last ∷ []) w) ∙ h)
