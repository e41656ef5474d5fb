-- ===== src/Listener/WebSocket/Binary.antt =====
-- websocket.go: what a session reads and writes, and what an upgrade leaves behind.
use gopher_socks.Common.{
  ℕ, ◌+◌, ◌≡◌, ◌≢◌, ◌-◌, sym, append-nil, refl, ap, ◌∙◌, List, [], ◌∷◌, ◌++◌, Option, none, some,
  All, arith, Bool-cases, inl, inr,
}
use gopher_socks.Common.Int.{ℤ, pos, ◌+ℤ◌, ltb_ℤ}
use gopher_socks.Errors.{Error, Result}
use gopher_socks.Listener.Server.{SessionRef, Server, release, wg_done, add_active}
use gopher_socks.Listener.Accept.{admitted, admit_lem, admission, admission-cases}
use gopher_socks.Listener.WebSocket.{
  Round, Frame, binary, text, failed, read_message, on_frame, write_loop, upgrade, upgraded,
  serving,
}

abbrev IsText : Round → Type 0
IsText r = (r.set_deadline ≡ none) × ((m : List ℕ) × (r.frame ≡ text m))

-- The outcome of a frame that is not text.
abbrev pub outcome : Frame → Option (Result (List ℕ))
outcome f = on_frame none f

read_message-skips :
    (read_timeout : ℤ) (texts : List Round) (rounds : List Round)
    → All IsText texts
    → read_message read_timeout (texts ++ rounds) ≡ read_message read_timeout rounds
unfolding read_message
read_message-skips read_timeout [] rounds h = refl
read_message-skips read_timeout (r ∷ texts) rounds ((quiet, (m, e)), h) =
    elim (Bool-cases (ltb_ℤ (pos 0) read_timeout)) [
      | inl on ↦ rw (on, quiet, e, read_message) (read_message-skips read_timeout texts rounds h)
      | inr off ↦ rw (off, e, read_message) (read_message-skips read_timeout texts rounds h)
    ]

-- Text messages are passed over: while only text comes the call waits, and the first message that is
-- binary is what it returns, or the first failure as its error.
pub read_message-first :
    (read_timeout : ℤ) (texts : List Round) (last : Round) (rest : List Round)
    (res : Result (List ℕ))
    → All IsText texts
    → last.set_deadline ≡ none
    → outcome last.frame ≡ some res
    → (read_message read_timeout texts ≡ none)
      × (read_message read_timeout (texts ++ last ∷ rest) ≡ some res)
unfolding read_message
read_message-first read_timeout texts last rest res h quiet e = (
  ap (read_message read_timeout) (sym (append-nil texts))
      ∙ read_message-skips read_timeout texts [] h,
  read_message-skips read_timeout texts (last ∷ rest) h
      ∙ (elim (Bool-cases (ltb_ℤ (pos 0) read_timeout)) [
        | inl on ↦ rw (on, quiet, read_message) (decided last.frame e)
        | inr off ↦ rw (off, read_message) (decided last.frame e)
      ]),
)
  where
    decided :
        (f : Frame) → outcome f ≡ some res → on_frame (read_message read_timeout rest) f ≡ some res
    decided (binary m) q = q
    decided (text m) q = cc
    decided (failed x) q = q

-- What goes out is a front of the batch, in order, and all of it if no error is reported.
pub write_loop-front :
    (answers : List (Option Error)) (msgs : List (List ℕ))
    → ((rest : List (List ℕ)) × (msgs ≡ (write_loop answers msgs).0 ++ rest))
      × ((write_loop answers msgs).1 ≡ none → (write_loop answers msgs).0 ≡ msgs)
unfolding write_loop
write_loop-front answers [] = (([], refl), λ h. refl)
write_loop-front [] (m ∷ msgs) =
    let ((rest, e), all) = write_loop-front [] msgs in
    ((rest, ap (λ l. m ∷ l) e), λ h. ap (λ l. m ∷ l) (all h))
write_loop-front (none ∷ answers) (m ∷ msgs) =
    let ((rest, e), all) = write_loop-front answers msgs in
    ((rest, ap (λ l. m ∷ l) e), λ h. ap (λ l. m ∷ l) (all h))
write_loop-front (some e ∷ answers) (m ∷ msgs) = ((m ∷ msgs, refl), λ h. cc)

back_again :
    (s : Server) → wg_done (release (record s { active = s.active +ℤ pos 1; wg = s.wg + 1 })) ≡ s
unfolding wg_done release add_active
back_again s =
    ap (λ a. record s { active = a; wg = s.wg + 1 - 1 }) (ground arith)
    ∙ ap (λ w. record s { wg = w }) (omega arith)

-- An upgrade that serves no session leaves the server as it was: no slot and no goroutine stay counted.
pub upgrade-unchanged :
    (answer : Option Error) (sess : SessionRef) (s : Server)
    → (upgrade answer sess s).0 ≢ serving
    → (upgrade answer sess s).1 ≡ s
unfolding upgrade
upgrade-unchanged answer sess s h =
    ap (λ r. (upgraded answer sess r).1) (admit_lem s)
    ∙ go (λ q. h (ap (λ r. (upgraded answer sess r).0) (admit_lem s) ∙ q))
  where
    counted : Server
    counted = record s { active = s.active +ℤ pos 1; wg = s.wg + 1 }

    failed_upgrade :
        (a : Option Error)
        → (upgraded a sess (admitted, counted)).0 ≢ serving
        → (upgraded a sess (admitted, counted)).1 ≡ s
    failed_upgrade none ne = absurd (ne refl)
    failed_upgrade (some e) ne = back_again s

    go :
        (upgraded answer sess (admission s)).0 ≢ serving
        → (upgraded answer sess (admission s)).1 ≡ s
    go ne = elim (admission-cases s) [
      | inl e ↦ ap (λ r. (upgraded answer sess r).1) e
      | inr (inl e) ↦ ap (λ r. (upgraded answer sess r).1) e
      | inr (inr e) ↦
          ap (λ r. (upgraded answer sess r).1) e
          ∙ failed_upgrade answer (λ q. ne (ap (λ r. (upgraded answer sess r).0) e ∙ q))
    ]
