-- ===== src/Listener/Interleaving/Draining.antt =====
-- server.go, stop: what its wg.Wait waits for, under every interleaving.
use gopher_socks.Common.{
  ◌≤◌, ◌≡◌, refl, ap, subst, ◌∙◌, List, [], ◌∷◌, Option, Bool, true, false, if◌then◌else◌, arith,
}
use gopher_socks.Common.Int.{ℤ, pos}
use gopher_socks.Errors.{Error}
use gopher_socks.Listener.Server.{
  SessionRef, Server, enter, add_active, release, wg_done, add, new_server,
}
use gopher_socks.Listener.Server.Stopping.{remove-stopped}
use gopher_socks.Listener.Interleaving.{
  Conn, over, admitted, refused, entered, failing, looping, in_session, Shared, mark_stopped,
  Advance, enters, fails, creates, registers, closes, Finish, backs_off, gives_back, leaves,
  returns, Step, Reach, counts, starts, stops, advances, finishes, next,
}
use gopher_socks.Listener.Interleaving.Slots.{Reach-Counts}

-- A server that is stopping stays so and counts no further goroutine.
abbrev pub Shrinks : Server → Server → Type 0
Shrinks s s' = (s'.stopped ≡ true) × (s'.wg ≤ s.wg)

Advance-Shrinks :
    {s s' : Server} {c c' : Conn} → s.stopped ≡ true → Advance s c c' s' → Shrinks s s'
unfolding enter
Advance-Shrinks {s} h enters = rw (h, enter) (refl, omega arith)
Advance-Shrinks {s} h fails = unfold release add_active in (h, omega arith)
Advance-Shrinks {s} h (creates sess) = (h, omega arith)
Advance-Shrinks {s} h (registers sess closed) = unfold add in (h, omega arith)
Advance-Shrinks {s} h (closes sess registered) =
    let (a, b, c) = remove-stopped sess s in (a ∙ h, omega (arith, c))

Finish-Shrinks : {s s' : Server} {c : Conn} → s.stopped ≡ true → Finish s c s' → Shrinks s s'
Finish-Shrinks {s} h backs_off = unfold add_active in (h, omega arith)
Finish-Shrinks {s} h gives_back = unfold release add_active in (h, omega arith)
Finish-Shrinks {s} h fails = unfold wg_done in (h, omega arith)
Finish-Shrinks {s} h leaves = unfold wg_done in (h, omega arith)
Finish-Shrinks {s} h (returns sess) = unfold wg_done in (h, omega arith)

pub enter-stopped : (s : Server) → s.stopped ≡ true → enter s ≡ (false, s)
unfolding enter
enter-stopped s h = rw (h, enter) refl

pub not_entered : (s : Server) → s.stopped ≡ true → (enter s).0 ≡ true → ⊥
not_entered s h e = let f : (enter s).0 ≡ false = ap (λ r. r.0) (enter-stopped s h) in cc

-- Once the server is marked stopped every step keeps the mark and none adds to the WaitGroup.
pub Step-Shrinks : (t u : Shared) → t.server.stopped ≡ true → Step t u → Shrinks t.server u.server
Step-Shrinks t u h counts = unfold add_active in (h, omega arith)
Step-Shrinks t u h (starts e) = absurd (not_entered t.server h e)
Step-Shrinks t u h stops = unfold mark_stopped in (refl, omega arith)
Step-Shrinks t u h (advances front c c' back s e a) = Advance-Shrinks h a
Step-Shrinks t u h (finishes front c back s e a) = Finish-Shrinks h a

pub data Steps (t : Shared) : Shared → Type 0 where
  done : Steps t t
  more : {u v : Shared} → Steps t u → Step u v → Steps t v

Steps-trans : {t u v : Shared} → Steps t u → Steps u v → Steps t v
Steps-trans a done = a
Steps-trans a (more b step) = more (Steps-trans a b) step

pub Reach-Steps : {s : Server} {t u : Shared} → Reach s t → Steps t u → Reach s u
Reach-Steps r done = r
Reach-Steps r (more a step) = next (Reach-Steps r a) step

pub Steps-stopped : {t u : Shared} → t.server.stopped ≡ true → Steps t u → u.server.stopped ≡ true
Steps-stopped h done = h
Steps-stopped h (more steps step) = (Step-Shrinks _ _ (Steps-stopped h steps) step).0

abbrev at : Server → List Conn → Shared
at s conns = record { server = s; conns = conns }

-- The goroutine at the front can go on to its end.
abbrev Drains : Server → Conn → List Conn → Type 0
Drains s c rest = (s' : Server) × ((s'.stopped ≡ true) × Steps (at s (c ∷ rest)) (at s' rest))

ends :
    {s s' : Server} {c : Conn} (rest : List Conn)
    → s.stopped ≡ true
    → Finish s c s'
    → Drains s c rest
ends {s} {s'} {c} rest h f =
    (s', ((Finish-Shrinks h f).0, more done (finishes [] c rest s' refl f)))

goes_on :
    {s s' : Server} {c c' : Conn} (rest : List Conn)
    → Advance s c c' s'
    → Drains s' c' rest
    → Drains s c rest
goes_on {s} {s'} {c} {c'} rest a (s'', (h, steps)) =
    (s'', (h, Steps-trans (more done (advances [] c c' rest s' refl a)) steps))

refuses : (s : Server) → s.stopped ≡ true → Advance s admitted refused s
refuses s h =
    subst (λ (r : Bool × Server). Advance s admitted (if r.0 then entered else refused) r.1)
      (enter-stopped s h) enters

close_first :
    (s : Server) (sess : SessionRef) (rest : List Conn)
    → s.stopped ≡ true
    → Drains s (in_session sess true false) rest
close_first s sess rest h =
    goes_on rest (closes sess true)
      (ends rest (Advance-Shrinks h (closes sess true)).0 (returns sess))

drain_one : (s : Server) (c : Conn) (rest : List Conn) → s.stopped ≡ true → Drains s c rest
drain_one s over rest h = ends rest h backs_off
drain_one s admitted rest h = goes_on rest (refuses s h) (ends rest h gives_back)
drain_one s refused rest h = ends rest h gives_back
drain_one s entered rest h = goes_on rest fails (ends rest (Advance-Shrinks h fails).0 fails)
drain_one s failing rest h = ends rest h fails
drain_one s looping rest h = ends rest h leaves
drain_one s (in_session sess true true) rest h = ends rest h (returns sess)
drain_one s (in_session sess true false) rest h = close_first s sess rest h
drain_one s (in_session sess false true) rest h =
    goes_on rest (registers sess true)
      (ends rest (Advance-Shrinks h (registers sess true)).0 (returns sess))
drain_one s (in_session sess false false) rest h =
    goes_on rest (registers sess false)
      (close_first (add sess s) sess rest (Advance-Shrinks h (registers sess false)).0)

pub drain :
    (s : Server) (conns : List Conn)
    → s.stopped ≡ true
    → (s' : Server) × Steps (at s conns) (at s' [])
drain s [] h = (s, done)
drain s (c ∷ rest) h =
    let (s1, (h1, first)) = drain_one s c rest h in
    let (s2, others) = drain s1 rest h1 in (s2, Steps-trans first others)

-- From every state that a new server reaches and in which it is stopping, its goroutines can all come to
-- their end, and then the WaitGroup is at zero, so that Wait returns, and no slot is held.
pub Reach-drains :
    (cause : Option Error) (max : ℤ) (t : Shared)
    → Reach (new_server cause max) t
    → t.server.stopped ≡ true
    → (u : Shared) × (Steps t u
        × ((u.conns ≡ []) × ((u.server.wg ≡ 0) × (u.server.active ≡ pos 0))))
Reach-drains cause max t r h =
    let (s, steps) = drain t.server t.conns h in
    let c = Reach-Counts cause max (at s []) (Reach-Steps r steps) in
    (at s [], (steps, (refl, (c.wg, c.active))))
