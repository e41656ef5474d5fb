-- ===== src/Listener/Interleaving/Ending.antt =====
-- server.go, stop: that its wg.Wait comes to an end, in whatever order the goroutines go on.
use gopher_socks.Common.{
  ℕ, ◌+◌, ◌*◌, ◌≤◌, ◌≡◌, refl, ap, ◌⊎◌, inl, inr, List, [], ◌∷◌, Option, true, false, if◌then◌else◌,
  arith, Bool-cases,
}
use gopher_socks.Common.Int.{ℤ, pos, ltb_ℤ}
use gopher_socks.Errors.{Error}
use gopher_socks.Listener.Server.{Server, enter, add_active, new_server}
use gopher_socks.Listener.Interleaving.{
  Conn, over, admitted, refused, entered, failing, looping, in_session, Shared, Advance, enters,
  fails, creates, registers, closes, Finish, backs_off, gives_back, leaves, returns, Step, Reach,
  counts, starts, stops, advances, finishes,
}
use gopher_socks.Listener.Interleaving.Slots.{Counts, total, total-middle, Reach-Counts}
use gopher_socks.Listener.Interleaving.Draining.{
  Steps, done, more, Steps-stopped, Reach-Steps, not_entered,
}

-- The most steps that a goroutine has left once no Serve loop starts.
abbrev pub work : Conn → ℕ
work over = 1
work admitted = 5
work refused = 1
work entered = 4
work failing = 1
work looping = 1
work (in_session sess registered closed) = (if closed then 1 else 2) + (if registered then 0 else 1)

-- Whether a step is a new connection's, and whether it is one of a goroutine that is there.
abbrev pub arrival : {t u : Shared} → Step t u → ℕ
arrival counts = 1
arrival (starts e) = 0
arrival stops = 0
arrival (advances front c c' back s e a) = 0
arrival (finishes front c back s e a) = 0

abbrev pub move : {t u : Shared} → Step t u → ℕ
move counts = 0
move (starts e) = 0
move stops = 0
move (advances front c c' back s e a) = 1
move (finishes front c back s e a) = 1

abbrev pub arrivals : {t u : Shared} → Steps t u → ℕ
arrivals done = 0
arrivals (more steps step) = arrival step + arrivals steps

abbrev pub moves : {t u : Shared} → Steps t u → ℕ
moves done = 0
moves (more steps step) = move step + moves steps

Advance-work : {s s' : Server} {c c' : Conn} → Advance s c c' s' → 1 + work c' ≤ work c
Advance-work {s} enters = elim (Bool-cases (enter s).0) [
  | inl e ↦ rw e (omega arith)
  | inr e ↦ rw e (omega arith)
]
Advance-work fails = omega arith
Advance-work (creates sess) = omega arith
Advance-work (registers sess closed) = omega arith
Advance-work (closes sess registered) = omega arith

Finish-work : {s s' : Server} {c : Conn} → Finish s c s' → work c ≡ 1
Finish-work backs_off = refl
Finish-work gives_back = refl
Finish-work fails = refl
Finish-work leaves = refl
Finish-work (returns sess) = refl

Step-work :
    {t u : Shared}
    → t.server.stopped ≡ true
    → (step : Step t u) → move step + total work u.conns ≤ total work t.conns + 5 * arrival step
Step-work {t} h counts =
    elim (Bool-cases (ltb_ℤ t.server.max_connections (add_active (pos 1) t.server).active)) [
      | inl e ↦ rw e (omega arith)
      | inr e ↦ rw e (omega arith)
    ]
Step-work {t} h (starts e) = absurd (not_entered t.server h e)
Step-work h stops = omega arith
Step-work h (advances front c c' back s e a) = omega (
  arith,
  Advance-work a,
  ap (total work) e,
  total-middle work front c back,
  total-middle work front c' back,
)
Step-work h (finishes front c back s e a) =
    omega (arith, Finish-work a, ap (total work) e, total-middle work front c back)

Steps-work :
    {t u : Shared}
    → t.server.stopped ≡ true
    → (steps : Steps t u)
    → moves steps + total work u.conns ≤ total work t.conns + 5 * arrivals steps
Steps-work h done = omega arith
Steps-work h (more steps step) =
    omega (arith, Steps-work h steps, Step-work (Steps-stopped h steps) step)

-- A goroutine that is there can go on.
abbrev pub Moving : Shared → Type 0
Moving u = (v : Shared) × (step : Step u v) × (move step ≡ 1)

front_advances :
    {s s' : Server} {c c' : Conn} (rest : List Conn)
    → Advance s c c' s'
    → Moving (record { server = s; conns = c ∷ rest })
front_advances {s} {s'} {c} {c'} rest a = (_, advances [] c c' rest s' refl a, refl)

front_finishes :
    {s s' : Server} {c : Conn} (rest : List Conn)
    → Finish s c s'
    → Moving (record { server = s; conns = c ∷ rest })
front_finishes {s} {s'} {c} rest f = (_, finishes [] c rest s' refl f, refl)

front_moves :
    (s : Server) (c : Conn) (rest : List Conn) → Moving (record { server = s; conns = c ∷ rest })
front_moves s over rest = front_finishes rest backs_off
front_moves s admitted rest = front_advances rest enters
front_moves s refused rest = front_finishes rest gives_back
front_moves s entered rest = front_advances rest fails
front_moves s failing rest = front_finishes rest fails
front_moves s looping rest = front_finishes rest leaves
front_moves s (in_session sess true true) rest = front_finishes rest (returns sess)
front_moves s (in_session sess registered false) rest = front_advances rest (closes sess registered)
front_moves s (in_session sess false true) rest = front_advances rest (registers sess true)

-- Nothing is left for Wait to wait for, and no slot is held.
pub record Drained (u : Shared) : Type 0 where
  pub none_left : u.conns ≡ []
  pub wg : u.server.wg ≡ 0
  pub active : u.server.active ≡ pos 0

Counts-Moving :
    {max : ℤ} (s : Server) (conns : List Conn)
    → Counts max (record { server = s; conns = conns })
    → Moving (record { server = s; conns = conns }) ⊎ Drained (record { server = s; conns = conns })
Counts-Moving s [] c = inr (record { none_left = refl; wg = c.wg; active = c.active })
Counts-Moving s (conn ∷ rest) c = inl (front_moves s conn rest)

-- Once a new server is stopping, and with handlers and Serve loops that return when they can: in every
-- run its goroutines make at most `work` steps each, and five for each connection that arrives still;
-- and as long as one is left it can go on, so that a run without arrivals that goes on while it can
-- ends with the WaitGroup at zero and no slot held.
pub stopping_ends :
    (cause : Option Error) (max : ℤ) (t u : Shared)
    → Reach (new_server cause max) t
    → t.server.stopped ≡ true
    → (steps : Steps t u)
    → (moves steps + total work u.conns ≤ total work t.conns + 5 * arrivals steps)
      × (Moving u ⊎ Drained u)
stopping_ends cause max t u r h steps = (
  Steps-work h steps,
  Counts-Moving u.server u.conns (Reach-Counts cause max u (Reach-Steps r steps)),
)
