-- ===== src/Listener/Interleaving/Lookup.antt =====
-- server.go, add, remove and GetSession under every interleaving: what the registry has of the goroutines.
use Prim.Native.String.{String}
use gopher_socks.Common.{
  ℕ, ◌≤◌, ◌≡◌, refl, ◌⊎◌, inl, inr, List, [], ◌∷◌, ◌++◌, Option, none, some, true, false,
  if◌then◌else◌, arith, Bool-cases,
}
use gopher_socks.Common.Assoc.{str_eq}
use gopher_socks.Listener.Server.{SessionRef, Server}
use gopher_socks.Listener.Interleaving.{
  Conn, over, admitted, refused, entered, failing, looping, in_session, Shared, Step, idle,
}
use gopher_socks.Listener.Interleaving.Slots.{total, total-middle}

-- Whether a goroutine has a session with this address that is not closed.
abbrev pub opens : String → Conn → ℕ
opens k over = 0
opens k admitted = 0
opens k refused = 0
opens k entered = 0
opens k failing = 0
opens k looping = 0
opens k (in_session sess registered closed) =
    if closed then 0 else if str_eq sess.addr k then 1 else 0

-- Whether its session has been closed before it was registered.
abbrev pub early : Conn → ℕ
early over = 0
early admitted = 0
early refused = 0
early entered = 0
early failing = 0
early looping = 0
early (in_session sess registered closed) = if registered then 0 else if closed then 1 else 0

-- No two open sessions have one address, and no session has been closed before its registration.
pub record Orderly (conns : List Conn) : Type 0 where
  pub distinct : (k : String) → total (opens k) conns ≤ 1
  pub timely : total early conns ≡ 0

-- The runs of which that is so throughout.
pub data ReachOrderly (s : Server) : Shared → Type 0 where
  begin_orderly : ReachOrderly s (idle s)
  next_orderly : {t u : Shared} → ReachOrderly s t → Step t u → Orderly u.conns → ReachOrderly s u

-- The session with this address that a goroutine has registered and not closed.
abbrev pub shown : String → Conn → Option SessionRef
shown k over = none
shown k admitted = none
shown k refused = none
shown k entered = none
shown k failing = none
shown k looping = none
shown k (in_session sess registered closed) =
    if registered
    then if closed then none else if str_eq sess.addr k then some sess else none
    else none

abbrev pub or_else : Option SessionRef → Option SessionRef → Option SessionRef
or_else none o = o
or_else (some sess) o = some sess

abbrev pub find : String → List Conn → Option SessionRef
find k [] = none
find k (c ∷ conns) = or_else (shown k c) (find k conns)

-- A goroutine that shows a session has it open.
shown-opens : (k : String) (c : Conn) → (shown k c ≡ none) ⊎ (opens k c ≡ 1)
shown-opens k over = inl refl
shown-opens k admitted = inl refl
shown-opens k refused = inl refl
shown-opens k entered = inl refl
shown-opens k failing = inl refl
shown-opens k looping = inl refl
shown-opens k (in_session sess false closed) = inl refl
shown-opens k (in_session sess true true) = inl refl
shown-opens k (in_session sess true false) = elim (Bool-cases (str_eq sess.addr k)) [
  | inl e ↦ inr (rw e refl)
  | inr e ↦ inl (rw e refl)
]

shown-none : (k : String) (c : Conn) → opens k c ≡ 0 → shown k c ≡ none
shown-none k c h = elim (shown-opens k c) [ inl e ↦ e | inr e ↦ absurd (omega arith) ]

pub find-none : (k : String) (conns : List Conn) → total (opens k) conns ≡ 0 → find k conns ≡ none
find-none k [] h = refl
find-none k (c ∷ conns) h = rw (shown-none k c (omega arith)) (find-none k conns (omega arith))

pub find-middle :
    (k : String) (front : List Conn) (c : Conn) (back : List Conn)
    → total (opens k) (front ++ c ∷ back) ≤ 1
    → find k (front ++ c ∷ back) ≡ or_else (shown k c) (find k (front ++ back))
find-middle k [] c back h = refl
find-middle k (x ∷ front) c back h =
    let later = find-middle k front c back (omega arith) in
    elim (shown-opens k x) [
      | inl e ↦ rw (e, later) refl
      | inr e ↦
          let m = total-middle (opens k) front c back in
          rw (later, shown-none k c (omega arith), find-none k (front ++ back) (omega arith)) refl
    ]
