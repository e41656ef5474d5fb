-- ===== src/Listener/Interleaving/Registered.antt =====
-- server.go, add, remove and GetSession under every interleaving: which sessions are found.
use Prim.Native.String.{String}
use gopher_socks.Common.{
  ◌≡◌, refl, sym, ap, ◌∙◌, inl, inr, List, ◌∷◌, ◌++◌, Option, none, some, true, false,
  if◌then◌else◌, arith, Bool-cases,
}
use gopher_socks.Common.Int.{ℤ, pos, ltb_ℤ}
use gopher_socks.Common.Assoc.{str_eq, str_eq→eq, lookup, lookup-insert}
use gopher_socks.Errors.{Error}
use gopher_socks.Listener.Server.Registry.{get_session-unregister}
use gopher_socks.Listener.Server.{
  SessionRef, Server, same_session, unregister, get_session, enter, add_active, release, wg_done,
  add, remove, new_server,
}
use gopher_socks.Listener.Interleaving.{
  Conn, in_session, Shared, mark_stopped, Advance, enters, fails, creates, registers, closes,
  Finish, backs_off, gives_back, leaves, returns, Step, counts, starts, stops, advances, finishes,
}
use gopher_socks.Listener.Interleaving.Slots.{total-middle}
use gopher_socks.Listener.Interleaving.Lookup.{
  opens, early, Orderly, ReachOrderly, begin_orderly, next_orderly, shown, or_else, find, find-none,
  find-middle,
}

get_session-enter : (s : Server) (k : String) → get_session (enter s).1 k ≡ get_session s k
unfolding get_session enter
get_session-enter s k = elim (Bool-cases s.stopped) [ inl e ↦ rw e refl | inr e ↦ rw e refl ]

get_session-add :
    (sess : SessionRef) (s : Server) (k : String)
    → get_session (add sess s) k ≡ (if str_eq sess.addr k then some sess else get_session s k)
unfolding get_session add
get_session-add sess s k = lookup-insert sess.addr k sess s.by_addr

get_session-remove :
    (sess : SessionRef) (s : Server) (k : String)
    → get_session (remove sess s) k ≡ get_session (unregister sess s) k
get_session-remove sess s k = unfold get_session remove release add_active in refl

same_session_refl : (sess : SessionRef) → same_session sess (some sess) ≡ true
same_session_refl sess = ground arith

-- The answer of GetSession before and after a step of one goroutine, `r` being what the others show.
module _ (k : String) (r : Option SessionRef) where
  register-shown :
      (sess : SessionRef) (s : Server)
      → get_session s k ≡ r
      → get_session (add sess s) k ≡ or_else (shown k (in_session sess true false)) r
  register-shown sess s h = elim (Bool-cases (str_eq sess.addr k)) [
    | inl e ↦ get_session-add sess s k ∙ rw e refl
    | inr e ↦ get_session-add sess s k ∙ rw e h
  ]

  close-shown :
      (sess : SessionRef) (s : Server)
      → (opens k (in_session sess true false) ≡ 1 → r ≡ none)
      → get_session s k ≡ or_else (shown k (in_session sess true false)) r
      → get_session (remove sess s) k ≡ r
  close-shown sess s lone h = elim (Bool-cases (str_eq sess.addr k)) [
    | inr e ↦
        let before : get_session s k ≡ r = rw e at h in
        get_session-remove sess s k ∙ get_session-unregister sess s k ∙ rw e before
    | inl e ↦
        let found : get_session s k ≡ some sess = rw e at h in
        let there : get_session s sess.addr ≡ some sess =
          ap (get_session s) (str_eq→eq sess.addr k e) ∙ found in
        get_session-remove sess s k
        ∙ get_session-unregister sess s k
        ∙ rw (e, there, same_session_refl sess) (sym (lone (rw e refl)))
  ]

  Advance-shown :
      {s s' : Server} {c c' : Conn}
      → Advance s c c' s'
      → early c ≡ 0
      → early c' ≡ 0
      → (opens k c ≡ 1 → r ≡ none)
      → get_session s k ≡ or_else (shown k c) r
      → get_session s' k ≡ or_else (shown k c') r
  Advance-shown {s} enters timely timely' lone h = elim (Bool-cases (enter s).0) [
    | inl e ↦ rw e (get_session-enter s k ∙ h)
    | inr e ↦ rw e (get_session-enter s k ∙ h)
  ]
  Advance-shown {s} fails timely timely' lone h = unfold get_session release add_active in h
  Advance-shown {s} (creates sess) timely timely' lone h = h
  Advance-shown {s} (registers sess true) timely timely' lone h = absurd (omega arith)
  Advance-shown {s} (registers sess false) timely timely' lone h = register-shown sess s h
  Advance-shown {s} (closes sess false) timely timely' lone h = absurd (omega arith)
  Advance-shown {s} (closes sess true) timely timely' lone h = close-shown sess s lone h

  Finish-shown :
      {s s' : Server} {c : Conn}
      → Finish s c s'
      → get_session s k ≡ or_else (shown k c) r
      → get_session s' k ≡ r
  unfolding get_session add_active release wg_done
  Finish-shown {s} backs_off h = h
  Finish-shown {s} gives_back h = h
  Finish-shown {s} fails h = h
  Finish-shown {s} leaves h = h
  Finish-shown {s} (returns sess) h = h

ReachOrderly-Orderly : {s : Server} {t : Shared} → ReachOrderly s t → Orderly t.conns
ReachOrderly-Orderly begin_orderly = record { distinct = λ k. omega arith; timely = refl }
ReachOrderly-Orderly (next_orderly r step orderly) = orderly

-- What the goroutines before and after one of them show, and how it stands to them.
module _ (front : List Conn) (c : Conn) (back : List Conn)
    (orderly : Orderly (front ++ c ∷ back)) where
  middle_early : early c ≡ 0
  middle_early = omega (arith, orderly.timely, total-middle early front c back)

  middle_lone : (k : String) → opens k c ≡ 1 → find k (front ++ back) ≡ none
  middle_lone k one =
      find-none k (front ++ back)
        (omega (arith, orderly.distinct k, total-middle (opens k) front c back))

  middle_find :
      (k : String) → find k (front ++ c ∷ back) ≡ or_else (shown k c) (find k (front ++ back))
  middle_find k = find-middle k front c back (orderly.distinct k)

Step-shown :
    {t u : Shared}
    → Step t u
    → Orderly t.conns
    → Orderly u.conns
    → ((k : String) → get_session t.server k ≡ find k t.conns)
    → (k : String) → get_session u.server k ≡ find k u.conns
Step-shown {t} counts before after h k =
    elim (Bool-cases (ltb_ℤ t.server.max_connections (add_active (pos 1) t.server).active)) [
      | inl e ↦ rw e (unfold get_session add_active in h k)
      | inr e ↦ rw e (unfold get_session add_active in h k)
    ]
Step-shown {t} (starts e) before after h k = get_session-enter t.server k ∙ h k
Step-shown {t} stops before after h k = unfold get_session mark_stopped in h k
Step-shown {t} (advances front c c' back s e a) before after h k =
    let before' : Orderly (front ++ c ∷ back) = rw e at before in
    Advance-shown k (find k (front ++ back)) a (middle_early front c back before')
      (middle_early front c' back after) (middle_lone front c back before' k)
      (h k ∙ ap (find k) e ∙ middle_find front c back before' k)
    ∙ sym (middle_find front c' back after k)
Step-shown {t} (finishes front c back s e a) before after h k =
    let before' : Orderly (front ++ c ∷ back) = rw e at before in
    Finish-shown k (find k (front ++ back)) a
      (h k ∙ ap (find k) e ∙ middle_find front c back before' k)

-- While no two open sessions have one address and no session is closed before its registration, under
-- every interleaving of the goroutines of a new server: GetSession gives for an address the session that
-- a goroutine has registered and not closed, and nothing where there is none.
pub get_session-find :
    (cause : Option Error) (max : ℤ) (t : Shared)
    → ReachOrderly (new_server cause max) t
    → (k : String) → get_session t.server k ≡ find k t.conns
get_session-find cause max t begin_orderly k = unfold get_session new_server lookup in refl
get_session-find cause max t (next_orderly r step orderly) k =
    Step-shown step (ReachOrderly-Orderly r) orderly (get_session-find cause max _ r) k
