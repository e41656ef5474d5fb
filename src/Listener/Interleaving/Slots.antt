-- ===== src/Listener/Interleaving/Slots.antt =====
-- server.go, tryAdmit, release and enter under every interleaving: the counters and what they count.
use gopher_socks.Common.{
  ℕ, ◌+◌, ◌≤◌, ◌≡◌, refl, sym, ap, ◌∙◌, List, [], ◌∷◌, ◌++◌, Option, false, if◌then◌else◌, arith,
  Bool-cases, inl, inr,
}
use gopher_socks.Common.Int.{ℤ, pos, pos_part, ◌+ℤ◌, ltb_ℤ}
use gopher_socks.Errors.{Error}
use gopher_socks.Listener.Server.Registry.{remove-Removes}
use gopher_socks.Listener.Server.{
  SessionRef, Server, enter, add_active, release, wg_done, add, remove, unregister, new_server,
}
use gopher_socks.Listener.Interleaving.{
  Conn, over, admitted, refused, entered, failing, looping, in_session, Shared, mark_stopped,
  Advance, enters, fails, creates, registers, closes, Finish, backs_off, gives_back, leaves,
  returns, Step, Reach, counts, starts, stops, advances, finishes, begin, next,
}

-- The slots that the counter counts for a goroutine.
abbrev pub holds : Conn → ℕ
holds over = 1
holds admitted = 1
holds refused = 1
holds entered = 1
holds failing = 0
holds looping = 0
holds (in_session sess registered closed) = if closed then 0 else 1

-- The same without those that tryAdmit has found to be too many.
abbrev pub serves : Conn → ℕ
serves over = 0
serves admitted = 1
serves refused = 1
serves entered = 1
serves failing = 0
serves looping = 0
serves (in_session sess registered closed) = if closed then 0 else 1

-- Whether the WaitGroup counts a goroutine.
abbrev pub awaited : Conn → ℕ
awaited over = 0
awaited admitted = 0
awaited refused = 0
awaited entered = 1
awaited failing = 1
awaited looping = 1
awaited (in_session sess registered closed) = 1

abbrev pub total : (Conn → ℕ) → List Conn → ℕ
total f [] = 0
total f (c ∷ cs) = f c + total f cs

pub total-middle :
    (f : Conn → ℕ) (front : List Conn) (c : Conn) (back : List Conn)
    → total f (front ++ c ∷ back) ≡ f c + total f (front ++ back)
total-middle f [] c back = refl
total-middle f (x ∷ front) c back = omega (arith, total-middle f front c back)

serves_le : (c : Conn) → serves c ≤ holds c
serves_le over = omega arith
serves_le admitted = omega arith
serves_le refused = omega arith
serves_le entered = omega arith
serves_le failing = omega arith
serves_le looping = omega arith
serves_le (in_session sess registered closed) = omega arith

total-serves_le : (cs : List Conn) → total serves cs ≤ total holds cs
total-serves_le [] = omega arith
total-serves_le (c ∷ cs) = omega (arith, serves_le c, total-serves_le cs)

-- The counters are the sums over the goroutines, and the slots held for sessions, open or on their way,
-- are at most `max_connections` of the configuration (none when that is negative).
pub record Counts (max : ℤ) (t : Shared) : Type 0 where
  pub limit : t.server.max_connections ≡ max
  pub active : t.server.active ≡ pos (total holds t.conns)
  pub wg : t.server.wg ≡ total awaited t.conns
  pub bounded : total serves t.conns ≤ pos_part max

-- What one goroutine's step does to the counters, `a` and `w` being the share of all others.
record Accounts (s s' : Server) (h h' w w' : ℕ) : Type 0 where
  limit : s'.max_connections ≡ s.max_connections
  active : (a : ℕ) → s.active ≡ pos (h + a) → s'.active ≡ pos (h' + a)
  wg : (b : ℕ) → s.wg ≡ w + b → s'.wg ≡ w' + b

release-Accounts : (s : Server) (w : ℕ) → Accounts s (release s) 1 0 w w
unfolding release add_active
release-Accounts s w = record { limit = refl; active = λ a h. rw h (ground arith); wg = λ b h. h }

done-Accounts : (s : Server) (h : ℕ) → Accounts s (wg_done s) h h 1 0
unfolding wg_done
done-Accounts s h = record { limit = refl; active = λ a e. e; wg = λ b e. omega arith }

remove-Accounts : (sess : SessionRef) (s : Server) → Accounts s (remove sess s) 1 0 1 1
unfolding remove release add_active unregister
remove-Accounts sess s = record {
  limit = ground arith;
  active = λ a h. (remove-Removes sess s).frees ∙ rw h (ground arith);
  wg = λ b h. ground arith;
}

Advance-Accounts :
    {s s' : Server} {c c' : Conn}
    → Advance s c c' s'
    → Accounts s s' (holds c) (holds c') (awaited c) (awaited c') × (serves c' ≤ serves c)
unfolding enter
Advance-Accounts {s} enters = elim (Bool-cases s.stopped) [
  | inl e ↦ rw (e, enter) (record { limit = refl; active = λ a h. h; wg = λ b h. h }, omega arith)
  | inr e ↦
      rw (e, enter)
        (record { limit = refl; active = λ a h. h; wg = λ b h. omega arith }, omega arith)
]
Advance-Accounts {s} fails = (release-Accounts s 1, omega arith)
Advance-Accounts {s} (creates sess) =
    (record { limit = refl; active = λ a h. h; wg = λ b h. h }, omega arith)
Advance-Accounts {s} (registers sess closed) =
    unfold add in (record { limit = refl; active = λ a h. h; wg = λ b h. h }, omega arith)
Advance-Accounts {s} (closes sess registered) = (remove-Accounts sess s, omega arith)

Finish-Accounts :
    {s s' : Server} {c : Conn} → Finish s c s' → Accounts s s' (holds c) 0 (awaited c) 0
Finish-Accounts {s} backs_off =
    unfold add_active in record { limit = refl; active = λ a h. rw h (ground arith); wg = λ b h. h }
Finish-Accounts {s} gives_back = release-Accounts s 0
Finish-Accounts {s} fails = done-Accounts s 0
Finish-Accounts {s} leaves = done-Accounts s 0
Finish-Accounts {s} (returns sess) = done-Accounts s 0

admitted_le :
    {max : ℤ} (t : Shared)
    → Counts max t
    → ltb_ℤ t.server.max_connections (t.server.active +ℤ pos 1) ≡ false
    → 1 + total serves t.conns ≤ pos_part max
admitted_le t v e =
    let below : ltb_ℤ t.server.max_connections (pos (total holds t.conns) +ℤ pos 1) ≡ false =
      rw v.active at e in
    ground (arith, total-serves_le t.conns, v.limit)

Step-Counts : {max : ℤ} {t u : Shared} → Step t u → Counts max t → Counts max u
unfolding add_active enter
Step-Counts {max} {t} counts v =
    elim (Bool-cases (ltb_ℤ t.server.max_connections (t.server.active +ℤ pos 1))) [
      | inl e ↦
          rw (e, add_active)
            (record {
              limit = v.limit;
              active = rw v.active (ground arith);
              wg = v.wg ∙ omega arith;
              bounded = omega (arith, v.bounded);
            })
      | inr e ↦
          rw (e, add_active)
            (record {
              limit = v.limit;
              active = rw v.active (ground arith);
              wg = v.wg ∙ omega arith;
              bounded = admitted_le t v e;
            })
    ]
Step-Counts {max} {t} (starts e) v = elim (Bool-cases t.server.stopped) [
  | inl q ↦ absurd (ground arith)
  | inr q ↦
      rw (q, enter)
        (record {
          limit = v.limit;
          active = v.active ∙ ap pos (omega arith);
          wg = omega (arith, v.wg);
          bounded = omega (arith, v.bounded);
        })
]
Step-Counts {max} {t} stops v =
    unfold mark_stopped in
    record { limit = v.limit; active = v.active; wg = v.wg; bounded = v.bounded }
Step-Counts {max} {t} (advances front c c' back s e a) v =
    let (acc, fewer) = Advance-Accounts a in
    record {
      limit = acc.limit ∙ v.limit;
      active =
          acc.active (total holds (front ++ back))
            (v.active ∙ ap pos (ap (total holds) e ∙ total-middle holds front c back))
          ∙ ap pos (sym (total-middle holds front c' back));
      wg =
          acc.wg (total awaited (front ++ back))
            (v.wg ∙ ap (total awaited) e ∙ total-middle awaited front c back)
          ∙ sym (total-middle awaited front c' back);
      bounded = omega (
        arith,
        fewer,
        v.bounded,
        ap (total serves) e,
        total-middle serves front c back,
        total-middle serves front c' back,
      );
    }
Step-Counts {max} {t} (finishes front c back s e a) v =
    let acc = Finish-Accounts a in
    record {
      limit = acc.limit ∙ v.limit;
      active =
          acc.active (total holds (front ++ back))
            (v.active ∙ ap pos (ap (total holds) e ∙ total-middle holds front c back))
          ∙ ap pos (omega arith);
      wg =
          acc.wg (total awaited (front ++ back))
            (v.wg ∙ ap (total awaited) e ∙ total-middle awaited front c back)
          ∙ omega arith;
      bounded = omega (arith, v.bounded, ap (total serves) e, total-middle serves front c back);
    }

-- Whatever the goroutines of a new server do and in whatever order, the counter is the number of slots
-- held, the WaitGroup counts the goroutines that are to be waited for, and the slots held for sessions
-- are at most the configured number.
pub Reach-Counts :
    (cause : Option Error) (max : ℤ) (t : Shared) → Reach (new_server cause max) t → Counts max t
unfolding new_server
Reach-Counts cause max t begin = record {
  limit = refl;
  active = refl;
  wg = refl;
  bounded = omega arith;
}
Reach-Counts cause max t (next r step) = Step-Counts step (Reach-Counts cause max _ r)
