-- ===== src/Listener/Server/Order.antt =====
-- server.go: `stop` and the sweep of idle sessions range over Go maps, whose order is not specified.
use Prim.Native.String.{String}
use mathlib.Core.Path.{fun_ext}
use mathlib.Core.List.{Permᴰ}
use gopher_socks.Common.Ranges.{range, range-perm}
use gopher_socks.Common.{
  ℕ, ◌≡◌, ◌≢◌, refl, ap, ◌∙◌, sym, List, [], ◌∷◌, Option, none, some, true, false, ◌==◌, ==_iff,
  All, arith, Bool-cases, Option-cases, inl, inr,
}
use gopher_socks.Common.Assoc.{lookup, erase, lookup-erase, erase_comm, str_eq, str_eq→eq}
use gopher_socks.Errors.{Error, sentinel, server_stopped}
use gopher_socks.Listener.Server.{
  SessionRef, Server, World, update, close_session, close_all, remove, unregister, release,
  add_active, same_session, halt, stop_to_wait, get_active_sessions,
}

same_session_unique :
    (a b : SessionRef) (o : Option SessionRef)
    → a.id ≢ b.id
    → same_session a o ≡ true
    → same_session b o ≡ false
same_session_unique a b o ne h = ground arith

-- Whether b is registered does not depend on whether a, another session, still is.
gone_either_way :
    (a b : SessionRef) (s : Server)
    → a.id ≢ b.id
    → same_session a (lookup a.addr s.by_addr) ≡ true
    → a.addr ≡ b.addr
    → same_session b (lookup b.addr s.by_addr) ≡ false
gone_either_way a b s ne p e = same_session_unique a b _ ne (rw (sym e) p)

unregister-others :
    (a b : SessionRef) (s : Server)
    → a.id ≢ b.id
    → same_session b (lookup b.addr (unregister a s).by_addr)
      ≡ same_session b (lookup b.addr s.by_addr)
unfolding unregister
unregister-others a b s ne = elim (Bool-cases (same_session a (lookup a.addr s.by_addr))) [
  | inr far ↦ rw far
  | inl p ↦ elim (Bool-cases (str_eq a.addr b.addr)) [
    | inr far ↦ rw (p, lookup-erase a.addr b.addr s.by_addr, far)
    | inl near ↦ rw (
      p,
      lookup-erase a.addr b.addr s.by_addr,
      near,
      gone_either_way a b s ne p (str_eq→eq a.addr b.addr near),
    )
  ]
]

abbrev erased : SessionRef → Server → Server
erased a s = record s { by_addr = erase a.addr s.by_addr }

-- unregister as a case of its test.
unregister-hit :
    (a : SessionRef) (s : Server)
    → same_session a (lookup a.addr s.by_addr) ≡ true
    → unregister a s ≡ record s { by_addr = erase a.addr s.by_addr }
unregister-hit a s h = unfold unregister in rw h

unregister-miss :
    (a : SessionRef) (s : Server)
    → same_session a (lookup a.addr s.by_addr) ≡ false
    → unregister a s ≡ s
unregister-miss a s h = unfold unregister in rw h

unregister_comm :
    (a b : SessionRef) (s : Server)
    → a.id ≢ b.id
    → unregister b (unregister a s) ≡ unregister a (unregister b s)
unregister_comm a b s ne =
    let b_still = unregister-others a b s ne in
    let a_still = unregister-others b a s (λ e. ne (sym e)) in
    elim (Bool-cases (same_session a (lookup a.addr s.by_addr))) [
      | inl p ↦ elim (Bool-cases (same_session b (lookup b.addr s.by_addr))) [
        | inl q ↦
            unregister-hit b _ (b_still ∙ q)
            ∙ ap (erased b) (unregister-hit a s p)
            ∙ ap (λ m. record s { by_addr = m }) (erase_comm b.addr a.addr s.by_addr)
            ∙ sym (ap (erased a) (unregister-hit b s q))
            ∙ sym (unregister-hit a _ (a_still ∙ p))
        | inr q ↦
            unregister-miss b _ (b_still ∙ q) ∙ sym (ap (unregister a) (unregister-miss b s q))
      ]
      | inr p ↦ ap (unregister b) (unregister-miss a s p) ∙ sym (unregister-miss a _ (a_still ∙ p))
    ]

unregister-release :
    (a : SessionRef) (s : Server) → unregister a (release s) ≡ release (unregister a s)
unfolding unregister release add_active
unregister-release a s = elim (Bool-cases (same_session a (lookup a.addr s.by_addr))) [
  | inl p ↦ rw p
  | inr p ↦ rw p
]

remove_comm :
    (a b : SessionRef) (s : Server) → a.id ≢ b.id → remove b (remove a s) ≡ remove a (remove b s)
unfolding remove
remove_comm a b s ne =
    ap release (unregister-release b (unregister a s))
    ∙ ap (λ t. release (release t)) (unregister_comm a b s ne)
    ∙ sym (ap release (unregister-release a (unregister b s)))

module _ (cause : Error) where
  close_session-hit :
      (w : World) (a : SessionRef) (e : Error)
      → w.closed a.id ≡ some e
      → close_session cause w a ≡ w
  unfolding close_session
  close_session-hit w a e h = rw (h, close_session) refl

  abbrev first_close : World → SessionRef → World
  first_close w a = record { server = remove a w.server; closed = update w.closed a.id cause }

  close_session-miss :
      (w : World) (a : SessionRef)
      → w.closed a.id ≡ none
      → close_session cause w a ≡ first_close w a
  unfolding close_session
  close_session-miss w a h = rw (h, close_session) refl

  update-others : (f : ℕ → Option Error) (i j : ℕ) → i ≢ j → update f i cause j ≡ f j
  update-others f i j ne = ground arith

  pub closed-others :
      (w : World) (a : SessionRef) (j : ℕ)
      → a.id ≢ j
      → (close_session cause w a).closed j ≡ w.closed j
  closed-others w a j ne = elim (Option-cases (w.closed a.id)) [
    | inr (e, h) ↦ ap (λ w'. w'.closed j) (close_session-hit w a e h)
    | inl h ↦ ap (λ w'. w'.closed j) (close_session-miss w a h) ∙ update-others w.closed a.id j ne
  ]

  update_comm :
      (f : ℕ → Option Error) (i j : ℕ)
      → update (update f i cause) j cause ≡ update (update f j cause) i cause
  update_comm f i j = fun_ext (λ k. ground arith)

  close_session_comm_ne :
      (w : World) (a b : SessionRef)
      → a.id ≢ b.id
      → close_session cause (close_session cause w a) b
        ≡ close_session cause (close_session cause w b) a
  close_session_comm_ne w a b ne =
      let b_still = closed-others w a b.id ne in
      let a_still = closed-others w b a.id (λ e. ne (sym e)) in
      elim (Option-cases (w.closed a.id)) [
        | inr (e, h) ↦
            ap (λ w'. close_session cause w' b) (close_session-hit w a e h)
            ∙ sym (close_session-hit _ a e (a_still ∙ h))
        | inl h ↦ elim (Option-cases (w.closed b.id)) [
          | inr (e, g) ↦
              close_session-hit _ b e (b_still ∙ g)
              ∙ sym (ap (λ w'. close_session cause w' a) (close_session-hit w b e g))
          | inl g ↦
              close_session-miss _ b (b_still ∙ g)
              ∙ ap (λ w'. first_close w' b) (close_session-miss w a h)
              ∙ ap
                  (λ s'. record {
                    server = s';
                    closed = update (update w.closed a.id cause) b.id cause;
                  })
                  (remove_comm a b w.server ne)
              ∙ ap (λ f. record { server = remove a (remove b w.server); closed = f })
                  (update_comm w.closed a.id b.id)
              ∙ sym (ap (λ w'. first_close w' a) (close_session-miss w b g))
              ∙ sym (close_session-miss _ a (a_still ∙ h))
        ]
      ]

  pub close_session_comm :
      (heap : ℕ → SessionRef) (w : World) (a b : SessionRef)
      → a ≡ heap a.id
      → b ≡ heap b.id
      → close_session cause (close_session cause w a) b
        ≡ close_session cause (close_session cause w b) a
  close_session_comm heap w a b known_a known_b = elim (Bool-cases (a.id == b.id)) [
    | inr far ↦ close_session_comm_ne w a b (λ e. ground arith)
    | inl near ↦
        let same : a ≡ b = known_a ∙ ap heap ((==_iff a.id b.id).0 near) ∙ sym known_b in cc
  ]

-- An entry of a registry, with what the heap has at the pointer.
abbrev pub Stored : (ℕ → SessionRef) → String × SessionRef → Type 0
Stored heap (k, sess) = sess ≡ heap sess.id

abbrev close_entry : Error → World → String × SessionRef → World
close_entry cause w (k, sess) = close_session cause w sess

close_all-as_range :
    (cause : Error) (w : World) (m : List (String × SessionRef))
    → close_all cause w m ≡ range (close_entry cause) w m
unfolding close_all
close_all-as_range cause w [] = refl
close_all-as_range cause w ((k, sess) ∷ m) = close_all-as_range cause (close_session cause w sess) m

-- Go does not specify the order in which `stop` ranges over the sessions, and it does not matter: if
-- equal pointers are the same session, then closing the registered sessions in any order leaves the
-- server and the sessions in the state in which `stop` comes to its wait.
pub stop_any_order :
    (heap : ℕ → SessionRef) (w : World) (order : List (String × SessionRef))
    → All (Stored heap) w.server.by_addr
    → Permᴰ w.server.by_addr order
    → close_all (sentinel server_stopped) (record w { server = halt w.server }) order
      ≡ stop_to_wait w
unfolding stop_to_wait get_active_sessions
stop_any_order heap w order known shuffled =
    let halted : World = record w { server = halt w.server } in
    let cause = sentinel server_stopped in
    close_all-as_range cause halted order
    ∙ sym (
        range-perm (close_entry cause) (Stored heap)
          (λ v a b p q. close_session_comm cause heap v a.1 b.1 p q) w.server.by_addr order shuffled
          halted known)
    ∙ sym (close_all-as_range cause halted w.server.by_addr)
