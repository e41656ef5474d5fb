-- ===== src/Listener/Udp/Arrival.antt =====
-- udp.go: under any interleaving, what a session reads are the datagrams of its address, in order.
use Prim.Native.String.{String}
use gopher_socks.Common.{
  ℕ, ◌≤◌, ◌<◌, ◌≡◌, ◌≢◌, refl, sym, ap, subst, ◌∙◌, ◌⊎◌, inl, inr, List, [], ◌∷◌, ◌++◌, Option,
  some, ◌==◌, ==_iff, ◌||◌, ltb, length, arith, Bool-cases, Option-cases,
}
use gopher_socks.Common.Int.{ℤ}
use gopher_socks.Common.Assoc.{lookup, str_eq, str_eq→eq, lookup-insert}
use gopher_socks.Listener.Server.{SessionRef, Server, add, get_session}
use gopher_socks.Listener.Accept.{
  Admission, over, stopping, admitted, admit, accept, admit_lem, admission, registered,
}
use gopher_socks.Listener.Udp.{
  UdpServer, max_udp_payload, set, capacity, push, opened, with_server, deliver, receive,
}
use gopher_socks.Listener.Udp.Datagrams.{receive_lem}

-- The session is the new one, or the one registered for the address.
abbrev pub Owner : String → ℕ → UdpServer → ℕ → Type 0
Owner addr fresh u j =
    (j ≡ fresh)
    ⊎ ((sess : SessionRef) × (get_session u.world.server addr ≡ some sess) × (sess.id ≡ j))

-- What a datagram `msg` from `addr` may do.
pub record Delivers (addr : String) (fresh : ℕ) (msg : List ℕ) (u u' : UdpServer) : Type 0 where
  pub cfg : u'.cfg ≡ u.cfg
  pub entries :
      (k : String) (sess : SessionRef)
      → get_session u'.world.server k ≡ some sess
      → (get_session u.world.server k ≡ some sess)
        ⊎ ((k ≡ addr) × (sess ≡ record { id = fresh; addr = addr }))
  pub inboxes :
      (j : ℕ)
      → (u'.inbox j ≡ u.inbox j)
        ⊎ (Owner addr fresh u j
            × (length (u.inbox j) < capacity u)
            × (u'.inbox j ≡ u.inbox j ++ msg ∷ []))

nothing-Delivers :
    (addr : String) (fresh : ℕ) (msg : List ℕ) (u : UdpServer) → Delivers addr fresh msg u u
nothing-Delivers addr fresh msg u = record {
  cfg = refl;
  entries = λ k sess h. inl h;
  inboxes = λ j. inl refl;
}

push-inbox :
    (now : ℤ) (sess : SessionRef) (msg : List ℕ) (u : UdpServer) (j : ℕ)
    → ((push now sess msg u).inbox j ≡ u.inbox j)
      ⊎ ((sess.id ≡ j)
          × (length (u.inbox j) < capacity u)
          × ((push now sess msg u).inbox j ≡ u.inbox j ++ msg ∷ []))
unfolding push
push-inbox now sess msg u j = elim (Bool-cases (ltb (length (u.inbox sess.id)) (capacity u))) [
  | inr full ↦ inl (rw full refl)
  | inl room ↦ elim (Bool-cases (sess.id == j)) [
    | inr far ↦ inl (rw (room, far) refl)
    | inl near ↦
        let same : sess.id ≡ j = (==_iff sess.id j).0 near in
        inr (
          same,
          subst (λ i. length (u.inbox i) < capacity u) same (ground arith),
          rw (room, near) (ap (λ i. u.inbox i ++ msg ∷ []) same),
        )
  ]
]

set-same {ℓ} : {A : Type ℓ} (f : ℕ → A) (i : ℕ) (a : A) (j : ℕ) → f i ≡ a → set f i a j ≡ f j
set-same f i a j e = elim (Bool-cases (i == j)) [
  | inl near ↦ rw near (sym e ∙ ap f ((==_iff i j).0 near))
  | inr far ↦ rw far refl
]

add-entries :
    (sess : SessionRef) (s : Server) (k : String) (other : SessionRef)
    → get_session (add sess s) k ≡ some other
    → (get_session s k ≡ some other) ⊎ ((k ≡ sess.addr) × (other ≡ sess))
unfolding add get_session
add-entries sess s k other h =
    let found = sym (lookup-insert sess.addr k sess s.by_addr) ∙ h in
    elim (Bool-cases (str_eq sess.addr k)) [
      | inr far ↦ inl (rw far at found)
      | inl near ↦
          let eq : ◌≡◌ {A = Option SessionRef} (some sess) (some other) = rw near at found in
          inr (sym (str_eq→eq sess.addr k near), cc)
    ]

module _ (now : ℤ) (addr : String) (fresh : ℕ) (msg : List ℕ) (u : UdpServer)
    (unused : u.inbox fresh ≡ []) where
  abbrev newcomer : SessionRef
  newcomer = record { id = fresh; addr = addr }

  -- The server once the session is registered and has its channel.
  abbrev enlisted : Server → UdpServer
  enlisted s = record (with_server (add newcomer s) u) { inbox = set u.inbox fresh [] }

  enlisted-Delivers :
      (s : Server)
      → s.by_addr ≡ u.world.server.by_addr
      → Delivers addr fresh msg u (push now newcomer msg (enlisted s))
  unfolding push get_session
  enlisted-Delivers s same = record {
    cfg = refl;
    entries = λ k sess h. elim (add-entries newcomer s k sess h) [
      | inl old ↦ inl (subst (λ m. lookup k m ≡ some sess) same old)
      | inr new ↦ inr new
    ];
    inboxes = λ j. elim (push-inbox now newcomer msg (enlisted s) j) [
      | inl e ↦ inl (e ∙ set-same u.inbox fresh [] j unused)
      | inr (own, room, e) ↦
          let before = set-same u.inbox fresh [] j unused in
          inr (
            inl (sym own),
            subst (λ l. length l < capacity u) before room,
            e ∙ ap (λ l. l ++ msg ∷ []) before,
          )
    ];
  }

  refused-Delivers : (s : Server) → s ≡ u.world.server → Delivers addr fresh msg u (with_server s u)
  refused-Delivers s same =
      subst (Delivers addr fresh msg u) (ap (λ x. with_server x u) (sym same))
        (nothing-Delivers addr fresh msg u)

  opened-Delivers :
      (r : Admission × Server)
      → r.1.by_addr ≡ u.world.server.by_addr
      → (r.0 ≢ admitted → r.1 ≡ u.world.server)
      → Delivers addr fresh msg u (opened now newcomer msg u (registered newcomer r))
  opened-Delivers (over, s) same back = refused-Delivers s (back (λ e. cc))
  opened-Delivers (stopping, s) same back = refused-Delivers s (back (λ e. cc))
  opened-Delivers (admitted, s) same back = enlisted-Delivers s same

  admitted_back :
      (s : Server)
      → ((admission s).1.by_addr ≡ s.by_addr) × ((admission s).0 ≢ admitted → (admission s).1 ≡ s)
  admitted_back s = (ground arith, λ h. ground arith)

  known_owner :
      (sess : SessionRef)
      → lookup addr u.world.server.by_addr ≡ some sess
      → Delivers addr fresh msg u (push now sess msg u)
  unfolding push get_session
  known_owner sess h = record {
    cfg = refl;
    entries = λ k other e. inl e;
    inboxes = λ j. elim (push-inbox now sess msg u j) [
      | inl e ↦ inl e
      | inr (own, room, e) ↦ inr (inr (sess, h, own), room, e)
    ];
  }

  deliver-Delivers : Delivers addr fresh msg u (deliver now addr fresh msg u)
  unfolding deliver accept
  deliver-Delivers = elim (Option-cases (lookup addr u.world.server.by_addr)) [
    | inr (sess, h) ↦ rw (h, deliver) (known_owner sess h)
    | inl h ↦
        let (same, back) = admitted_back u.world.server in
        let is_admission = sym (admit_lem u.world.server) in
        rw (h, deliver)
          (opened-Delivers (admit u.world.server)
            (subst (λ r. r.1.by_addr ≡ u.world.server.by_addr) is_admission same)
            (subst (λ r. r.0 ≢ admitted → r.1 ≡ u.world.server) is_admission back))
  ]

  pub receive-Delivers :
      length msg ≤ max_udp_payload → Delivers addr fresh msg u (receive now addr fresh msg u)
  receive-Delivers h =
      rw (receive_lem now addr fresh msg u h)
        (elim (Bool-cases (length msg == 0 || ltb u.cfg.max_length (length msg))) [
          | inl dropped ↦ rw dropped (nothing-Delivers addr fresh msg u)
          | inr passed ↦ rw passed deliver-Delivers
        ])
