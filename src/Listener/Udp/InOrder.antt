-- ===== src/Listener/Udp/InOrder.antt =====
-- udp.go: the invariant of the read loop, the readers, the ticks and the closings beside one another.
use Prim.Native.String.{String}
use mathlib.Core.List.{Sublist, nil-sublist}
use mathlib.Core.List.Sublist
use gopher_socks.Common.{
  ℕ, ◌≤◌, ◌<◌, ◌≡◌, sym, ap, subst, ◌∙◌, inl, inr, List, [], ◌∷◌, ◌++◌, some, Bool, true, false,
  ◌==◌, ==_iff, length, length-append, append-nil, append_assoc, arith, Bool-cases, Option-cases,
}
use gopher_socks.Common.Int.{ℤ}
use gopher_socks.Common.Assoc.{str_eq, str_eq_refl}
use gopher_socks.Errors.{Error, ok, sentinel, deadline_exceeded}
use gopher_socks.Listener.Server.{SessionRef, World, get_session, close_session, close_all}
use gopher_socks.Listener.Server.Registry.{remove-Removes}
use gopher_socks.Listener.Udp.{
  UdpServer, max_udp_payload, set, capacity, reap, receive, read_message,
}
use gopher_socks.Listener.Udp.Idle.{kept, reap-close_all}
use gopher_socks.Listener.Udp.Arrival.{Owner, Delivers, receive-Delivers}
use gopher_socks.Listener.Udp.Steps.{State, log_datagram, serve_datagram, give}

-- Each session stands under its own address, with a pointer that was handed out; a pointer that was not
-- has nothing; a channel is within its capacity; and what a session has read, followed by what waits in
-- its channel, are datagrams that came from its address, whole, each at most once and in their order.
pub record Ordered (t : State) : Type 0 where
  pub registered :
      (k : String) (sess : SessionRef)
      → get_session t.udp.world.server k ≡ some sess
      → (sess.addr ≡ k) × (sess.id < t.fresh) × (t.client sess.id ≡ k)
  pub unused : (i : ℕ) → t.fresh ≤ i → (t.udp.inbox i ≡ []) × (t.read i ≡ [])
  pub room : (i : ℕ) → length (t.udp.inbox i) ≤ capacity t.udp
  pub in_order : (i : ℕ) → Sublist (t.read i ++ t.udp.inbox i) (t.arrived (t.client i))

-- No address gets a session.
abbrev pub NoNew : World → World → Type 0
NoNew w w' =
    (k : String) (sess : SessionRef)
    → get_session w'.server k ≡ some sess
    → get_session w.server k ≡ some sess

pub close_session-NoNew :
    (e : Error) (w : World) (sess : SessionRef) → NoNew w (close_session e w sess)
unfolding close_session
close_session-NoNew e w sess = elim (Option-cases (w.closed sess.id)) [
  | inr (x, q) ↦ rw (q, close_session) (λ k other h. h)
  | inl q ↦ rw (q, close_session) (remove-Removes sess w.server).adds_none
]

pub close_all-NoNew :
    (e : Error) (w : World) (m : List (String × SessionRef)) → NoNew w (close_all e w m)
unfolding close_all
close_all-NoNew e w [] k sess h = h
close_all-NoNew e w ((j, head) ∷ m) k sess h =
    close_session-NoNew e w head k sess (close_all-NoNew e (close_session e w head) m k sess h)

pub reap-NoNew :
    (is_idle : SessionRef → Bool) (w : World) (m : List (String × SessionRef))
    → NoNew w (reap is_idle w m)
reap-NoNew is_idle w m =
    subst (NoNew w) (sym (reap-close_all is_idle w m))
      (close_all-NoNew (sentinel deadline_exceeded) w (kept is_idle m))

-- Only the world changes, and no address gets a session.
pub world-Ordered :
    (u' : UdpServer) (t : State)
    → Ordered t
    → u'.cfg ≡ t.udp.cfg
    → u'.inbox ≡ t.udp.inbox
    → NoNew t.udp.world u'.world
    → Ordered (record t { udp = u' })
world-Ordered u' t v same_cfg same none_new = record {
  registered = λ k sess h. v.registered k sess (none_new k sess h);
  unused = λ i h. (ap (λ f. f i) same ∙ (v.unused i h).0, (v.unused i h).1);
  room = λ i. omega (
    arith,
    v.room i,
    ap (λ f. length (f i)) same,
    ap (λ c. capacity (record u' { cfg = c })) same_cfg,
  );
  in_order = λ i.
      subst (λ f. Sublist (t.read i ++ f i) (t.arrived (t.client i))) (sym same) (v.in_order i);
}

pub give-Ordered :
    (i : ℕ) (m : List ℕ) (rest : List (List ℕ)) (t : State)
    → Ordered t
    → t.udp.inbox i ≡ m ∷ rest
    → Ordered (give i m rest t)
give-Ordered i m rest t v e = record {
  registered = v.registered;
  unused = λ j h. elim (Bool-cases (i == j)) [
    | inr far ↦ rw far (v.unused j h)
    | inl near ↦
        let same : i ≡ j = (==_iff i j).0 near in
        absurd (omega (arith, ap length (sym e ∙ ap t.udp.inbox same ∙ (v.unused j h).0)))
  ];
  room = λ j. elim (Bool-cases (i == j)) [
    | inr far ↦ rw far (v.room j)
    | inl near ↦ rw near (omega (arith, v.room i, ap length e))
  ];
  in_order = λ j. elim (Bool-cases (i == j)) [
    | inr far ↦ rw far (v.in_order j)
    | inl near ↦
        let same : i ≡ j = (==_iff i j).0 near in
        rw near (
          subst (λ l. Sublist l (t.arrived (t.client j)))
            (ap (λ k. t.read k ++ t.udp.inbox k) (sym same)
              ∙ ap (◌++◌ (t.read i)) e
              ∙ sym (append_assoc (t.read i) (m ∷ []) rest))
            (v.in_order j))
  ];
}

pub read_message-takes :
    (done first : Bool) (inbox : List (List ℕ)) (m : List ℕ) (rest : List (List ℕ))
    → read_message done first inbox ≡ some (ok m, rest)
    → inbox ≡ m ∷ rest
unfolding read_message
read_message-takes true first [] m rest h = cc
read_message-takes false first [] m rest h = cc
read_message-takes true true (x ∷ inbox) m rest h = cc
read_message-takes true false (x ∷ inbox) m rest h = cc
read_message-takes false first (x ∷ inbox) m rest h = cc

module _ (addr : String) (d : List ℕ) (arrived : String → List (List ℕ)) where
  log_stays :
      (xs : List (List ℕ)) (k : String)
      → Sublist xs (arrived k)
      → Sublist xs (log_datagram addr d arrived k)
  log_stays xs k h = elim (Bool-cases (str_eq addr k)) [
    | inr far ↦ rw far h
    | inl near ↦ rw near (
        subst (λ l. Sublist l (arrived k ++ d ∷ [])) (append-nil xs)
          (Sublist.append h (nil-sublist (d ∷ []))))
  ]

  log_grows :
      (xs : List (List ℕ)) (k : String)
      → addr ≡ k
      → Sublist xs (arrived k)
      → Sublist (xs ++ d ∷ []) (log_datagram addr d arrived k)
  log_grows xs k e h =
      let here : str_eq addr k ≡ true = ap (λ x. str_eq addr x) (sym e) ∙ str_eq_refl addr in
      rw here (Sublist.append h (Sublist.refl (d ∷ [])))

module _ (now : ℤ) (addr : String) (d : List ℕ) (t : State) (v : Ordered t) where
  abbrev client' : ℕ → String
  client' = set t.client t.fresh addr

  -- A pointer that is handed out keeps its address.
  client_stays : (i : ℕ) → i < t.fresh → client' i ≡ t.client i
  client_stays i h = ground arith

  client_new : client' t.fresh ≡ addr
  client_new = ground arith

  -- What a session has is ordered by the address of its pointer, the new pointer's included.
  order' : (i : ℕ) → Sublist (t.read i ++ t.udp.inbox i) (t.arrived (client' i))
  order' i = elim (Bool-cases (t.fresh == i)) [
    | inr far ↦ rw far (v.in_order i)
    | inl near ↦
        let (no_inbox, no_read) = v.unused i (ground arith) in
        rw (no_inbox, no_read) (nil-sublist (t.arrived (client' i)))
  ]

  addressee : (i : ℕ) → Owner addr t.fresh t.udp i → (i ≤ t.fresh) × (addr ≡ client' i)
  addressee i (inl e) = (omega arith, sym (ap client' e ∙ client_new))
  addressee i (inr (sess, h, e)) =
      let (own, small, at_addr) = v.registered addr sess h in
      (omega arith, sym at_addr ∙ ap t.client e ∙ sym (client_stays i (omega arith)))

  pub datagram-Ordered : length d ≤ max_udp_payload → Ordered (serve_datagram now addr d t)
  datagram-Ordered h = record {
    registered = λ k sess e. elim (took.entries k sess e) [
      | inl old ↦
          let (own, small, same) = v.registered k sess old in
          (own, omega arith, client_stays sess.id small ∙ same)
      | inr (at_addr, new) ↦ (
        ap (λ x. x.addr) new ∙ sym at_addr,
        omega (arith, ap (λ x. x.id) new),
        ap (λ x. client' x.id) new ∙ client_new ∙ sym at_addr,
      )
    ];
    unused = λ i e. elim (took.inboxes i) [
      | inl same ↦ (same ∙ (v.unused i (omega arith)).0, (v.unused i (omega arith)).1)
      | inr (own, free, more) ↦ absurd (omega (arith, (addressee i own).0))
    ];
    room = λ i. elim (took.inboxes i) [
      | inl same ↦ omega (arith, v.room i, ap length same, same_capacity)
      | inr (own, free, more) ↦
          omega (arith, ap length more, length-append (t.udp.inbox i) (d ∷ []), same_capacity)
    ];
    in_order = λ i. elim (took.inboxes i) [
      | inl same ↦
          log_stays addr d t.arrived _ (client' i)
            (subst (λ l. Sublist (t.read i ++ l) (t.arrived (client' i))) (sym same) (order' i))
      | inr (own, free, more) ↦
          subst (λ l. Sublist l (log_datagram addr d t.arrived (client' i)))
            (append_assoc (t.read i) (t.udp.inbox i) (d ∷ []) ∙ ap (◌++◌ (t.read i)) (sym more))
            (log_grows addr d t.arrived _ (client' i) (addressee i own).1 (order' i))
    ];
  }
    where
      took : Delivers addr t.fresh d t.udp (receive now addr t.fresh d t.udp)
      took = receive-Delivers now addr t.fresh d t.udp (v.unused t.fresh (omega arith)).0 h

      same_capacity : capacity (receive now addr t.fresh d t.udp) ≡ capacity t.udp
      same_capacity = ap (λ c. capacity (record t.udp { cfg = c })) took.cfg
