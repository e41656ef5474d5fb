-- ===== src/Listener/Udp/Expiry.antt =====
-- udp.go, reapIdle: a silent session is closed by the first tick after its timeout, and by none before.
use Prim.Native.String.{String}
use gopher_socks.Common.{
  ℕ, zero, suc, ◌≡◌, ◌⊎◌, refl, sym, ap, subst, ◌∙◌, inl, inr, some, none, Bool, true, false, All,
  if◌then◌else◌, Bool-cases, ◌≤◌, ◌*◌, ◌/◌, max, arith,
}
use gopher_socks.Common.Int.{ℤ, pos, pos_part, ltb_ℤ, ◌+ℤ◌, ◌-ℤ◌}
use gopher_socks.Errors.{Error, sentinel, deadline_exceeded}
use gopher_socks.Listener.Server.{SessionRef, World, get_session, get_active_sessions, or_cause}
use gopher_socks.Listener.Server.Stopping.{close_all-Keeps}
use gopher_socks.Listener.Server.Order.{Stored}
use gopher_socks.Listener.Udp.{UdpServer, idle, reap, reap_idle}
use gopher_socks.Listener.Udp.Idle.{kept, reap-close_all, reap_idle-closes}
use gopher_socks.Listener.Udp.Ticks.{
  tick_time, tick_period, tick_time-period, run_ticks, reap-All, idle-later, Stored-Busy,
  lookup-Stored, reap-registered,
}

-- A session that is registered and open, with only sessions that the heap has in the registry.
record Open (heap : ℕ → SessionRef) (k : String) (sess : SessionRef) (w : World) : Type 0 where
  stored : All (Stored heap) w.server.by_addr
  registered : get_session w.server k ≡ some sess
  open_yet : w.closed sess.id ≡ none

module _ (heap : ℕ → SessionRef) (k : String) (sess : SessionRef) (now : ℤ) (u : UdpServer)
    (on : ltb_ℤ (pos 0) u.cfg.read_timeout ≡ true) where
  as_reaped :
      reap_idle now u ≡ record u { world = reap (idle now u) u.world u.world.server.by_addr }
  as_reaped = unfold reap_idle get_active_sessions in rw on

  -- A tick for which the session is not idle leaves it.
  tick_leaves :
      Open heap k sess u.world → idle now u sess ≡ false → Open heap k sess (reap_idle now u).world
  unfolding get_session get_active_sessions
  tick_leaves o busy =
      let all_busy =
        Stored-Busy heap (idle now u) sess u.world.server.by_addr o.stored
          (lookup-Stored heap k sess u.world.server.by_addr o.stored o.registered) busy in
      record {
        stored =
            subst (λ x. All (Stored heap) x.world.server.by_addr) (sym as_reaped)
              (reap-All (Stored heap) (idle now u) u.world u.world.server.by_addr o.stored);
        registered =
            ap (λ x. get_session x.world.server k) as_reaped
            ∙ reap-registered k sess (idle now u) u.world u.world.server.by_addr all_busy
                o.registered;
        open_yet = (reap_idle-closes now u on).1 sess.id all_busy ∙ o.open_yet;
      }

  -- A tick for which it is closes it, with context.DeadlineExceeded.
  tick_closes :
      Open heap k sess u.world
      → idle now u sess ≡ true
      → (reap_idle now u).world.closed sess.id ≡ some (sentinel deadline_exceeded)
  tick_closes o quiet =
      (reap_idle-closes now u on).0 k sess o.registered quiet
      ∙ ap (λ c. some (or_cause c (sentinel deadline_exceeded))) o.open_yet

  -- A closed session keeps its cause.
  tick_keeps :
      (e : Error)
      → u.world.closed sess.id ≡ some e
      → (reap_idle now u).world.closed sess.id ≡ some e
  tick_keeps e h =
      let kept_closings =
        close_all-Keeps (sentinel deadline_exceeded) u.world
          (kept (idle now u) u.world.server.by_addr) in
      ap (λ x. x.world.closed sess.id) as_reaped
      ∙ ap (λ x. x.closed sess.id) (reap-close_all (idle now u) u.world u.world.server.by_addr)
      ∙ kept_closings.closings sess.id e h

-- Ticks change the world alone.
reap_idle-same :
    (now : ℤ) (u : UdpServer) → ((reap_idle now u).cfg ≡ u.cfg) × ((reap_idle now u).last ≡ u.last)
unfolding reap_idle
reap_idle-same now u = elim (Bool-cases (ltb_ℤ (pos 0) u.cfg.read_timeout)) [
  | inl on ↦ rw (on, reap_idle) (refl, refl)
  | inr off ↦ rw (off, reap_idle) (refl, refl)
]

run_ticks-same :
    (made : ℤ) (n : ℕ) (u : UdpServer)
    → ((run_ticks made n u).cfg ≡ u.cfg) × ((run_ticks made n u).last ≡ u.last)
unfolding run_ticks
run_ticks-same made zero u = (refl, refl)
run_ticks-same made (suc n) u =
    let (cfg, last) = run_ticks-same made n u in
    let (cfg', last') = reap_idle-same (tick_time u made (suc n)) (run_ticks made n u) in
    (cfg' ∙ cfg, last' ∙ last)

module _ (heap : ℕ → SessionRef) (k : String) (sess : SessionRef) (made : ℤ) (u : UdpServer)
    (on : ltb_ℤ (pos 0) u.cfg.read_timeout ≡ true) where
  abbrev quiet_at : ℕ → Bool
  quiet_at n = idle (tick_time u made n) u sess

  quiet-same : (n : ℕ) (now : ℤ) → idle now (run_ticks made n u) sess ≡ idle now u sess
  quiet-same n now =
      let (cfg, last) = run_ticks-same made n u in
      ap (λ c. idle now (record (run_ticks made n u) { cfg = c }) sess) cfg
      ∙ ap (λ l. idle now (record u { last = l }) sess) last

  on_still : (n : ℕ) → ltb_ℤ (pos 0) (run_ticks made n u).cfg.read_timeout ≡ true
  on_still n = ap (λ c. ltb_ℤ (pos 0) c.read_timeout) (run_ticks-same made n u).0 ∙ on

  abbrev after : ℕ → World
  after n = (run_ticks made n u).world

  -- The session is open while it is not idle, and when it is closed the cause is DeadlineExceeded.
  record Expires (n : ℕ) : Type 0 where
    still_open : quiet_at n ≡ false → Open heap k sess (after n)
    either :
        Open heap k sess (after n) ⊎ ((after n).closed sess.id ≡ some (sentinel deadline_exceeded))

  quiet_before : (n : ℕ) → quiet_at (suc n) ≡ false → quiet_at n ≡ false
  quiet_before n e = elim (Bool-cases (quiet_at n)) [
    | inr q ↦ q
    | inl q ↦
        let later = idle-later u sess (tick_time u made n) (tick_period u) q in
        absurd (cc (later, e))
  ]

  next_tick :
      (n : ℕ)
      → Expires n
      → (quiet_at (suc n) ≡ true
          → (after (suc n)).closed sess.id ≡ some (sentinel deadline_exceeded))
        × (quiet_at (suc n) ≡ false → Open heap k sess (after (suc n)))
  unfolding run_ticks
  next_tick n x =
      let now = tick_time u made (suc n) in
      let reached = run_ticks made n u in
      (
        λ e. elim x.either [
          | inl o ↦ tick_closes heap k sess now reached (on_still n) o (quiet-same n now ∙ e)
          | inr c ↦ tick_keeps heap k sess now reached (on_still n) (sentinel deadline_exceeded) c
        ],
        λ e.
            tick_leaves heap k sess now reached (on_still n) (x.still_open (quiet_before n e))
              (quiet-same n now ∙ e),
      )

  Expires-suc : (n : ℕ) → Expires n → Expires (suc n)
  Expires-suc n x =
      let (quiet, busy) = next_tick n x in
      record {
        still_open = busy;
        either = elim (Bool-cases (quiet_at (suc n))) [
          | inl e ↦ inr (quiet e)
          | inr e ↦ inl (busy e)
        ];
      }

  all_ticks : Open heap k sess u.world → (n : ℕ) → Expires n
  all_ticks o zero = unfold run_ticks in record { still_open = λ e. o; either = inl o }
  all_ticks o (suc n) = Expires-suc n (all_ticks o n)

-- A session that is open and registered, and that no datagram reaches, with a ReadTimeout of t > 0: after the
-- first suc n ticks of reapIdle, which are a quarter of t apart but at least 10 ms, it is closed with
-- context.DeadlineExceeded if more than t has passed between its last datagram and the last of these
-- ticks, and it is open else. Equal pointers are the same session.
pub run_ticks-expires :
    (heap : ℕ → SessionRef) (k : String) (sess : SessionRef) (made : ℤ) (u : UdpServer) (n t : ℕ)
    → u.cfg.read_timeout ≡ pos t
    → 1 ≤ t
    → All (Stored heap) u.world.server.by_addr
    → get_session u.world.server k ≡ some sess
    → u.world.closed sess.id ≡ none
    → (run_ticks made (suc n) u).world.closed sess.id ≡ (
        if ltb_ℤ (pos t) ((made +ℤ pos (suc n * max (t / 4) 10_000_000)) -ℤ u.last sess.id)
        then some (sentinel deadline_exceeded)
        else none)
run_ticks-expires heap k sess made u n t timeout positive stored registered fresh =
    let o : Open heap k sess u.world = record {
      stored = stored;
      registered = registered;
      open_yet = fresh;
    } in
    let on : ltb_ℤ (pos 0) u.cfg.read_timeout ≡ true = rw timeout (ground arith) in
    let same : idle (tick_time u made (suc n)) u sess
        ≡ ltb_ℤ (pos t) ((made +ℤ pos (suc n * max (t / 4) 10_000_000)) -ℤ u.last sess.id) =
      ap (λ x. idle x u sess) (tick_time-period u made (suc n))
      ∙ ap
          (λ r. ltb_ℤ r ((made +ℤ pos (suc n * max (pos_part r / 4) 10_000_000)) -ℤ u.last sess.id))
          timeout in
    let (quiet, busy) = next_tick heap k sess made u on n (all_ticks heap k sess made u on o n) in
    elim (Bool-cases (idle (tick_time u made (suc n)) u sess)) [
      | inl e ↦ quiet e ∙ rw (sym same ∙ e) refl
      | inr e ↦ (busy e).open_yet ∙ rw (sym same ∙ e) refl
    ]
