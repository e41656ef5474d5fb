-- ===== src/Listener/Server/Spec.antt =====
-- server.go: what the server shared by all protocols promises, as a table of sessions and two counters.
use Prim.Native.String.{String}
use mathlib.Core.Path.{fun_ext}
use gopher_socks.Common.{
  ℕ, ◌+◌, ◌-◌, ◌≡◌, refl, ap, ◌∙◌, List, [], ◌∷◌, Option, none, some, Bool, true, false, ◌&&◌,
  if◌then◌else◌, arith, Bool-cases, inl, inr,
}
use gopher_socks.Common.Int.{ℤ, pos, negsuc, ◌+ℤ◌, ltb_ℤ}
use gopher_socks.Common.Assoc.{str_eq, lookup, lookup-insert}
use gopher_socks.Listener.Server.{
  SessionRef, Server, enter, try_admit, add_active, wg_done, halt, add, same_session, unregister,
  release, remove, get_session,
}
use gopher_socks.Listener.Server.Registry.{get_session-unregister}

-- The promise: a session for each address, the slots taken, the goroutines running, and whether the
-- server is stopping.
pub record View : Type 0 where
  pub limit : ℤ
  pub sessions : String → Option SessionRef
  pub taken : ℤ
  pub running : ℕ
  pub stopping : Bool

abbrev pub view : Server → View
view s = record {
  limit = s.max_connections;
  sessions = get_session s;
  taken = s.active;
  running = s.wg;
  stopping = s.stopped;
}

-- The calls that the connection handlers and `stop` make of a server.
pub data Call : Type 0 where
  ask_slot ask_entry finish shut : Call
  enlist delist : SessionRef → Call

-- A call on the server, with its answer (true where it has none).
unfoldable pub call : Call → Server → Bool × Server
call ask_slot s = try_admit s
call ask_entry s = enter s
call finish s = (true, wg_done s)
call shut s = (true, halt s)
call (enlist sess) s = (true, add sess s)
call (delist sess) s = (true, remove sess s)

-- The same call on the promise.
abbrev pub spec_call : Call → View → Bool × View
spec_call ask_slot v =
    if ltb_ℤ v.limit (v.taken +ℤ pos 1)
    then (false, v)
    else (true, record v { taken = v.taken +ℤ pos 1 })
spec_call ask_entry v =
    if v.stopping then (false, v) else (true, record v { running = v.running + 1 })
spec_call finish v = (true, record v { running = v.running - 1 })
spec_call shut v = (true, record v { stopping = true })
spec_call (enlist sess) v =
    (true, record v { sessions = λ k. if str_eq sess.addr k then some sess else v.sessions k })
spec_call (delist sess) v = (
  true,
  record v {
    sessions = λ k.
        if str_eq sess.addr k && same_session sess (v.sessions sess.addr)
        then none
        else v.sessions k;
    taken = v.taken +ℤ negsuc 0;
  },
)

-- A sequence of calls, each with its answer, and the server after them.
unfoldable pub run : List Call → Server → List Bool × Server
run [] s = ([], s)
run (c ∷ cs) s = let (b, s') = call c s in let (bs, last) = run cs s' in (b ∷ bs, last)

abbrev pub spec_run : List Call → View → List Bool × View
spec_run [] v = ([], v)
spec_run (c ∷ cs) v =
    let (b, v') = spec_call c v in let (bs, last) = spec_run cs v' in (b ∷ bs, last)

abbrev pub viewed {ℓ} : {A : Type ℓ} → A × Server → A × View
viewed (b, s) = (b, view s)

ask_slot-as_code :
    (s : Server)
    → try_admit s ≡ (
        if ltb_ℤ s.max_connections (s.active +ℤ pos 1)
        then (false, s)
        else (true, record s { active = s.active +ℤ pos 1 }))
ask_slot-as_code s = unfold try_admit add_active in ground arith

admit_refines : (s : Server) → viewed (call ask_slot s) ≡ spec_call ask_slot (view s)
unfolding call get_session
admit_refines s = elim (Bool-cases (ltb_ℤ s.max_connections (s.active +ℤ pos 1))) [
  | inl e ↦ ap viewed (ask_slot-as_code s) ∙ rw e
  | inr e ↦ ap viewed (ask_slot-as_code s) ∙ rw e
]

entry_refines : (s : Server) → viewed (call ask_entry s) ≡ spec_call ask_entry (view s)
unfolding call enter get_session
entry_refines s = elim (Bool-cases s.stopped) [ inl e ↦ rw e | inr e ↦ rw e ]

enlist_refines :
    (sess : SessionRef) (s : Server) (k : String)
    → get_session (add sess s) k ≡ (if str_eq sess.addr k then some sess else get_session s k)
unfolding add get_session
enlist_refines sess s k = lookup-insert sess.addr k sess s.by_addr

delist_refines :
    (sess : SessionRef) (s : Server)
    → view (remove sess s)
      ≡ record (view s) { sessions = get_session (unregister sess s); taken = s.active +ℤ negsuc 0 }
unfolding remove release add_active unregister get_session
delist_refines sess s = elim (Bool-cases (same_session sess (lookup sess.addr s.by_addr))) [
  | inl e ↦ rw e
  | inr e ↦ rw e
]

call_refines : (c : Call) (s : Server) → viewed (call c s) ≡ spec_call c (view s)
call_refines ask_slot s = admit_refines s
call_refines ask_entry s = entry_refines s
call_refines finish s = unfold call wg_done get_session in refl
call_refines shut s = unfold call get_session in refl
call_refines (enlist sess) s =
    unfold call add in
    ap (λ table. (true, record (view s) { sessions = table })) (fun_ext (enlist_refines sess s))
call_refines (delist sess) s =
    unfold call in
    ap (λ v. (true, v)) (delist_refines sess s)
    ∙ ap (λ table. (true, record (view s) { sessions = table; taken = s.active +ℤ negsuc 0 }))
        (fun_ext (get_session-unregister sess s))

-- Refinement: for every sequence of calls the server gives the answers that the promise gives, and then
-- its sessions, its slots, its goroutines and its stopped flag are those of the promise.
pub run_refines : (cs : List Call) (s : Server) → viewed (run cs s) ≡ spec_run cs (view s)
unfolding run
run_refines [] s = refl
run_refines (c ∷ cs) s =
    ap (λ rest. ((call c s).0 ∷ rest.0, rest.1)) (run_refines cs (call c s).1)
    ∙ ap (λ next. (next.0 ∷ (spec_run cs next.1).0, (spec_run cs next.1).1)) (call_refines c s)
