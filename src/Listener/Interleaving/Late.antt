-- ===== src/Listener/Interleaving/Late.antt =====
-- server.go and the handlers: what a session leaves behind that is closed before it is registered.
use gopher_socks.Common.{◌≡◌, refl, ◌∙◌, [], ◌∷◌, Option, some, true, false, if◌then◌else◌, arith}
use gopher_socks.Common.Int.{ℤ, pos, ◌≤ℤ◌, ◌+ℤ◌, ltb_ℤ}
use gopher_socks.Common.Assoc.{lookup-insert, str_eq_refl}
use gopher_socks.Errors.{Error}
use gopher_socks.Listener.Server.{
  SessionRef, Server, new_server, add_active, enter, add, remove, get_session, wg_done,
}
use gopher_socks.Listener.Interleaving.{
  Shared, Reach, admitted, over, entered, counts, advances, finishes, enters, creates, closes,
  registers, returns, begin, next,
}

pub get_session-add :
    (sess : SessionRef) (s : Server) → get_session (add sess s) sess.addr ≡ some sess
unfolding get_session add
get_session-add sess s =
    lookup-insert sess.addr sess.addr sess s.by_addr ∙ rw (str_eq_refl sess.addr) refl

-- A new server with a limit of at least one can reach, for any session, a state in which no goroutine is
-- left and the session, which has been closed, is in the registry.
pub late_registration :
    (cause : Option Error) (max : ℤ) (sess : SessionRef)
    → pos 1 ≤ℤ max
    → (t : Shared) × (Reach (new_server cause max) t
        × ((t.conns ≡ []) × (get_session t.server sess.addr ≡ some sess)))
unfolding add_active new_server enter get_session add wg_done
late_registration cause max sess one =
    let admits : (if ltb_ℤ max (pos 0 +ℤ pos 1) then over else admitted) ∷ [] ≡ admitted ∷ [] =
      ground arith in
    let r1 = next begin counts in
    let r2 = next r1 (advances [] admitted _ [] _ admits enters) in
    let r3 = next r2 (advances [] entered _ [] _ refl (creates sess)) in
    let r4 = next r3 (advances [] _ _ [] _ refl (closes sess false)) in
    let r5 = next r4 (advances [] _ _ [] _ refl (registers sess true)) in
    let r6 = next r5 (finishes [] _ [] _ refl (returns sess)) in
    (_, (r6, (refl, get_session-add sess (remove sess _))))
