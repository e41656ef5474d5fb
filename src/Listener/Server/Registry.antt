-- ===== src/Listener/Server/Registry.antt =====
-- server.go: what the registry and the admission counter keep, operation by operation.
use Prim.Native.String.{String}
use gopher_socks.Common.{
  ap, ◌≡◌, ◌∙◌, sym, ◌≢◌, ◌↔◌, Option, none, some, true, false, ◌&&◌, if◌then◌else◌, arith,
  Bool-cases, inl, inr,
}
use gopher_socks.Common.Int.{pos, negsuc, ◌+ℤ◌, ◌≤ℤ◌}
use gopher_socks.Common.Assoc.{lookup, str_eq, str_eq→eq, str_eq_refl, lookup-erase}
use gopher_socks.Listener.Server.{
  SessionRef, Server, try_admit, same_session, unregister, remove, get_session,
}

-- A connection is admitted exactly while fewer than max_connections slots are taken; then it has one
-- more slot, and otherwise the server is as before.
pub try_admit_lem :
    (s : Server)
    → let (admitted, s') = try_admit s in
      ((admitted ≡ true) ↔ (s.active +ℤ pos 1 ≤ℤ s.max_connections))
      × (s' ≡ (if admitted then record s { active = s.active +ℤ pos 1 } else s))
unfolding try_admit
try_admit_lem s = ((λ h. ground arith, λ h. ground arith), ground arith)

pub get_session-unregister :
    (sess : SessionRef) (s : Server) (k : String)
    → get_session (unregister sess s) k ≡ (
        if str_eq sess.addr k && same_session sess (get_session s sess.addr)
        then none
        else get_session s k)
unfolding unregister get_session
get_session-unregister sess s k =
    elim (Bool-cases (same_session sess (lookup sess.addr s.by_addr))) [
      | inl e ↦ rw (e, unregister) (lookup-erase sess.addr k s.by_addr ∙ ground arith)
      | inr e ↦ rw (e, unregister) (ground arith)
    ]

-- What `remove` does to the registry and to the counter.
pub record Removes (sess : SessionRef) (s s' : Server) : Type 0 where
  pub keeps :
      (k : String) (other : SessionRef)
      → get_session s k ≡ some other
      → other.id ≢ sess.id
      → get_session s' k ≡ some other
  pub adds_none :
      (k : String) (other : SessionRef)
      → get_session s' k ≡ some other
      → get_session s k ≡ some other
  pub gone : (other : SessionRef) → get_session s' sess.addr ≡ some other → other.id ≢ sess.id
  pub frees : s'.active ≡ s.active +ℤ negsuc 0

same_session-id :
    (sess other : SessionRef) (o : Option SessionRef)
    → o ≡ some other
    → other.id ≢ sess.id
    → same_session sess o ≡ false
same_session-id sess other o e ne = rw e (ground arith)

module _ (sess : SessionRef) (s : Server) where
  unregister-keeps :
      (k : String) (other : SessionRef)
      → get_session s k ≡ some other
      → other.id ≢ sess.id
      → get_session (unregister sess s) k ≡ some other
  unregister-keeps k other e ne = elim (Bool-cases (str_eq sess.addr k)) [
    | inr far ↦ get_session-unregister sess s k ∙ rw far e
    | inl near ↦
        let there : get_session s sess.addr ≡ some other = rw (str_eq→eq sess.addr k near) e in
        get_session-unregister sess s k ∙ rw (near, same_session-id sess other _ there ne) e
  ]

  unregister-adds_none :
      (k : String) (other : SessionRef)
      → get_session (unregister sess s) k ≡ some other
      → get_session s k ≡ some other
  unregister-adds_none k other e =
      let f : (if str_eq sess.addr k && same_session sess (get_session s sess.addr)
            then none
            else get_session s k)
          ≡ some other =
        sym (get_session-unregister sess s k) ∙ e in
      ground arith

  unregister-gone :
      (other : SessionRef)
      → get_session (unregister sess s) sess.addr ≡ some other
      → other.id ≢ sess.id
  unregister-gone other e =
      let f : (if str_eq sess.addr sess.addr && same_session sess (get_session s sess.addr)
            then none
            else get_session s sess.addr)
          ≡ some other =
        sym (get_session-unregister sess s sess.addr) ∙ e in
      ground (arith, str_eq_refl sess.addr)

  pub unregister-active : (unregister sess s).active ≡ s.active
  unregister-active = unfold unregister in ground arith

  -- Removing a session frees one slot and unregisters that session and no other: not even one that has
  -- taken over its address.
  pub remove-Removes : Removes sess s (remove sess s)
  unfolding remove get_session
  remove-Removes = record {
    keeps = unregister-keeps;
    adds_none = unregister-adds_none;
    gone = unregister-gone;
    frees = ap (λ a. a +ℤ negsuc 0) unregister-active;
  }
