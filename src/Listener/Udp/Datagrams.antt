-- ===== src/Listener/Udp/Datagrams.antt =====
-- udp.go: which datagrams reach a session, and that they do so whole and in order.
use Prim.Native.String.{String}
use gopher_socks.Common.{
  ℕ, ◌≤◌, ◌≡◌, refl, ap, ◌∙◌, ◌≢◌, List, [], ◌∷◌, ◌++◌, none, some, ◌==◌, ◌||◌, length, take,
  length-take, take-whole, ◌&&◌, ltb, if◌then◌else◌, arith, Bool-cases, inl, inr,
}
use gopher_socks.Common.Int.{ℤ}
use gopher_socks.Common.Assoc.{lookup}
use gopher_socks.Listener.Server.{SessionRef, Server, add, get_session}
use gopher_socks.Listener.Interleaving.Late.{get_session-add}
use gopher_socks.Listener.Accept.{
  Admission, over, stopping, admitted, admit, accept, admit_lem, admission, registered,
}
use gopher_socks.Listener.Udp.{
  UdpServer, max_udp_payload, buf_size, receive, deliver, push, capacity, with_server, opened,
}

-- A datagram that UDP can carry is dropped if it is empty or longer than MaxLength, and else delivered
-- whole: the buffer never cuts one that is not dropped.
pub receive_lem :
    (now : ℤ) (addr : String) (fresh : ℕ) (d : List ℕ) (u : UdpServer)
    → length d ≤ max_udp_payload
    → receive now addr fresh d u
      ≡ (if length d == 0 || ltb u.cfg.max_length (length d) then u else deliver now addr fresh d u)
unfolding receive
receive_lem now addr fresh d u h = elim (Bool-cases (ltb (buf_size u) (length d))) [
  | inl cut ↦
      let long : length (take (buf_size u) d) ≡ buf_size u =
        ground (arith, length-take (buf_size u) d) in
      rw (long, receive) (ground arith)
  | inr whole ↦ rw (take-whole (buf_size u) d (ground arith), receive) (ground arith)
]

-- A datagram from an address with a session touches the session and goes to the end of its channel, or
-- is dropped if that is full; the registry and every other session's channel are as before.
pub deliver_known :
    (now : ℤ) (addr : String) (fresh : ℕ) (msg : List ℕ) (u : UdpServer) (sess : SessionRef)
    → lookup addr u.world.server.by_addr ≡ some sess
    → let u' = deliver now addr fresh msg u in
      (u'.world ≡ u.world)
      × (u'.last sess.id ≡ now)
      × ((j : ℕ)
          → u'.inbox j ≡ (
              if sess.id == j && ltb (length (u.inbox sess.id)) (capacity u)
              then u.inbox sess.id ++ msg ∷ []
              else u.inbox j))
unfolding deliver push
deliver_known now addr fresh msg u sess h = rw (h, deliver) (refl, ground arith, λ j. ground arith)

admission-unchanged : (s : Server) → (admission s).0 ≢ admitted → (admission s).1 ≡ s
admission-unchanged s h = ground arith

opens :
    (now : ℤ) (sess : SessionRef) (msg : List ℕ) (u : UdpServer) (r : Admission × Server)
    → (r.0 ≢ admitted → opened now sess msg u (registered sess r) ≡ with_server r.1 u)
      × (r.0 ≡ admitted
          → ((opened now sess msg u (registered sess r)).inbox sess.id ≡ msg ∷ [])
            × ((opened now sess msg u (registered sess r)).world.server ≡ add sess r.1))
unfolding push
opens now sess msg u (over, s) = (λ h. refl, λ h. cc)
opens now sess msg u (stopping, s) = (λ h. refl, λ h. cc)
opens now sess msg u (admitted, s) = (λ h. absurd (h refl), λ h. (ground arith, refl))

-- A datagram from an address without a session opens one if the server admits it, registered under that
-- address, with the datagram alone in its channel; if the server is full or stopping nothing changes.
pub deliver_new :
    (now : ℤ) (addr : String) (fresh : ℕ) (msg : List ℕ) (u : UdpServer)
    → lookup addr u.world.server.by_addr ≡ none
    → let u' = deliver now addr fresh msg u in
      ((admit u.world.server).0 ≢ admitted → u' ≡ u)
      × ((admit u.world.server).0 ≡ admitted
          → (u'.inbox fresh ≡ msg ∷ [])
            × (get_session u'.world.server addr ≡ some (record { id = fresh; addr = addr })))
unfolding deliver accept
deliver_new now addr fresh msg u h =
    let sess : SessionRef = record { id = fresh; addr = addr } in
    let (refuses, takes) = opens now sess msg u (admit u.world.server) in
    rw (h, deliver)
      (
        λ e.
            refuses e
            ∙ ap (λ s. with_server s u)
                (ap (λ r. r.1) (admit_lem u.world.server)
                  ∙ admission-unchanged u.world.server
                      (λ q. e (ap (λ r. r.0) (admit_lem u.world.server) ∙ q))),
        λ e. ((takes e).0, ap (λ s. get_session s addr) (takes e).1 ∙ get_session-add sess _),
      )
