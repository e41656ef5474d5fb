-- ===== src/Listener/Session/Interface/Tests.antt =====
-- session.go: the laws of the interface Session on a session whose channel holds one message and is full.
use gopher_socks.Common.{◌≡◌, refl, [], ◌∷◌, none, some}
use gopher_socks.Common.Int.{pos}
use gopher_socks.Errors.{sentinel, slow_consumer}
use gopher_socks.Listener.Session.{
  Session, new_session, expired, send, send_to_client, wait_to_send, close_with,
}
use gopher_socks.Listener.Config.{default_config}

abbrev full : Session
full =
    record (new_session none (record { id = 1; addr = "192.0.2.1:8000" }) default_config (pos 0)) {
      out = (7 ∷ []) ∷ [];
      queue = 1;
    }

slow :
    ((send (8 ∷ []) expired full).0 ≡ some (sentinel slow_consumer))
    × ((send (8 ∷ []) expired full).1.cause ≡ some (sentinel slow_consumer))
unfolding send send_to_client wait_to_send close_with new_session
slow = (refl, refl)
