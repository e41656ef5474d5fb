-- ===== src/Listener/Interface.antt =====
-- listener/interfaces.go: the interface Listener, what Listener.Restart relies on of it, and what follows from that for every
-- server. Listener.Interface.Servers has the four servers.
pub mod Servers
pub mod Hosts
pub mod Laws
use Prim.Native.String.{String}
use gopher_socks.Common.{
  ℕ, ◌≡◌, ◌≢◌, refl, sym, ap, subst, ◌∙◌, List, [], ◌∷◌, Option, none, some, Bool, true, false,
}
use gopher_socks.Common.Assoc.{lookup}
use gopher_socks.Errors.{Error, sentinel, server_stopped}
use gopher_socks.Listener.Server.{SessionRef, Server, World, enter, stop_to_wait}
use gopher_socks.Listener.Server.Stopping.{stop_to_wait-Stops}

-- `Listener`. `Env` is what the network answers to one call; `bound_to` names the listener or socket
-- that Listen has made. The result of `serve` is `none` while it runs; `start_listener` also tells whether
-- it has started a Serve.
pub record Listener (Env S : Type 0) : Type 0 where
  pub server_of : S → Server
  pub bound_to : S → Option ℕ
  pub listen : Env → S → Option Error × S
  pub serve : Env → S → Option (Option Error) × S
  pub start_listener : Env → S → Option Error × Bool × S
  pub stop_listener : Env → S → Option Error × S
  pub set_announce_new_session : Option ℕ → ℕ → S → S
  pub get_active_sessions : S → List (String × SessionRef)
  pub get_session : S → String → Option SessionRef

-- What is relied on of the methods.
pub record IsListener {Env S : Type 0} (l : Listener Env S) : Type 0 where
  pub listens_once :
      (env : Env) (s : S) (n : ℕ) → l.bound_to s ≡ some n → l.listen env s ≡ (none, s)
  pub binds : (env : Env) (s : S) → (l.listen env s).0 ≡ none → l.bound_to (l.listen env s).1 ≢ none
  pub stays_unbound :
      (env : Env) (s : S) (e : Error) → (l.listen env s).0 ≡ some e → (l.listen env s).1 ≡ s
  pub listen_sessions : (env : Env) (s : S) → l.server_of (l.listen env s).1 ≡ l.server_of s
  pub serve_unbound :
      (env : Env) (s : S) (e : Error)
      → (l.listen env s).0 ≡ some e
      → l.serve env s ≡ (some (some e), s)
  pub serve_bound :
      (env : Env) (s : S)
      → (l.listen env s).0 ≡ none
      → l.serve env s ≡ l.serve env (l.listen env s).1
  pub serve_stopped :
      (env : Env) (s : S) (n : ℕ)
      → l.bound_to s ≡ some n
      → enter (l.server_of s) ≡ (false, l.server_of s)
      → l.serve env s ≡ (some (some (sentinel server_stopped)), s)
  pub start_error :
      (env : Env) (s : S) (e : Error)
      → (l.listen env s).0 ≡ some e
      → l.start_listener env s ≡ (some e, false, s)
  pub start_served :
      (env : Env) (s : S)
      → (l.listen env s).0 ≡ none
      → l.start_listener env s ≡ (none, true, (l.listen env s).1)
  pub stops :
      (env : Env) (s : S)
      → (w : World) × ((w.server ≡ l.server_of s)
          × (l.server_of (l.stop_listener env s).1 ≡ (stop_to_wait w).server))
  pub stays_bound : (env : Env) (s : S) → l.bound_to (l.stop_listener env s).1 ≡ l.bound_to s
  pub found_active : (s : S) (k : String) → l.get_session s k ≡ lookup k (l.get_active_sessions s)

-- StartListener returns nil and starts Serve, which returns ErrServerStopped; nothing changes.
pub record Unserved {ℓ} {S : Type ℓ} (start : S → Option Error × Bool × S)
    (serve : S → Option (Option Error) × S) (s : S) : Type ℓ where
  pub starts : start s ≡ (none, true, s)
  pub stops : serve s ≡ (some (some (sentinel server_stopped)), s)

module _ {Env S : Type 0} (l : Listener Env S) (lawful : IsListener l) where
  -- A listener whose server enters no more: what StartListener does with it.
  pub bound-Unserved :
      (env : Env) (s : S) (n : ℕ)
      → l.bound_to s ≡ some n
      → enter (l.server_of s) ≡ (false, l.server_of s)
      → Unserved (l.start_listener env) (l.serve env) s
  bound-Unserved env s n h no_entry =
      let again = lawful.listens_once env s n h in
      record {
        starts =
            lawful.start_served env s (ap (λ r. r.0) again) ∙ ap (λ r. (none, true, r.1)) again;
        stops = lawful.serve_stopped env s n h no_entry;
      }

  -- After StopListener of a server that was bound.
  pub stopped-Unserved :
      (closing env : Env) (s : S) (n : ℕ)
      → l.bound_to s ≡ some n
      → Unserved (l.start_listener env) (l.serve env) (l.stop_listener closing s).1
  stopped-Unserved closing env s n h =
      let (w, (was, is)) = lawful.stops closing s in
      bound-Unserved env (l.stop_listener closing s).1 n (lawful.stays_bound closing s ∙ h)
        (subst (λ v. enter v ≡ (false, v)) (sym is) (stop_to_wait-Stops w).refuses)
