-- ===== src/Listener/Interface/Hosts.antt =====
-- listener/interfaces.go: a server whose Serve and StartListener call Listen first, as the four servers do.
use gopher_socks.Common.{
  ℕ, ◌≡◌, ◌≢◌, refl, sym, ap, ◌∙◌, Option, none, some, true, false, Option-cases, inl, inr,
}
use gopher_socks.Errors.{Error, sentinel, server_stopped}
use gopher_socks.Listener.Server as Srv
use gopher_socks.Listener.Server.{SessionRef, Server, World, enter, stop_to_wait}
use gopher_socks.Listener.Lifecycle.{started, bound}
use gopher_socks.Listener.Interface.{Listener, IsListener}

-- What Listen does to a server, and what the rest of Serve does once nothing may enter.
pub record IsHost {Env S : Type 0} (server_of : S → Server) (bound_to : S → Option ℕ)
    (listen : Env → S → Option Error × S) (rest : Env → S → Option (Option Error) × S)
    : Type 0 where
  pub once : (env : Env) (s : S) (n : ℕ) → bound_to s ≡ some n → listen env s ≡ (none, s)
  pub binds : (env : Env) (s : S) → (listen env s).0 ≡ none → bound_to (listen env s).1 ≢ none
  pub unbound : (env : Env) (s : S) (e : Error) → (listen env s).0 ≡ some e → (listen env s).1 ≡ s
  pub same_server : (env : Env) (s : S) → server_of (listen env s).1 ≡ server_of s
  pub refuses :
      (env : Env) (s : S)
      → enter (server_of s) ≡ (false, server_of s)
      → rest env s ≡ (some (some (sentinel server_stopped)), s)

module _ {Env S : Type 0} (server_of : S → Server) (bound_to : S → Option ℕ)
    (listen : Env → S → Option Error × S) (rest : Env → S → Option (Option Error) × S)
    (host : IsHost server_of bound_to listen rest) where
  failed : (env : Env) (s : S) (e : Error) → (listen env s).0 ≡ some e → listen env s ≡ (some e, s)
  failed env s e h = λ i. (h i, host.unbound env s e h i)

  succeeded :
      (env : Env) (s : S) → (listen env s).0 ≡ none → listen env s ≡ (none, (listen env s).1)
  succeeded env s h = λ i. (h i, (listen env s).1)

  again :
      (env : Env) (s : S)
      → (listen env s).0 ≡ none
      → listen env (listen env s).1 ≡ (none, (listen env s).1)
  again env s h = elim (Option-cases (bound_to (listen env s).1)) [
    | inl gone ↦ absurd (host.binds env s h gone)
    | inr (n, q) ↦ host.once env (listen env s).1 n q
  ]

  abbrev serve : Env → S → Option (Option Error) × S
  serve env s = bound (rest env) (listen env s)

  serves_unbound :
      (env : Env) (s : S) (e : Error) → (listen env s).0 ≡ some e → serve env s ≡ (some (some e), s)
  serves_unbound env s e h = ap (bound (rest env)) (failed env s e h)

  serves_bound :
      (env : Env) (s : S) → (listen env s).0 ≡ none → serve env s ≡ serve env (listen env s).1
  serves_bound env s h =
      ap (bound (rest env)) (succeeded env s h) ∙ sym (ap (bound (rest env)) (again env s h))

  serves_stopped :
      (env : Env) (s : S) (n : ℕ)
      → bound_to s ≡ some n
      → enter (server_of s) ≡ (false, server_of s)
      → serve env s ≡ (some (some (sentinel server_stopped)), s)
  serves_stopped env s n q no_entry =
      ap (bound (rest env)) (host.once env s n q) ∙ host.refuses env s no_entry

  starts_error :
      (env : Env) (s : S) (e : Error)
      → (listen env s).0 ≡ some e
      → started (listen env s) ≡ (some e, false, s)
  starts_error env s e h = ap started (failed env s e h)

  starts_served :
      (env : Env) (s : S)
      → (listen env s).0 ≡ none
      → started (listen env s) ≡ (none, true, (listen env s).1)
  starts_served env s h = ap started (succeeded env s h)

  -- With a StopListener that runs `stop` up to its wait and leaves the listener set, they have the laws.
  module _ (stop_listener : Env → S → Option Error × S) (announce : Option ℕ → ℕ → S → S) where
    abbrev listener : Listener Env S
    listener = record {
      server_of = server_of;
      bound_to = bound_to;
      listen = listen;
      serve = serve;
      start_listener = λ env s. started (listen env s);
      stop_listener = stop_listener;
      set_announce_new_session = announce;
      get_active_sessions = λ s. Srv.get_active_sessions (server_of s);
      get_session = λ s. Srv.get_session (server_of s);
    }

    pub listener-IsListener :
        ((env : Env) (s : S)
          → (w : World) × ((w.server ≡ server_of s)
              × (server_of (stop_listener env s).1 ≡ (stop_to_wait w).server)))
        → ((env : Env) (s : S) → bound_to (stop_listener env s).1 ≡ bound_to s)
        → IsListener listener
    unfolding Srv.get_session Srv.get_active_sessions
    listener-IsListener stops stays = record {
      listens_once = host.once;
      binds = host.binds;
      stays_unbound = host.unbound;
      listen_sessions = host.same_server;
      serve_unbound = serves_unbound;
      serve_bound = serves_bound;
      serve_stopped = serves_stopped;
      start_error = starts_error;
      start_served = starts_served;
      stops = stops;
      stays_bound = stays;
      found_active = λ s k. refl;
    }
