-- ===== src/Listener/Udp/Steps.antt =====
-- udp.go: the server's read loop, the readers of its sessions, the ticks of reapIdle and whoever closes a
-- session or the server, as interleaved steps.
use Prim.Native.String.{String}
use gopher_socks.Common.{
  ℕ, ◌+◌, ◌≤◌, ◌≡◌, List, [], ◌∷◌, ◌++◌, Option, some, Bool, length, if◌then◌else◌,
}
use gopher_socks.Common.Int.{ℤ}
use gopher_socks.Common.Assoc.{str_eq}
use gopher_socks.Errors.{Error, ok}
use gopher_socks.Listener.Server.{SessionRef, close_session}
use gopher_socks.Listener.Udp.{
  UdpServer, max_udp_payload, set, receive, reap_idle, read_message, stop_listener,
}

-- `fresh` is the pointer that the next session will have, and `client` the address of the session at a
-- pointer. `arrived` has the datagrams that came from an address, and `read` what readMessage has given
-- the session at a pointer, both in order.
pub record State : Type 0 where
  pub udp : UdpServer
  pub fresh : ℕ
  pub client : ℕ → String
  pub arrived : String → List (List ℕ)
  pub read : ℕ → List (List ℕ)

abbrev pub start : UdpServer → State
start u = record { udp = u; fresh = 0; client = λ i. ""; arrived = λ k. []; read = λ i. [] }

abbrev pub log_datagram : String → List ℕ → (String → List (List ℕ)) → String → List (List ℕ)
log_datagram addr d arrived k = if str_eq addr k then arrived k ++ d ∷ [] else arrived k

-- The read loop has a datagram.
abbrev pub serve_datagram : ℤ → String → List ℕ → State → State
serve_datagram now addr d t = record t {
  udp = receive now addr t.fresh d t.udp;
  fresh = t.fresh + 1;
  client = set t.client t.fresh addr;
  arrived = log_datagram addr d t.arrived;
}

-- readMessage has given the session at `i` the message `m` and left `rest` in its channel.
abbrev pub give : ℕ → List ℕ → List (List ℕ) → State → State
give i m rest t = record t {
  udp = record (t.udp) { inbox = set t.udp.inbox i rest };
  read = set t.read i (t.read i ++ m ∷ []);
}

pub data Step (t : State) : State → Type 0 where
  datagram :
      (now : ℤ) (addr : String) (d : List ℕ)
      → length d ≤ max_udp_payload
      → Step t (serve_datagram now addr d t)
  reads :
      (i : ℕ) (done first : Bool) (m : List ℕ) (rest : List (List ℕ))
      → read_message done first (t.udp.inbox i) ≡ some (ok m, rest)
      → Step t (give i m rest t)
  ticks : (now : ℤ) → Step t (record t { udp = reap_idle now t.udp })
  closes :
      (e : Error) (sess : SessionRef)
      → Step t (record t { udp = record (t.udp) { world = close_session e t.udp.world sess } })
  stops : (answer : Option Error) → Step t (record t { udp = (stop_listener answer t.udp).1 })

pub data Reach (u : UdpServer) : State → Type 0 where
  begin : Reach u (start u)
  next : {t v : State} → Reach u t → Step t v → Reach u v
