-- ===== src/Listener/Tcp.antt =====
-- listener/tcp.go: the TCP server.
pub mod Serving
use Prim.Native.String.{String}
use gopher_socks.Common.{
  ℕ, ◌-◌, ◌≡◌, List, [], ◌∷◌, Option, none, some, Bool, true, false, ◌||◌, if◌then◌else◌,
}
use gopher_socks.Errors.{
  Error, sentinel, net_closed, timeout, server_stopped, connection, configuration, network,
  errors_is, Result, ok, err,
}
use gopher_socks.Listener.Config.{ServerConfig, default_config, validate_config}
use gopher_socks.Listener.Config.Options.{ServerOption, apply_options}
use gopher_socks.Listener.HostPort.{host_port}
use gopher_socks.Listener.Server.{
  SessionRef, Server, World, stop_to_wait, new_server, enter, wg_done,
}
use gopher_socks.Listener.Accept.{accept}
use gopher_socks.Framing.Prefix.{uint32_codec}
use gopher_socks.Listener.Stream.{StreamTransport, new_reader}
use gopher_socks.Common.Int.{pos}

-- `TCPServer`. A number names the net.Listener.
pub record TcpServer : Type 0 where
  pub server : Server
  pub cfg : ServerConfig
  pub addr : String
  pub ln : Option ℕ

-- `NewTCP`; `parent` is the cause of the context's end.
unfoldable pub new_tcp : String → ℕ → Option Error → List ServerOption → Result TcpServer
new_tcp host port parent opts =
    let config = apply_options opts default_config in
    elim (validate_config config) [
      | some e ↦ err (network configuration "invalid configuration" e)
      | none ↦ ok (record {
        server = new_server parent config.max_connections;
        cfg = config;
        addr = host_port host port;
        ln = none;
      })
    ]

-- `Listen`, with the answer of net.Listen.
unfoldable pub listen : Result ℕ → TcpServer → Option Error × TcpServer
listen answer t = elim t.ln [
  | some ln ↦ (none, t)
  | none ↦ elim answer [
    | err e ↦ (some (network connection "failed to start listener" e), t)
    | ok ln ↦ (none, record t { ln = some ln })
  ]
]

-- The transport that `handleConn` makes of a connection, of which the peer will send `bytes` and then
-- fail with `fail`.
unfoldable pub tcp_transport : ServerConfig → List ℕ → Error → StreamTransport
unfolding new_reader
tcp_transport cfg bytes fail = record {
  reader = new_reader bytes fail;
  codec = uint32_codec;
  max = pos cfg.max_length;
  read_timeout = cfg.read_timeout;
  write_timeout = cfg.write_timeout;
  idle_timeout = true;
  deadlines = 0;
  wire = [];
  retained = 0;
}

-- An answer of Accept.
pub data Incoming : Type 0 where
  connected : SessionRef → Incoming
  failed : Error → Incoming

-- The loop of `Serve`: each answer of Accept comes with whether the context has ended by then. `none`
-- is a loop that waits for the next answer, and `some` has what Serve returns.
unfoldable pub serve_loop : List (Bool × Incoming) → Server → Option (Option Error) × Server
serve_loop [] s = (none, s)
serve_loop ((done, connected sess) ∷ rest) s = serve_loop rest (accept sess s).1
serve_loop ((done, failed e) ∷ rest) s =
    let again = serve_loop rest s in
    if done || errors_is e net_closed
    then (some none, s)
    else if errors_is e timeout
    then again
    else (some (some (network connection "accept failed" e)), s)

-- The deferred wg.Done of a Serve that returns.
abbrev pub finish : Option (Option Error) × Server → Option (Option Error) × Server
finish (none, s) = (none, s)
finish (some r, s) = (some r, wg_done s)

abbrev pub looping : List (Bool × Incoming) → Bool × Server → Option (Option Error) × Server
looping events (true, s) = finish (serve_loop events s)
looping events (false, s) = (some (some (sentinel server_stopped)), s)

-- `Serve` behind its Listen.
unfoldable pub serve : List (Bool × Incoming) → Server → Option (Option Error) × Server
serve events s = looping events (enter s)

-- `closeListener`, with the answer of Close.
unfoldable pub close_listener : Option Error → TcpServer → Option Error
close_listener answer t = elim t.ln [
  | none ↦ none
  | some ln ↦ elim answer [ none ↦ none | some e ↦ if errors_is e net_closed then none else some e ]
]

-- `StopListener` up to the wg.Wait of `stop`, with the answer of Close.
unfoldable pub stop_listener : Option Error → TcpServer → World → Option Error × World
stop_listener answer t world = (close_listener answer t, stop_to_wait world)
