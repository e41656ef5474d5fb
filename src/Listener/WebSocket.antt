-- ===== src/Listener/WebSocket.antt =====
-- listener/websocket.go: the WebSocket server.
pub mod Binary
use Prim.Native.String.{String}
use gopher_socks.Common.{
  ℕ, ◌+◌, List, [], ◌∷◌, ◌++◌, Option, none, some, Bool, true, false, if◌then◌else◌,
}
use gopher_socks.Common.Int.{ℤ, pos, ltb_ℤ}
use gopher_socks.Errors.{
  Error, http_closed, server_stopped, sentinel, connection, configuration, network, network_alone,
  errors_is, Result, ok, err,
}
use gopher_socks.Listener.Config.{
  Request, WebSocketConfig, ProtocolConfig, web_socket, quic, other, ServerConfig, default_config,
  validate_config,
}
use gopher_socks.Listener.Config.Options.{ServerOption, apply_options}
use gopher_socks.Listener.HostPort.{host_port}
use gopher_socks.Listener.Server.{
  SessionRef, Server, World, new_server, stop_to_wait, release, add, wg_done,
}
use gopher_socks.Listener.Accept.{Admission, over, stopping, admitted, admit}

-- `websocket.Upgrader`, as far as it is set.
pub record Upgrader : Type 0 where
  pub read_buffer_size : ℤ
  pub write_buffer_size : ℤ
  pub check_origin : Request → Bool

-- `WebSocketServer`. Numbers name the net.Listener and the http.Server.
pub record WebSocketServer : Type 0 where
  pub server : Server
  pub cfg : ServerConfig
  pub addr : String
  pub ws_cfg : WebSocketConfig
  pub upgrader : Upgrader
  pub ln : Option ℕ
  pub http : Option ℕ

-- `allowAnyOrigin`.
abbrev pub allow_any_origin : Request → Bool
allow_any_origin r = true

abbrev pub origin_check : Option (Request → Bool) → Request → Bool
origin_check none = allow_any_origin
origin_check (some f) = f

unfoldable pub build :
    String → ℕ → Option Error → ServerConfig → ProtocolConfig → Result WebSocketServer
build host port parent config (web_socket w) = ok (record {
  server = new_server parent config.max_connections;
  cfg = config;
  addr = host_port host port;
  ws_cfg = w;
  upgrader = record {
    read_buffer_size = w.read_buffer_size;
    write_buffer_size = w.write_buffer_size;
    check_origin = origin_check w.check_origin;
  };
  ln = none;
  http = none;
})
build host port parent config (quic q) =
    err (network_alone configuration "invalid WebSocket configuration")
build host port parent config (other n) =
    err (network_alone configuration "invalid WebSocket configuration")

-- `NewWebSocket`.
unfoldable pub new_web_socket :
    String → ℕ → Option Error → List ServerOption → Result WebSocketServer
unfolding build
new_web_socket host port parent opts =
    let config = apply_options opts default_config in
    elim (validate_config config) [
      | some e ↦ err (network configuration "invalid configuration" e)
      | none ↦ build host port parent config config.protocol_config
    ]

-- `Listen`, with the answer of net.Listen.
unfoldable pub listen : Result ℕ → WebSocketServer → Option Error × WebSocketServer
listen answer w = elim w.ln [
  | some ln ↦ (none, w)
  | none ↦ elim answer [
    | err e ↦ (some (network connection "failed to start listener" e), w)
    | ok ln ↦ (none, record w { ln = some ln })
  ]
]

-- What Serve returns for the answer of the http.Server's Serve.
unfoldable pub serve_result : Option Error → Option Error
serve_result none = none
serve_result (some e) =
    if errors_is e http_closed then none else some (network connection "serve failed" e)

-- What StopListener's function closes: the http.Server, or else the net.Listener.
unfoldable pub close_listener : Option Error → Option Error → WebSocketServer → Option Error
close_listener http_answer ln_answer w = elim w.http [
  | some h ↦ http_answer
  | none ↦ elim w.ln [ some ln ↦ ln_answer | none ↦ none ]
]

-- `StopListener` up to the wg.Wait of `stop`, with the answers of the http.Server's Close and the
-- net.Listener's.
unfoldable pub stop_listener :
    Option Error → Option Error → WebSocketServer → World → Option Error × World
stop_listener http_answer ln_answer w world =
    (close_listener http_answer ln_answer w, stop_to_wait world)

-- How `upgrade` goes on: a response with this text, nothing, or a session.
pub data Upgraded : Type 0 where
  unavailable : String → Upgraded
  not_upgraded : Upgraded
  serving : Upgraded

abbrev pub upgraded : Option Error → SessionRef → Admission × Server → Upgraded × Server
upgraded answer sess (over, s) = (unavailable "Too many connections", s)
upgraded answer sess (stopping, s) = (unavailable "Server stopping", s)
upgraded (some e) sess (admitted, s) = (not_upgraded, wg_done (release s))
upgraded none sess (admitted, s) = (serving, add sess s)

-- `upgrade` up to serveSession, with the answer of Upgrade.
unfoldable pub upgrade : Option Error → SessionRef → Server → Upgraded × Server
upgrade answer sess s = upgraded answer sess (admit s)

-- An answer of ReadMessage.
pub data Frame : Type 0 where
  binary : List ℕ → Frame
  text : List ℕ → Frame
  failed : Error → Frame

-- A round of wsTransport.readMessage: the answer of SetReadDeadline, and then that of ReadMessage.
pub record Round : Type 0 where
  pub set_deadline : Option Error
  pub frame : Frame

abbrev pub on_frame : Option (Result (List ℕ)) → Frame → Option (Result (List ℕ))
on_frame again (binary m) = some (ok m)
on_frame again (text m) = again
on_frame again (failed e) = some (err e)

-- `readMessage`; `none` is a call that still waits.
unfoldable pub read_message : ℤ → List Round → Option (Result (List ℕ))
read_message read_timeout [] = none
read_message read_timeout (r ∷ rounds) =
    let again = read_message read_timeout rounds in
    if ltb_ℤ (pos 0) read_timeout
    then elim r.set_deadline [ some e ↦ some (err e) | none ↦ on_frame again r.frame ]
    else on_frame again r.frame

-- The loop of `writeMessages`, with the answers of WriteMessage, which succeeds where none is given: the
-- messages that went out, and the error.
unfoldable pub write_loop : List (Option Error) → List (List ℕ) → List (List ℕ) × Option Error
write_loop answers [] = ([], none)
write_loop [] (m ∷ msgs) = let (sent, e) = write_loop [] msgs in (m ∷ sent, e)
write_loop (none ∷ answers) (m ∷ msgs) = let (sent, e) = write_loop answers msgs in (m ∷ sent, e)
write_loop (some e ∷ answers) (m ∷ msgs) = ([], some e)

-- `writeMessages`.
unfoldable pub write_messages :
    ℤ → Option Error → List (Option Error) → List (List ℕ) → List (List ℕ) × Option Error
unfolding write_loop
write_messages write_timeout set_deadline answers msgs =
    if ltb_ℤ (pos 0) write_timeout
    then elim set_deadline [ some e ↦ ([], some e) | none ↦ write_loop answers msgs ]
    else write_loop answers msgs

-- What `close` calls: WriteControl with a close frame, and Close; `true` is a closeOnce that has run.
pub data CloseStep : Type 0 where
  write_close_frame close_conn : CloseStep

unfoldable pub close : Bool → List CloseStep × Bool
close true = ([], true)
close false = (write_close_frame ∷ close_conn ∷ [], true)
