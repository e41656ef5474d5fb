-- ===== src/Client/Udp.antt =====
-- client/udp.go: the UDP client. The socket's answers are arguments.
use Prim.Native.String.{String}
use gopher_socks.Common.{ℕ, List, [], ◌∷◌, ◌++◌, Option, none, some, take, if◌then◌else◌}
use gopher_socks.Common.Assoc.{str_eq}
use gopher_socks.Errors.{Error, errorf, message, Result, ok, err}
use gopher_socks.Client.Config.{ClientConfig}

-- `UDPClient`. A number names the socket; `sent` is what Write has taken.
pub record UdpClient : Type 0 where
  pub conn : Option ℕ
  pub addr : String
  pub config : Option ClientConfig
  pub sent : List (List ℕ)

-- `NewUDPClient`.
unfoldable pub new_udp_client : String → Option ClientConfig → Result UdpClient
new_udp_client addr config =
    if str_eq addr ""
    then err (message "address is required")
    else ok (record { conn = none; addr = addr; config = config; sent = [] })

-- `Connect`, with the answers of ResolveUDPAddr and DialUDP.
unfoldable pub connect : Option Error → Result ℕ → UdpClient → Option Error × UdpClient
connect resolve dial c = elim resolve [
  | some e ↦ (some (errorf "failed to resolve UDP address: %w" [] e), c)
  | none ↦ elim dial [
    | err e ↦ (some (errorf "failed to dial UDP: %w" [] e), c)
    | ok conn ↦ (none, record c { conn = some conn })
  ]
]

-- `Send`, with the answer of Write.
unfoldable pub send : Option Error → List ℕ → UdpClient → Option Error × UdpClient
send write msg c = elim c.conn [
  | none ↦ (some (message "not connected"), c)
  | some conn ↦ elim write [
    | some e ↦ (some (errorf "failed to write to UDP connection: %w" [] e), c)
    | none ↦ (none, record c { sent = c.sent ++ msg ∷ [] })
  ]
]

-- `Receive`, with the answer of Read, which cuts a datagram to the buffer.
unfoldable pub receive : Result (List ℕ) → UdpClient → Result (List ℕ)
receive read c = elim c.conn [
  | none ↦ err (message "not connected")
  | some conn ↦ elim read [
    | err e ↦ err (errorf "failed to read from UDP connection: %w" [] e)
    | ok datagram ↦ ok (take 65536 datagram)
  ]
]

-- `Close`, with the answer of the socket's Close.
unfoldable pub close : Option Error → UdpClient → Option Error
close answer c = elim c.conn [
  | none ↦ none
  | some conn ↦ elim answer [
    | none ↦ none
    | some e ↦ some (errorf "failed to close UDP connection: %w" [] e)
  ]
]

-- `LocalAddr` and `RemoteAddr`, with the socket's addresses; `none` is nil.
unfoldable pub local_addr : (ℕ → String) → UdpClient → Option String
local_addr address c = elim c.conn [ none ↦ none | some conn ↦ some (address conn) ]

unfoldable pub remote_addr : (ℕ → String) → UdpClient → Option String
remote_addr address c = elim c.conn [ none ↦ none | some conn ↦ some (address conn) ]
