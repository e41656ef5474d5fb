-- ===== src/Example/Exchange.antt =====
-- example/udpclient with example/udplistener: the client's message comes back.
use Prim.Native.String.{String}
use gopher_socks.Common.{
  ℕ, List, [], ◌∷◌, ◌++◌, Option, none, some, Bool, false, length, drop, ltb, ◌==◌, ◌||◌,
}
use gopher_socks.Common.Int.{ℤ}
use gopher_socks.Errors.{Error, Result, ok}
use gopher_socks.Client.Udp.{UdpClient}
use gopher_socks.Client.Udp as client
use gopher_socks.Listener.Session.{Session, new_session, space, send, fill_batch}
use gopher_socks.Listener.Udp.{UdpServer, receive, read_message, write_messages}
use gopher_socks.Example.Echo.{Item, echo_datagrams}

abbrev item : ℤ → List ℕ → Item
item now m = record { msg = m; meanwhile = λ s. s; ready = space; now = now }

-- The socket hands the client's Receive the first datagram that the writer has sent.
abbrev replied : UdpClient → List (List ℕ) × Option Error → Option (Result (List ℕ))
replied c ([], e) = none
replied c (d ∷ ds, e) = some (client.receive (ok d) c)

-- The writer takes a batch from the channel and writes it.
abbrev written : UdpClient → List (List ℕ) → Option (Result (List ℕ))
written c [] = none
written c (m ∷ out) = replied c (write_messages [] (fill_batch (m ∷ []) out).0)

-- The handler has the message, and echoes it.
abbrev handled :
    ℤ → UdpClient → Session → Option (Result (List ℕ) × List (List ℕ)) → Option (Result (List ℕ))
handled now c s (some (ok m, rest)) = written c (echo_datagrams (item now m ∷ []) s).session.out
handled now c s _ = none

-- The session that the server makes for a new address.
abbrev session_of : ℤ → String → ℕ → UdpServer → Session
session_of now addr fresh u =
    new_session u.world.server.cause (record { id = fresh; addr = addr }) u.cfg now

-- The network carries the first of these datagrams to the server, in whose channel the handler finds it.
abbrev carried : ℤ → String → ℕ → UdpClient → UdpServer → List (List ℕ) → Option (Result (List ℕ))
carried now addr fresh c u [] = none
carried now addr fresh c u (d ∷ ds) =
    handled now c (session_of now addr fresh u)
      (read_message false false ((receive now addr fresh d u).inbox fresh))

-- The client's Send and Receive with the server between them: the server gets from `addr` what Send has
-- written to the socket, and opens a session, whose pointer is `fresh`. `none` is that Receive still waits.
unfoldable pub exchange : ℤ → String → ℕ → List ℕ → UdpClient → UdpServer → Option (Result (List ℕ))
exchange now addr fresh m c u =
    let sender = (client.send none m c).1 in
    carried now addr fresh sender u (drop (length c.sent) sender.sent)

-- The datagrams that the server does not take: empty ones, and those longer than MaxLength.
abbrev pub is_dropped : UdpServer → List ℕ → Bool
is_dropped u m = length m == 0 || ltb u.cfg.max_length (length m)

-- The client after a Send that the socket took.
abbrev sender : List ℕ → UdpClient → UdpClient
sender m c = record c { sent = c.sent ++ m ∷ [] }
