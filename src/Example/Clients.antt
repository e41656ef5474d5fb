-- ===== src/Example/Clients.antt =====
-- example/udpclient and example/quicclient: one message, and one answer.
use Prim.Native.String.{String}
use gopher_socks.Common.{ℕ, ◌*◌, List, [], ◌∷◌, Option, none, some, Bool, true, false}
use gopher_socks.Common.Int.{pos}
use gopher_socks.Errors.{Error, Result, ok, err}
use gopher_socks.Listener.Config.{second}
use gopher_socks.Client.Config.{
  ClientOptFunc, with_client_buffer_size, with_client_timeouts, with_quic_insecure_skip_verify,
  with_quic_next_protos,
}
use gopher_socks.Client.Udp as Udp
use gopher_socks.Client.Quic as Quic
use gopher_socks.Facade.{udp_client, quic_client}

-- How a main ends: log.Fatal with this text, or the answer is printed, or it waits in Receive.
pub data End : Type 0 where
  fatal : String → End
  prints : List ℕ → End
  waits : End

-- The round of the loop: whether the timer has fired when the select looks, and the answer of Receive,
-- `none` while that waits. Receive returns a message or an error, so there is no second round.
abbrev pub answer_round : Bool → Option (Result (List ℕ)) → End
answer_round true response = fatal "Timeout waiting for response"
answer_round false none = waits
answer_round false (some (err e)) = fatal "Failed to receive data:"
answer_round false (some (ok response)) = prints response

-- `[]byte("Hello, UDP server!")`.
abbrev pub hello_udp : List ℕ
hello_udp =
    72 ∷ 101 ∷ 108 ∷ 108 ∷ 111 ∷ 44 ∷ 32 ∷ 85 ∷ 68 ∷ 80 ∷ 32 ∷ 115 ∷ 101 ∷ 114 ∷ 118 ∷ 101 ∷ 114
    ∷ 33 ∷ []

abbrev pub udp_options : List ClientOptFunc
udp_options =
    with_client_buffer_size (pos 2048)
    ∷ with_client_timeouts (pos (second * 30)) (pos (second * 30))
    ∷ []

-- The answer of the socket's Read, or none while it waits.
abbrev pub udp_received : Option (Result (List ℕ)) → Udp.UdpClient → Option (Result (List ℕ))
udp_received none c = none
udp_received (some read) c = some (Udp.receive read c)

abbrev pub udp_sent : Bool → Option (Result (List ℕ)) → Option Error × Udp.UdpClient → End
udp_sent fired read (some e, c) = fatal "Failed to send data:"
udp_sent fired read (none, c) = answer_round fired (udp_received read c)

abbrev pub udp_connected :
    Option Error → Bool → Option (Result (List ℕ)) → Option Error × Udp.UdpClient → End
udp_connected write fired read (some e, c) = fatal "Failed to connect:"
udp_connected write fired read (none, c) = udp_sent fired read (Udp.send write hello_udp c)

-- udpclient's main, with the answers of the network.
unfoldable pub udp_client_main :
    Option Error → Result ℕ → Option Error → Bool → Option (Result (List ℕ)) → End
udp_client_main resolve dial write fired read = elim (udp_client "localhost:8002" udp_options) [
  | err e ↦ fatal "Failed to create UDP client:"
  | ok c ↦ udp_connected write fired read (Udp.connect resolve dial c)
]

-- `[]byte("Hello, QUIC server!")`.
abbrev pub hello_quic : List ℕ
hello_quic =
    72 ∷ 101 ∷ 108 ∷ 108 ∷ 111 ∷ 44 ∷ 32 ∷ 81 ∷ 85 ∷ 73 ∷ 67 ∷ 32 ∷ 115 ∷ 101 ∷ 114 ∷ 118 ∷ 101
    ∷ 114 ∷ 33 ∷ []

abbrev pub quic_options : List ClientOptFunc
quic_options =
    with_client_buffer_size (pos 2048)
    ∷ with_client_timeouts (pos (second * 30)) (pos (second * 30))
    ∷ with_quic_insecure_skip_verify true
    ∷ with_quic_next_protos ("gophersocks" ∷ [])
    ∷ []

abbrev pub quic_received : Option (Result (List ℕ) × Quic.QuicClient) → Option (Result (List ℕ))
quic_received none = none
quic_received (some (r, c)) = some r

abbrev pub quic_sent : Bool → Option Error × Quic.QuicClient → End
quic_sent fired (some e, c) = fatal "Failed to send data:"
quic_sent fired (none, c) = answer_round fired (quic_received (Quic.receive c))

abbrev pub quic_connected : Option (ℕ × Error) → Bool → Option Error × Quic.QuicClient → End
quic_connected write fired (some e, c) = fatal "Failed to connect:"
quic_connected write fired (none, c) = quic_sent fired (Quic.send write hello_quic c)

-- quicclient's main, with the answers of the network.
unfoldable pub quic_client_main : Quic.ConnectEnv → Option (ℕ × Error) → Bool → End
quic_client_main env write fired = elim (quic_client "localhost:8443" quic_options) [
  | err e ↦ fatal "Failed to create QUIC client:"
  | ok c ↦ quic_connected write fired (Quic.connect env c)
]
