-- ===== src/Example/Tests.antt =====
-- example/ on concrete inputs.
use gopher_socks.Common.{ℕ, List, [], ◌∷◌, none, some}
use gopher_socks.Common.Int.{pos}
use gopher_socks.Client.Udp.{UdpClient}
use gopher_socks.Listener.Config.{default_config}
use gopher_socks.Listener.Server.{new_server}
use gopher_socks.Listener.Udp.{UdpServer}

abbrev dialled : UdpClient
dialled = record { conn = some 1; addr = "localhost:8002"; config = none; sent = [] }

abbrev listening : UdpServer
listening = record {
  world = record { server = new_server none (pos 1000); closed = λ i. none };
  cfg = default_config;
  addr = "0.0.0.0:8002";
  conn = some 1;
  inbox = λ i. [];
  last = λ i. pos 0;
}

abbrev hi : List ℕ
hi = 72 ∷ 105 ∷ []
