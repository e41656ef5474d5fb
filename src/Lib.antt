-- ===== src/Lib.antt =====
-- GopherSocks: message framing, servers for TCP, UDP, WebSocket and QUIC with one session per client, and
-- clients.
--
-- The program's parts, and the modules that model them:
--   framing/framing.go      Framing. The codecs: Framing.Legacy (NewLegacy), and in Framing.Prefix the two
--                           with a length prefix (Uvarint, Uint32). Framing.Reader models bufio.Reader:
--                           the bytes that are still to come, the size of the buffer, and the error at the
--                           end of the stream; ReadSlice is `scan`. Framing.Laws is what the users of the
--                           interface Codec rely on, as a record that the three codecs fill.
--   listener/errors.go      Errors (error values and errors.Is), Errors.Text and Listener.Config (ValidateConfig).
--   listener/base.go        Listener.Config (configuration and defaults), Listener.Config.Options,
--                           Listener.HostPort, and Listener.Logging (Logger and its two implementations).
--   listener/interfaces.go  Listener.Interface: the interface Listener, with what is relied on of it as
--                           a record of laws; its Servers has the four servers, its Hosts
--                           what they have in common, and Listener.Restart is over the record.
--   listener/types.go       Listener.Session.Interface: the interface Session and what it documents, as a
--                           record of laws, with what Data's goroutine does by itself.
--   listener/stream.go      Listener.Stream: framed messages on a byte stream, over any codec.
--   listener/server.go      Listener.Server: the registry, the slot counter and the stop sequence, operation
--                           by operation (stop_to_wait is stop up to its wg.Wait; the servers'
--                           StopListener is modelled up to there);
--                           Listener.Server.Spec: what it promises, as a table of sessions
--                           and counters, and sequences of calls; Listener.Server.Order: loops over a map.
--                           Listener.Accept: the admission that every connection handler begins with.
--                           Listener.Interleaving: the goroutines of the handlers beside one another;
--                           its Lookup, Registered: the registry, its Draining, Ending: those that
--                           stop waits for; its Stopper: a call of StopListener beside them.
--                           Listener.Lifecycle: serveContext, legacyHandler, and each server's
--                           StartListener and Serve; Listener.Restart: those after StopListener.
--   listener/session.go     Listener.Session: one connection's operations; Listener.Session.Steps: its
--                           goroutines beside one another; Listener.Session.Feed: the
--                           goroutine behind Data and its channel, beside the consumer and the others
--                           (Listener.Session.Pump: that goroutine alone); Listener.Session.Wire: the
--                           session with the stream transport that its writer writes to;
--                           Listener.Session.Reading: the peer;
--                           Listener.Session.Messages: the same over frames or datagrams.
--   listener/tcp.go         Listener.Tcp
--   listener/udp.go         Listener.Udp; Listener.Udp.Steps: the read loop, the readers of the sessions, the
--                           ticks of reapIdle and closings beside one another; Listener.Udp.Ticks and
--                           Listener.Udp.Expiry: the ticker of reapIdle.
--   listener/websocket.go   Listener.WebSocket
--   listener/quic.go        Listener.Quic, and its Serve in Listener.Quic.Serving
--   client/options.go and clientopts.go   Client.Config
--   client/quic.go, client/udp.go         Client.Quic, Client.Udp; Client.Sending and Client.Receiving: calls of
--                           Send and of Receive in a row, with a session of the server.
--   listener.go, listeneropts.go, client.go   Facade, Facade.Options
--   example/                Example: the listener programs (Example.Echo, Example.Servers), the clients
--                           (Example.Clients), and a client with a listener program (Example.Exchange).
--                           Example.Session: a session with its handler and all its goroutines beside
--                           one another, over a transport that is left open; then over a byte stream
--                           (Example.Stream, with the QUIC client, and its Completing), over a
--                           WebSocket (Example.Frames), and over the UDP server with all its sessions at once (Example.Datagrams).
-- A server embeds the state of server.go; its handlers admit a connection, make a session over a transport
-- (a stream with a codec, a WebSocket, or a UDP address), register it, run the user's handler and close
-- the session, which calls back into the registry.
--
-- A function of the source is the definition with its name in the spelling of this library. A method takes
-- its receiver as an argument and returns the new one beside its results. What the packages net, net/http,
-- crypto/tls, gorilla/websocket and quic-go answer is an argument, one for each call (records named ...Env
-- where a function makes several).
--
-- Numbers are natural numbers, with `% 2 ^ w` where the source's width matters; an int, int64 or
-- time.Duration is a ℤ, and int has 64 bits. A byte is a natural number, below 256 where a theorem says so.
-- The bytes on a stream are one list, so a reader may meet them in any division into packets; the size of
-- the reader's buffer is a variable. Time is an argument. A pointer to a session is the number in its
-- SessionRef.
--
-- Loops over lists, among them the loops that take one answer of the network after another, are structural.
-- The loop of Legacy.Read and the loop of its readOne run on fuel: the number of bytes still to come, which
-- each round lowers.
--
-- Goroutines are step relations: a step is one critical section, atomic operation, channel operation or
-- select case, and Reach is what any sequence of steps leads to.
--
-- In Example.Session a step may happen whenever its own condition holds, so the theorems are about at least
-- the runs that the program has. In Example.Datagrams closing a session is a step of the server, which
-- unregisters it, and a step of the session itself, and the two need not come together.
--
-- Not modelled: which lines the servers log and the examples print for each message, the making of
-- certificates (selfSignedCert; its answer is an argument), log/slog (the methods of its Logger are an
-- argument), the users' handlers but those of the examples, and the pauses that only pass time. Tests and
-- benchmarks are left out. The registry of server.go and the goroutines of its sessions are two models, of
-- Listener.Interleaving and of Listener.Session.Steps, that meet in the closing of a session.
pub mod Common
pub mod Errors
pub mod Framing
pub mod Listener
pub mod Client
pub mod Facade
pub mod Example
