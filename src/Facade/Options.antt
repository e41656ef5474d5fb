-- ===== src/Facade/Options.antt =====
-- listeneropts.go: the options of the root package, which are those of the package listener.
use Prim.Native.String.{String}
use gopher_socks.Common.{ℕ, Option, Bool}
use gopher_socks.Common.Int.{ℤ}
use gopher_socks.Framing.Codec.{Codec}
use gopher_socks.Listener.Config.{Request, Logger, TlsConfig, QuicTransportConfig}
use gopher_socks.Listener.Config.Options as listener
use gopher_socks.Facade.{ServerOptFunc}

unfoldable pub with_max_length : ℕ → ServerOptFunc
with_max_length length = listener.with_max_length length

unfoldable pub with_buffer_size : ℤ → ServerOptFunc
with_buffer_size size = listener.with_buffer_size size

unfoldable pub with_send_queue_size : ℤ → ServerOptFunc
with_send_queue_size size = listener.with_send_queue_size size

unfoldable pub with_timeouts : ℤ → ℤ → ServerOptFunc
with_timeouts read write = listener.with_timeouts read write

unfoldable pub with_max_connections : ℤ → ServerOptFunc
with_max_connections max = listener.with_max_connections max

unfoldable pub with_logger : Logger → ServerOptFunc
with_logger logger = listener.with_logger logger

unfoldable pub with_web_socket_buffer_sizes : ℤ → ℤ → ServerOptFunc
with_web_socket_buffer_sizes read_size write_size =
    listener.with_web_socket_buffer_sizes read_size write_size

unfoldable pub with_web_socket_path : String → ServerOptFunc
with_web_socket_path path = listener.with_web_socket_path path

unfoldable pub with_web_socket_check_origin : Option (Request → Bool) → ServerOptFunc
with_web_socket_check_origin fn = listener.with_web_socket_check_origin fn

unfoldable pub with_tls_config : Option TlsConfig → ServerOptFunc
with_tls_config c = listener.with_tls_config c

unfoldable pub with_quic_config : Option QuicTransportConfig → ServerOptFunc
with_quic_config c = listener.with_quic_config c

unfoldable pub with_quic_codec : String → Codec → ServerOptFunc
with_quic_codec alpn codec = listener.with_quic_codec alpn codec
