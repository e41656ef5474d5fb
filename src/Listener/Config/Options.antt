-- ===== src/Listener/Config/Options.antt =====
-- listener/base.go: the options. Each changes the configuration that it is given.
use Prim.Native.String.{String}
use gopher_socks.Common.{ℕ, List, [], ◌∷◌, Option, Bool, if◌then◌else◌}
use gopher_socks.Common.Assoc.{insert, str_eq}
use gopher_socks.Common.Int.{ℤ}
use gopher_socks.Framing.Codec.{Codec}
use gopher_socks.Listener.Config.{
  Request, Logger, WebSocketConfig, TlsConfig, QuicTransportConfig, QuicConfig, ProtocolConfig,
  web_socket, quic, ServerConfig,
}

-- `ServerOption`.
abbrev pub ServerOption : Type 0
ServerOption = ServerConfig → ServerConfig

-- The constructors' loop over `opts`.
unfoldable pub apply_options : List ServerOption → ServerConfig → ServerConfig
apply_options [] c = c
apply_options (opt ∷ opts) c = apply_options opts (opt c)

unfoldable pub with_max_length : ℕ → ServerOption
with_max_length length c = record c { max_length = length }

unfoldable pub with_buffer_size : ℤ → ServerOption
with_buffer_size size c = record c { buffer_size = size }

unfoldable pub with_send_queue_size : ℤ → ServerOption
with_send_queue_size size c = record c { send_queue_size = size }

unfoldable pub with_logger : Logger → ServerOption
with_logger logger c = record c { logger = logger }

unfoldable pub with_timeouts : ℤ → ℤ → ServerOption
with_timeouts read write c = record c { read_timeout = read; write_timeout = write }

unfoldable pub with_max_connections : ℤ → ServerOption
with_max_connections max c = record c { max_connections = max }

-- The assertion `config.ProtocolConfig.(*WebSocketConfig)` and the change behind it.
abbrev pub on_web_socket : (WebSocketConfig → WebSocketConfig) → ProtocolConfig → ProtocolConfig
on_web_socket f (web_socket w) = web_socket (f w)
on_web_socket f p = p

abbrev pub on_quic : (QuicConfig → QuicConfig) → ProtocolConfig → ProtocolConfig
on_quic f (quic q) = quic (f q)
on_quic f p = p

unfoldable pub with_web_socket_buffer_sizes : ℤ → ℤ → ServerOption
with_web_socket_buffer_sizes read_size write_size c = record c {
  protocol_config =
      on_web_socket (λ w. record w { read_buffer_size = read_size; write_buffer_size = write_size })
        c.protocol_config;
}

unfoldable pub with_web_socket_path : String → ServerOption
with_web_socket_path path c = record c {
  protocol_config = on_web_socket (λ w. record w { path = path }) c.protocol_config;
}

unfoldable pub with_web_socket_check_origin : Option (Request → Bool) → ServerOption
with_web_socket_check_origin fn c = record c {
  protocol_config = on_web_socket (λ w. record w { check_origin = fn }) c.protocol_config;
}

unfoldable pub with_tls_config : Option TlsConfig → ServerOption
with_tls_config tls c = record c {
  protocol_config = on_quic (λ q. record q { tls_config = tls }) c.protocol_config;
}

unfoldable pub with_quic_config : Option QuicTransportConfig → ServerOption
with_quic_config qc c = record c {
  protocol_config = on_quic (λ q. record q { quic_config = qc }) c.protocol_config;
}

unfoldable pub with_quic_delimiter : List ℕ → ServerOption
with_quic_delimiter delimiter c = record c {
  protocol_config = on_quic (λ q. record q { delimiter = delimiter }) c.protocol_config;
}

-- The loop of `WithQUICCodec`: the other protocols, in their order.
unfoldable pub others : String → List String → List String
others alpn [] = []
others alpn (p ∷ ps) = if str_eq p alpn then others alpn ps else p ∷ others alpn ps

unfoldable pub add_codec : String → Codec → QuicConfig → QuicConfig
unfolding others
add_codec alpn codec q = record q {
  codecs = insert alpn codec q.codecs;
  alpn = alpn ∷ others alpn q.alpn;
}

unfoldable pub with_quic_codec : String → Codec → ServerOption
with_quic_codec alpn codec c = record c {
  protocol_config = on_quic (add_codec alpn codec) c.protocol_config;
}
