-- ===== src/Client/Config.antt =====
-- client/options.go and clientopts.go: the client's configuration and its options.
use Prim.Native.String.{String}
use gopher_socks.Common.{ℕ, ◌*◌, List, [], ◌∷◌, Bool, true}
use gopher_socks.Common.Int.{ℤ, pos}
use gopher_socks.Common.Assoc.{insert}
use gopher_socks.Framing.Codec.{Codec}
use gopher_socks.Framing.Legacy.{default_delimiter}
use gopher_socks.Listener.Config.{second}
use gopher_socks.Listener.Config.Options.{others}

abbrev pub default_alpn : String
default_alpn = "gophersocks"

-- `QUICConfig`.
pub record QuicConfig : Type 0 where
  pub insecure_skip_verify : Bool
  pub next_protos : List String
  pub min_version : ℕ
  pub codecs : List (String × Codec)

-- The dynamic type of the field ProtocolConfig, which is of type `any`.
pub data ProtocolConfig : Type 0 where
  quic : QuicConfig → ProtocolConfig
  other : ℕ → ProtocolConfig

-- `ClientConfig`.
pub record ClientConfig : Type 0 where
  pub delimiter : List ℕ
  pub read_timeout : ℤ
  pub write_timeout : ℤ
  pub buffer_size : ℤ
  pub max_length : ℤ
  pub protocol_config : ProtocolConfig

abbrev pub default_quic_config : QuicConfig
default_quic_config = record {
  insecure_skip_verify = true;
  next_protos = default_alpn ∷ [];
  min_version = 0x0304;
  codecs = [];
}

-- `DefaultConfig`.
abbrev pub default_config : ClientConfig
default_config = record {
  delimiter = default_delimiter;
  read_timeout = pos (second * 30);
  write_timeout = pos (second * 30);
  buffer_size = pos (64 * 1024);
  max_length = pos (1024 * 1024);
  protocol_config = quic default_quic_config;
}

-- `ClientOptFunc`.
abbrev pub ClientOptFunc : Type 0
ClientOptFunc = ClientConfig → ClientConfig

unfoldable pub with_delimiter : List ℕ → ClientOptFunc
with_delimiter delimiter c = record c { delimiter = delimiter }

unfoldable pub with_client_timeouts : ℤ → ℤ → ClientOptFunc
with_client_timeouts read write c = record c { read_timeout = read; write_timeout = write }

unfoldable pub with_client_buffer_size : ℤ → ClientOptFunc
with_client_buffer_size size c = record c { buffer_size = size }

unfoldable pub with_client_max_length : ℤ → ClientOptFunc
with_client_max_length n c = record c { max_length = n }

-- The assertion `config.ProtocolConfig.(*client.QUICConfig)` and the change behind it.
abbrev pub on_quic : (QuicConfig → QuicConfig) → ProtocolConfig → ProtocolConfig
on_quic f (quic q) = quic (f q)
on_quic f (other n) = other n

unfoldable pub with_quic_insecure_skip_verify : Bool → ClientOptFunc
with_quic_insecure_skip_verify skip c = record c {
  protocol_config = on_quic (λ q. record q { insecure_skip_verify = skip }) c.protocol_config;
}

unfoldable pub with_quic_next_protos : List String → ClientOptFunc
with_quic_next_protos protos c = record c {
  protocol_config = on_quic (λ q. record q { next_protos = protos }) c.protocol_config;
}

unfoldable pub with_quic_min_version : ℕ → ClientOptFunc
with_quic_min_version version c = record c {
  protocol_config = on_quic (λ q. record q { min_version = version }) c.protocol_config;
}

-- `WithClientQUICCodec`; its loop is the one of the server's WithQUICCodec.
unfoldable pub add_codec : String → Codec → QuicConfig → QuicConfig
add_codec alpn codec q = record q {
  codecs = insert alpn codec q.codecs;
  next_protos = alpn ∷ others alpn q.next_protos;
}

unfoldable pub with_client_quic_codec : String → Codec → ClientOptFunc
with_client_quic_codec alpn codec c = record c {
  protocol_config = on_quic (add_codec alpn codec) c.protocol_config;
}

unfoldable pub apply_options : List ClientOptFunc → ClientConfig → ClientConfig
apply_options [] c = c
apply_options (opt ∷ opts) c = apply_options opts (opt c)

-- `NewClientConfig`.
unfoldable pub new_client_config : List ClientOptFunc → ClientConfig
new_client_config opts = apply_options opts default_config
