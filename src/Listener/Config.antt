-- ===== src/Listener/Config.antt =====
-- listener/base.go and errors.go: the server's configuration, its defaults, and its validation.
pub mod Options
pub mod Valid
use Prim.Native.String.{String, ◌++◌ as ◌<>◌}
use gopher_socks.Common.{
  ℕ, ◌*◌, ◌^◌, List, [], ◌∷◌, Option, none, some, Bool, ltb, ◌==◌, if◌then◌else◌,
}
use gopher_socks.Common.Int.{ℤ, pos, negsuc, ltb_ℤ}
use gopher_socks.Errors.{Error, validation}
use gopher_socks.Framing.Codec.{Codec}
use gopher_socks.Framing.Legacy.{default_delimiter}

-- An http.Request, a quic.Config and a certificate are only passed on: numbers name them.
abbrev pub Request : Type 0
Request = ℕ

-- `Logger`: the default, or one of the caller's.
pub data Logger : Type 0 where
  default_logger : Logger
  custom : ℕ → Logger

-- `WebSocketConfig`.
pub record WebSocketConfig : Type 0 where
  pub read_buffer_size : ℤ
  pub write_buffer_size : ℤ
  pub path : String
  pub check_origin : Option (Request → Bool)

-- The fields of a tls.Config that the code reads or sets.
pub record TlsConfig : Type 0 where
  pub certificates : List ℕ
  pub next_protos : List String
  pub min_version : ℕ

-- The fields of a quic.Config that the code sets.
pub record QuicTransportConfig : Type 0 where
  pub max_incoming_streams : ℤ
  pub max_incoming_uni_streams : ℤ

-- `QUICConfig`. `none` is a nil pointer.
pub record QuicConfig : Type 0 where
  pub tls_config : Option TlsConfig
  pub quic_config : Option QuicTransportConfig
  pub delimiter : List ℕ
  pub alpn : List String
  pub codecs : List (String × Codec)

-- The dynamic type of the field ProtocolConfig, which is of type `any`.
pub data ProtocolConfig : Type 0 where
  web_socket : WebSocketConfig → ProtocolConfig
  quic : QuicConfig → ProtocolConfig
  other : ℕ → ProtocolConfig

-- `ServerConfig`. A time.Duration counts nanoseconds.
pub record ServerConfig : Type 0 where
  pub max_length : ℕ
  pub buffer_size : ℤ
  pub read_timeout : ℤ
  pub write_timeout : ℤ
  pub logger : Logger
  pub max_connections : ℤ
  pub send_queue_size : ℤ
  pub protocol_config : ProtocolConfig

abbrev pub second : ℕ
second = 1_000_000_000

abbrev pub default_send_queue_size : ℕ
default_send_queue_size = 1024

abbrev pub default_max_length : ℕ
default_max_length = 1024 * 1024

abbrev pub default_alpn : String
default_alpn = "gophersocks"

-- `defaultConfig`.
abbrev pub default_config : ServerConfig
default_config = record {
  max_length = default_max_length;
  buffer_size = pos 100;
  read_timeout = pos (second * 30);
  write_timeout = pos (second * 30);
  logger = default_logger;
  max_connections = pos 1000;
  send_queue_size = pos default_send_queue_size;
  protocol_config = web_socket (record {
    read_buffer_size = pos 1024;
    write_buffer_size = pos 1024;
    path = "/ws";
    check_origin = none;
  });
}

-- `defaultQUICConfig`.
abbrev pub default_quic_config : QuicConfig
default_quic_config = record {
  tls_config = none;
  quic_config = some (record { max_incoming_streams = pos 4; max_incoming_uni_streams = negsuc 0 });
  delimiter = default_delimiter;
  alpn = default_alpn ∷ [];
  codecs = [];
}

-- `ValidateConfig`; `none` is nil.
unfoldable pub validate_config : ServerConfig → Option Error
validate_config c =
    if c.max_length == 0
    then some (validation "MaxLength" "must be greater than 0")
    else if ltb_ℤ c.buffer_size (pos 1)
    then some (validation "BufferSize" "must be at least 1")
    else if ltb_ℤ c.max_connections (pos 1)
    then some (validation "MaxConnections" "must be at least 1")
    else if ltb_ℤ c.read_timeout (pos 0)
    then some (validation "ReadTimeout" "cannot be negative")
    else if ltb_ℤ c.write_timeout (pos 0)
    then some (validation "WriteTimeout" "cannot be negative")
    else none
