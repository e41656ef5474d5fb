-- ===== src/Listener/Logging.antt =====
-- listener/base.go: the interface Logger, DefaultLogger, and the adapter of log/slog.
use Prim.Native.String.{String}
use gopher_socks.Common.{List}

-- `Logger`. `V` is the type of the values that a call gets as keysAndValues, and `W` what its output changes.
pub record Logger (V W : Type 0) : Type 0 where
  pub debug : String → List V → W → W
  pub info : String → List V → W → W
  pub warn : String → List V → W → W
  pub error : String → List V → W → W

-- `DefaultLogger`.
unfoldable pub default_logger : {V W : Type 0} → Logger V W
default_logger = record {
  debug = λ msg kv w. w;
  info = λ msg kv w. w;
  warn = λ msg kv w. w;
  error = λ msg kv w. w;
}

-- The four methods of a *slog.Logger that are called, and what it makes of a message.
pub record SlogLogger (V W : Type 0) : Type 0 where
  pub debug : String → List V → W → W
  pub info : String → List V → W → W
  pub warn : String → List V → W → W
  pub error : String → List V → W → W

-- `NewSlogLogger`.
unfoldable pub new_slog_logger : {V W : Type 0} → SlogLogger V W → Logger V W
new_slog_logger l = record {
  debug = λ msg kv w. l.debug msg kv w;
  info = λ msg kv w. l.info msg kv w;
  warn = λ msg kv w. l.warn msg kv w;
  error = λ msg kv w. l.error msg kv w;
}
