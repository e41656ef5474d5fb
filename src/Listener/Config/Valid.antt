-- ===== src/Listener/Config/Valid.antt =====
-- errors.go: what `ValidateConfig` accepts, and which configurations the options build.
use gopher_socks.Common.{◌≤◌, ◌≡◌, ◌↔◌, none, arith}
use gopher_socks.Common.Int.{pos, ◌≤ℤ◌}
use gopher_socks.Listener.Config.{ServerConfig, default_config, validate_config}

-- The bounds that a server relies on.
pub record IsValid (c : ServerConfig) : Type 0 where
  pub some_length : 1 ≤ c.max_length
  pub buffered : pos 1 ≤ℤ c.buffer_size
  pub admitting : pos 1 ≤ℤ c.max_connections
  pub read_time : pos 0 ≤ℤ c.read_timeout
  pub write_time : pos 0 ≤ℤ c.write_timeout

-- `ValidateConfig` accepts exactly the configurations within the bounds.
pub validate_config_iff : (c : ServerConfig) → (validate_config c ≡ none) ↔ IsValid c
unfolding validate_config
validate_config_iff c = (λ h. ground arith, λ v. ground arith)

pub default_config-IsValid : IsValid default_config
default_config-IsValid = omega arith
