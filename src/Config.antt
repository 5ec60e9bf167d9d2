-- ===== src/Config.antt =====
-- internal/config/config.go: the configuration and its validation. A `time.Duration` is a number of
-- nanoseconds. That the file and the environment are read is left out.
pub mod Capacity
pub mod Load
use wb_l.Base.{Bool, List, none, some, ◌||◌, not, Option, if◌then◌else◌}
use wb_l.Base.Int.{ℤ, pos, ltb_ℤ}
use wb_l.Base.Text.{Text, is_nil}

pub record ServerConfig : Type 0 where
  pub port : ℤ
  pub read_timeout : ℤ
  pub write_timeout : ℤ
  pub idle_timeout : ℤ

pub record RetryConfig : Type 0 where
  pub max_attempts : ℤ

pub record DatabaseConfig : Type 0 where
  pub host : Text
  pub port : ℤ
  pub user : Text
  pub password : Text
  pub database : Text
  pub ssl_mode : Text
  pub max_open_connections : ℤ
  pub min_open_connections : ℤ
  pub min_idle_connections : ℤ
  pub health_check_period : ℤ
  pub retry : RetryConfig

pub record KafkaConfig : Type 0 where
  pub topic : Text
  pub group_id : Text
  pub listeners : Text
  pub advertised_listeners : List Text

pub record CacheConfig : Type 0 where
  pub capacity : ℤ

pub record CircuitBreakerConfig : Type 0 where
  pub max_failers : ℤ
  pub timeout : ℤ
  pub half_open_max_calls : ℤ

pub record Config : Type 0 where
  pub server : ServerConfig
  pub database : DatabaseConfig
  pub kafka : KafkaConfig
  pub cache : CacheConfig
  pub circuit_breaker : CircuitBreakerConfig

pub data ConfigError : Type 0 where
  invalid_database_port invalid_server_port : ℤ → ConfigError
  no_database_host capacity_not_positive : ConfigError

-- `port <= 0 || port > 65535`
abbrev pub bad_port : ℤ → Bool
bad_port port = not (ltb_ℤ (pos 0) port) || ltb_ℤ (pos 65535) port

-- `(*Config).Validate`
unfoldable pub config_validate : Config → Option ConfigError
config_validate c =
    if bad_port c.database.port
    then some (invalid_database_port c.database.port)
    else if is_nil c.database.host
    then some no_database_host
    else if bad_port c.server.port
    then some (invalid_server_port c.server.port)
    else if not (ltb_ℤ (pos 0) c.cache.capacity)
    then some capacity_not_positive
    else none
