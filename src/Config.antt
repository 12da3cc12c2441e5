-- ===== src/Config.antt =====
-- src/config.rs: the settings of the client.
pub mod Files
use scalpel.Common.{ℕ, Bool, Str, Option}
use scalpel.Common.Int.{ℤ}

pub record RocksConfig : Type 0 where
  pub path : Str
  pub disable_bloom_filter : Bool
  pub lru_size : Option ℕ
  pub parallelism : Option ℤ
  pub write_buffer_size : Option ℕ
  pub write_rate_limit : Option ℕ

pub record FsConfig : Type 0 where
  pub path : Str
  pub rw_buffer_size : ℕ
  pub lru_size_mebibytes : ℕ

-- `Secret<String>` is its string.
pub record AppConfig : Type 0 where
  pub client_secret : Str
  pub max_grace_period : ℤ
  pub skip_tokens : Bool
  pub disable_ssl : Bool
  pub cache_size_mebibytes : ℕ
  pub cache_engine : Str
  pub rocks_opt : Option RocksConfig
  pub fs_opt : Option FsConfig
  pub port : ℕ
  pub bind_address : Str
  pub worker_threads : Option ℕ
  pub keep_alive : ℕ
  pub disable_ad_headers : Bool
  pub reject_invalid_sni : Bool
  pub enforce_secure_tls : Bool
  pub external_ip : Option Str
  pub external_port : Option ℕ
  pub external_max_speed : Option ℕ
