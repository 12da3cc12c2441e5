-- ===== src/State.antt =====
-- src/main.rs, `GlobalState`: what the server, its handlers and the main thread share.
-- An `Arc`, `ArcSwap` or atomic is its current value; a handler takes the state and returns it.
use scalpel.Common.{ℕ, Bytes, Str, List, Option}
use scalpel.Config.{AppConfig}
use scalpel.Metrics.{Metrics}
use scalpel.Cache.Key.{ImageKey, Sha256}
use scalpel.Cache.Entry.{MimeApi}
use scalpel.Cache.Api.{ImageCache}
use scalpel.Tokens.{Crypto, TokenVerifier}
use scalpel.Backend.{UrlApi, PingStore}
use scalpel.Http.Api.{HttpApi}

-- The crates behind the program, and the cache engine that the settings chose.
pub record Env : Type 1 where
  pub sha : Sha256
  pub mime : MimeApi
  pub crypto : Crypto
  pub url : UrlApi
  pub engine : ImageCache
  pub http : HttpApi
  pub hex_encode : Bytes → Str

-- A task given to `tokio::spawn` that is to save an image to the cache.
pub record SaveTask (env : Env) : Type 0 where
  pub key : ImageKey
  pub mime_type : MimeApi.Mime env.mime
  pub bytes : Bytes

-- `tasks` holds the spawned saves that have not run yet.
pub record GlobalState (env : Env) : Type 0 where
  pub config : AppConfig
  pub cache : ImageCache.Cache env.engine
  pub verifier : TokenVerifier env.crypto
  pub ping_info : Option (PingStore env.url)
  pub request_counter : ℕ
  pub metrics : Metrics
  pub tasks : List (SaveTask env)
