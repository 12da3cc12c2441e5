-- ===== src/App/Start.antt =====
-- src/main.rs: the start of the program. The compiler features of both cache engines are on.
pub mod Counted
use scalpel.Common.{
  [], Result, ok, err, Outcome, returns, panics, Option, none, some, bytes_eq, ltb, if◌then◌else◌,
  codes,
}
use scalpel.Config.{RocksConfig, FsConfig, AppConfig}
use scalpel.Metrics
use scalpel.Cache.Api.{ImageCache}
use scalpel.Tokens
use scalpel.State.{Env, GlobalState}

module _ (env : Env) where
  -- `expect` on the options of an engine and on what opening it gave.
  unfoldable pub open_engine :
      {O E : Type 0}
      → (O → Result (ImageCache.Cache env.engine) E)
      → Option O
      → Outcome (ImageCache.Cache env.engine)
  open_engine open_cache none = panics
  open_engine open_cache (some opt) = elim (open_cache opt) [
    | ok cache ↦ returns cache
    | err _ ↦ panics
  ]

  -- The environment's engine is the one that the settings name, opened by either of these.
  module _ {E F : Type 0} (open_fs : FsConfig → Result (ImageCache.Cache env.engine) E)
      (open_rocks : RocksConfig → Result (ImageCache.Cache env.engine) F) where
    unfoldable pub create_dyn_cache : AppConfig → Outcome (ImageCache.Cache env.engine)
    unfolding open_engine
    create_dyn_cache config =
        if bytes_eq config.cache_engine (codes "fs")
        then open_engine open_fs config.fs_opt
        else if bytes_eq config.cache_engine (codes "rocksdb")
        then open_engine open_rocks config.rocks_opt
        else panics

    -- `Application::new`
    unfoldable pub new : AppConfig → Outcome (GlobalState env)
    unfolding Metrics.new Tokens.new
    new config = elim (create_dyn_cache config) [
      | panics ↦ panics
      | returns cache ↦ returns (record {
        config = config;
        cache = cache;
        verifier = Tokens.new env.crypto;
        ping_info = none;
        request_counter = 0;
        metrics = Metrics.new;
        tasks = [];
      })
    ]

    -- `init`, up to the application that it runs; `config` is what `config::init` gave.
    unfoldable pub init : Option AppConfig → Outcome (GlobalState env)
    unfolding new
    init none = panics
    init (some config) = if ltb config.cache_size_mebibytes 40960 then panics else new config
