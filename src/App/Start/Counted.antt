-- ===== src/App/Start/Counted.antt =====
-- src/main.rs with src/cache/rocks.rs: the program starts with a cache that was counted.
use scalpel.Common.{
  ℕ, Str, Bool, false, List, Result, ok, err, Outcome, returns, panics, Option, none, some,
  bytes_eq, codes, ltb, ◌≡◌, refl, ap, subst, inl, inr, Bool-cases, Result-cases,
}
use scalpel.Utils.{SystemTime}
use scalpel.Config.{RocksConfig, FsConfig, AppConfig}
use scalpel.Cache.Entry.{Bincode}
use scalpel.Cache.Rocks.Db.{RocksDb}
use scalpel.Cache.Rocks.Store.{RocksCache, CacheError}
use scalpel.Cache.Rocks.Size.{open_cache}
use scalpel.Cache.Rocks.Size.Exact.{IsCounted, open_cache-IsCounted}
use scalpel.Cache.Rocks.Engine.{rocks_engine}
use scalpel.Cache.Rocks.Options
use scalpel.Cache.Rocks.Options.{DbOptions, CfOptions}
use scalpel.State.{Env, GlobalState}
use scalpel.App.Start
use scalpel.App.Start.{open_engine, create_dyn_cache, init}

module _ (rocks : RocksDb) (bincode : Bincode) (env : Env) (save_order load_order : Bool) where
  -- The environment with the engine over RocksDB.
  abbrev pub with_rocks : Env
  with_rocks = record env { engine = rocks_engine rocks bincode env.sha save_order load_order }

  outcome_value : {A : Type 0} {a b : A} → ◌≡◌ {A = Outcome A} (returns a) (returns b) → a ≡ b
  outcome_value h = cc h

  module _ {E : Type 0} (open_fs : FsConfig → Result (RocksCache rocks bincode) E)
      (new_lru_cache : ℕ → Result (Unit {0}) (Unit {0}))
      (open_cf : DbOptions
        → Str
        → List (Str × CfOptions)
        → Result (RocksDb.Db rocks) (RocksDb.Error rocks))
      (now : SystemTime) where
    abbrev pub opens : RocksConfig → Result (RocksCache rocks bincode) (CacheError rocks bincode)
    opens conf = Options.new rocks bincode new_lru_cache open_cf now conf

    opens-IsCounted :
        (conf : RocksConfig) {cache : RocksCache rocks bincode}
        → opens conf ≡ ok cache
        → IsCounted rocks bincode cache
    unfolding Options.new open_cache
    opens-IsCounted conf {cache} h = go (open_cf _ conf.path _) h
      where
        go :
            (opened : Result (RocksDb.Db rocks) (RocksDb.Error rocks))
            → open_cache rocks bincode opened now ≡ ok cache
            → IsCounted rocks bincode cache
        go (ok db) e = (open_cache-IsCounted rocks bincode db now e).0
        go (err x) e = absurd (cc e)

    open_engine-IsCounted :
        (opt : Option RocksConfig) {cache : RocksCache rocks bincode}
        → open_engine with_rocks opens opt ≡ returns cache
        → IsCounted rocks bincode cache
    unfolding open_engine
    open_engine-IsCounted none h = absurd (cc h)
    open_engine-IsCounted (some conf) h = elim (Result-cases (opens conf)) [
      | inr (e, failed) ↦ absurd (cc (rw (failed, open_engine) at h))
      | inl (cache, done) ↦
          subst (IsCounted rocks bincode) (outcome_value (rw (done, open_engine) at h))
            (opens-IsCounted conf done)
    ]

    create_dyn_cache-IsCounted :
        (config : AppConfig) {cache : RocksCache rocks bincode}
        → bytes_eq config.cache_engine (codes "fs") ≡ false
        → create_dyn_cache with_rocks open_fs opens config ≡ returns cache
        → IsCounted rocks bincode cache
    unfolding create_dyn_cache
    create_dyn_cache-IsCounted config other h =
        elim (Bool-cases (bytes_eq config.cache_engine (codes "rocksdb"))) [
          | inl named ↦
              open_engine-IsCounted config.rocks_opt (rw (other, named, create_dyn_cache) at h)
          | inr unknown ↦ absurd (cc (rw (other, unknown, create_dyn_cache) at h))
        ]

    new-IsCounted :
        (config : AppConfig) (gs : GlobalState with_rocks)
        → bytes_eq config.cache_engine (codes "fs") ≡ false
        → Start.new with_rocks open_fs opens config ≡ returns gs
        → IsCounted rocks bincode gs.cache
    unfolding Start.new
    new-IsCounted config gs other h = go (create_dyn_cache with_rocks open_fs opens config) refl
      where
        go :
            (o : Outcome (RocksCache rocks bincode))
            → create_dyn_cache with_rocks open_fs opens config ≡ o
            → IsCounted rocks bincode gs.cache
        go panics e = absurd (cc (rw (e, Start.new) at h))
        go (returns cache) e =
            let same =
              ap (λ (g : GlobalState with_rocks). g.cache)
                (outcome_value (rw (e, Start.new) at h)) in
            subst (IsCounted rocks bincode) same (create_dyn_cache-IsCounted config other e)

    -- A program that starts, with settings that do not name the engine over files, has a cache in which
    -- all entries can be read, and whose size is the sum of their sizes (in 64 bits).
    pub init-IsCounted :
        (config : AppConfig) (gs : GlobalState with_rocks)
        → bytes_eq config.cache_engine (codes "fs") ≡ false
        → init with_rocks open_fs opens (some config) ≡ returns gs
        → IsCounted rocks bincode gs.cache
    unfolding init
    init-IsCounted config gs other h = elim (Bool-cases (ltb config.cache_size_mebibytes 40960)) [
      | inl small ↦ absurd (cc (rw (small, init) at h))
      | inr enough ↦ new-IsCounted config gs other (rw (enough, init) at h)
    ]
