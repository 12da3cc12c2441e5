-- ===== src/Cache/Rocks/Options.antt =====
-- src/cache/rocks.rs: the options of the database and of its column families, and `RocksCache::new`.
use scalpel.Common.{
  ℕ, ◌*◌, ◌%◌, Str, Bool, true, false, List, [], ◌∷◌, codes, Result, ok, err, Option, none, some,
  ltb, if◌then◌else◌,
}
use scalpel.Common.Int.{ℤ, pos, as_i64}
use scalpel.Utils.{u64_mod, SystemTime}
use scalpel.Config.{RocksConfig}
use scalpel.Cache.Entry.{Bincode}
use scalpel.Cache.Rocks.Db.{RocksDb}
use scalpel.Cache.Rocks.Store.{CacheError, RocksCache}
use scalpel.Cache.Rocks.Size.{open_cache}

abbrev pub mebibyte : ℕ
mebibyte = 1048576

abbrev pub unwrap_or {ℓ} : {A : Type ℓ} → Option A → A → A
unwrap_or none d = d
unwrap_or (some a) d = a

-- What is set; `none` and `false` are the defaults of the crate.
pub record BlockBasedOptions : Type 0 where
  pub format_version : ℕ
  pub bloom_filter : Option (ℕ × Bool)
  pub cache_index_and_filter_blocks : Bool
  pub pin_l0_filter_and_index_blocks_in_cache : Bool
  -- the size of the cache
  pub block_cache : Option ℕ

pub record CfOptions : Type 0 where
  pub level_compaction_dynamic_level_bytes : Bool
  pub block_based_table_factory : BlockBasedOptions

pub record DbOptions : Type 0 where
  pub create_missing_column_families : Bool
  pub create_if_missing : Bool
  pub compression_none : Bool
  pub keep_log_file_num : ℕ
  pub parallelism : ℤ
  pub max_background_jobs : ℕ
  pub compaction_readahead_size : ℕ
  pub level_style_compaction : ℕ
  pub ratelimiter : Option (ℤ × ℕ × ℕ)
  pub write_buffer_size : ℕ
  pub optimize_filters_for_hits : Bool

-- A cache is created in memory, or is not.
unfoldable pub with_block_cache :
    Result (Unit {0}) (Unit {0}) → ℕ → BlockBasedOptions → BlockBasedOptions
with_block_cache (ok _) size opts = record opts { block_cache = some size }
with_block_cache (err _) size opts = opts

module _ (new_lru_cache : ℕ → Result (Unit {0}) (Unit {0})) where
  unfoldable pub block_cf_opts : RocksConfig → BlockBasedOptions
  unfolding with_block_cache
  block_cf_opts conf =
      let filtered = bloom_opts conf.disable_bloom_filter in
      let lru_sz = unwrap_or conf.lru_size 64 in
      let size = lru_sz * mebibyte % u64_mod in
      if ltb 0 lru_sz then with_block_cache (new_lru_cache size) size filtered else filtered
    where
      bloom_opts : Bool → BlockBasedOptions
      bloom_opts disabled = record {
        format_version = 5;
        bloom_filter = if disabled then none else some (10, false);
        cache_index_and_filter_blocks = if disabled then false else true;
        pin_l0_filter_and_index_blocks_in_cache = if disabled then false else true;
        block_cache = none;
      }

  unfoldable pub cf_opts : RocksConfig → CfOptions
  unfolding block_cf_opts
  cf_opts conf = record {
    level_compaction_dynamic_level_bytes = true;
    block_based_table_factory = block_cf_opts conf;
  }

abbrev pub rate_limit : Option ℕ → Option (ℤ × ℕ × ℕ)
rate_limit none = none
rate_limit (some wrl) = some (as_i64 (wrl * mebibyte), 100000, 10)

unfoldable pub db_opts : RocksConfig → DbOptions
db_opts conf = record {
  create_missing_column_families = true;
  create_if_missing = true;
  compression_none = true;
  keep_log_file_num = 30;
  parallelism = unwrap_or conf.parallelism (pos 2);
  max_background_jobs = 6;
  compaction_readahead_size = 8 * mebibyte;
  level_style_compaction = 512 * mebibyte;
  ratelimiter = rate_limit conf.write_rate_limit;
  write_buffer_size = unwrap_or conf.write_buffer_size 64 * mebibyte % u64_mod;
  optimize_filters_for_hits = true;
}

-- `RocksCache::new`; the database opens from its options, its path and its column families.
unfoldable pub new :
    (rocks : RocksDb) (bincode : Bincode)
    → (ℕ → Result (Unit {0}) (Unit {0}))
    → (DbOptions → Str → List (Str × CfOptions) → Result (RocksDb.Db rocks) (RocksDb.Error rocks))
    → SystemTime
    → RocksConfig
    → Result (RocksCache rocks bincode) (CacheError rocks bincode)
unfolding cf_opts db_opts
new rocks bincode new_lru_cache open_cf_descriptors now conf =
    open_cache rocks bincode
      (open_cf_descriptors (db_opts conf) conf.path (
        (codes "data", cf_opts new_lru_cache conf)
        ∷ (codes "meta", cf_opts new_lru_cache conf)
        ∷ []))
      now
