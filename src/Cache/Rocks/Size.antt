-- ===== src/Cache/Rocks/Size.antt =====
-- src/cache/rocks.rs: the size of the database, counted by iterating over the metadata.
pub mod Cleared
pub mod Exact
use scalpel.Common.{
  ℕ, ◌+◌, ◌-◌, ◌%◌, Bytes, Bool, List, [], ◌∷◌, Result, ok, err, map_ok, ltb, if◌then◌else◌,
}
use scalpel.Common.Exec.{Exec, continue, ◌>>=◌, ◌>>◌, pure, modify, gets}
use scalpel.Utils.{u64_mod, SystemTime, now_as_millis}
use scalpel.Cache.Entry.{ImageEntry, Bincode}
use scalpel.Cache.Rocks.Db.{meta_cf, RocksDb}
use scalpel.Cache.Rocks.Store.{CacheError, rocks_error, RocksCache, Method, drop_entry}

-- 1 hr in milliseconds
abbrev pub min_time : ℕ
min_time = 3600000

module _ (rocks : RocksDb) (bincode : Bincode) where
  abbrev Op : Type 0 → Type 0
  Op A = Method rocks bincode A

  -- The loop of `fetch_real_size`, over a snapshot of the metadata.
  unfoldable pub fetch_loop : List (Bytes × Bytes) → ℕ → Op ℕ
  fetch_loop [] sz = pure sz
  fetch_loop ((key, val) ∷ rest) sz = elim (bincode.deserialize val) [
    | ok entry ↦ fetch_loop rest ((sz + ImageEntry.bytes_len entry) % u64_mod)
    | err _ ↦ drop_entry rocks bincode key >>= (λ _. fetch_loop rest sz)
  ]

  -- `now` is the time at the end of the count.
  unfoldable pub fetch_real_size : SystemTime → Op (Unit {0})
  fetch_real_size now s =
      (fetch_loop (RocksDb.iterator_cf rocks meta_cf s.db) 0
          >>= (λ sz. modify (λ t. record t { db_size = sz; last_fetch = now_as_millis now })))
        s

  -- Two readings of the clock: the call's, and that of a count. The difference wraps.
  unfoldable pub get_db_size : SystemTime → SystemTime → Op ℕ
  get_db_size now counted s =
      if ltb min_time ((now_as_millis now + u64_mod - s.last_fetch) % u64_mod)
      then (fetch_real_size counted >>= (λ _. gets (λ t. t.db_size))) s
      else (ok s.db_size, s)

  -- `RocksCache::new`, given what opening the database returned.
  unfoldable pub open_cache :
      Result (RocksDb.Db rocks) (RocksDb.Error rocks)
      → SystemTime
      → Result (RocksCache rocks bincode) (CacheError rocks bincode)
  open_cache (err e) now = err (rocks_error e)
  open_cache (ok db) now =
      let (r, this) =
        fetch_real_size now (record { db = db; db_size = 0; last_fetch = 0; in_flight = [] }) in
      map_ok (λ _. this) r
