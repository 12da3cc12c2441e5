-- ===== src/Cache/Fs.antt =====
-- src/cache/fs.rs: the cache engine over files, which the `forceps` crate keeps.
pub mod Db
pub mod Contract
pub mod Sums
pub mod Count
pub mod Toy
mod Tests
use scalpel.Common.{
  ℕ, ◌+◌, ◌-◌, ◌*◌, ◌%◌, Str, Bytes, Bool, true, false, List, [], ◌∷◌, length, Result, ok, err,
  map_ok, map_err, and_then, to_option, Option, some, leb, if◌then◌else◌,
}
use scalpel.Utils.{u64_mod, SystemTime, now_as_millis}
use scalpel.Config.{FsConfig}
use scalpel.Cache.Key.{ImageKey, Sha256, as_bkey}
use scalpel.Cache.Entry.{ImageEntry, Bincode}
use scalpel.Cache.Entry
use scalpel.Cache.Api.{ImageCache}
use scalpel.Cache.Fs.Db.{Forceps}

-- 1 hr in milliseconds
abbrev pub min_time : ℕ
min_time = 3600000

module _ (forceps : Forceps) (bincode : Bincode) where
  pub data CacheError : Type 0 where
    forceps_error : Forceps.Error forceps → CacheError
    bincode_error : Bincode.Error bincode → CacheError

  pub record FileSystemCache : Type 0 where
    pub cache : Forceps.Db forceps
    pub last_fetch : ℕ
    pub total : ℕ

  -- The fold of `update_real_size`; rows that cannot be read are passed over, and sums wrap.
  unfoldable pub sum_sizes : ℕ → List (Result (Bytes × ℕ) (Forceps.Error forceps)) → ℕ
  sum_sizes acc [] = acc
  sum_sizes acc (ok (_, size) ∷ rows) = sum_sizes ((acc + size) % u64_mod) rows
  sum_sizes acc (err _ ∷ rows) = sum_sizes acc rows

  unfoldable pub update_real_size : FileSystemCache → ℕ × FileSystemCache
  update_real_size s =
      let sz = sum_sizes 0 (Forceps.metadata_iter forceps s.cache) in (sz, record s { total = sz })

  -- The size of the memory and of the buffer are products of `usize`.
  unfoldable pub new : FsConfig → SystemTime → Result FileSystemCache CacheError
  unfolding update_real_size
  new config now =
      map_ok
        (λ cache.
          (update_real_size
            (record { cache = cache; last_fetch = now_as_millis now; total = 0 })).1)
        (map_err forceps_error (
          Forceps.build forceps config.path (config.lru_size_mebibytes * 1024 * 1024 % u64_mod)
            (config.rw_buffer_size * 1024 % u64_mod)))

  -- The difference wraps: a clock that was set back counts as an hour.
  unfoldable pub find_size : SystemTime → FileSystemCache → ℕ × FileSystemCache
  unfolding update_real_size
  find_size time s =
      let now = now_as_millis time in
      let fetched = record (update_real_size s).1 { last_fetch = now } in
      if leb min_time ((now + u64_mod - s.last_fetch) % u64_mod)
      then (fetched.total, fetched)
      else (s.total, s)

  module _ (sha : Sha256) where
    unfoldable pub read_from_db :
        ImageKey → FileSystemCache → Result ImageEntry CacheError × FileSystemCache
    read_from_db key s =
        let (read, db) = Forceps.read forceps (as_bkey sha key) s.cache in
        (
          and_then (map_err forceps_error read)
              (λ bytes. map_err bincode_error (bincode.deserialize bytes)),
          record s { cache = db },
        )

    -- What follows the write: the size is counted if it succeeded.
    unfoldable pub written :
        Bytes
        → FileSystemCache
        → Result (Unit {0}) (Forceps.Error forceps) × Forceps.Db forceps
        → Result (Unit {0}) CacheError × FileSystemCache
    written ser_bytes s (err e, db) = (err (forceps_error e), record s { cache = db })
    written ser_bytes s (ok _, db) =
        (ok tt, record s { cache = db; total = (s.total + length ser_bytes) % u64_mod })

    unfoldable pub write_bytes :
        ImageKey
        → Result Bytes (Bincode.Error bincode)
        → FileSystemCache
        → Result (Unit {0}) CacheError × FileSystemCache
    unfolding written
    write_bytes key (err e) s = (err (bincode_error e), s)
    write_bytes key (ok ser_bytes) s =
        written ser_bytes s (Forceps.write forceps (as_bkey sha key) ser_bytes s.cache)

    -- `now` is when the entry is made.
    unfoldable pub save_to_db :
        SystemTime
        → ImageKey
        → Str
        → Bytes
        → FileSystemCache
        → Result (Unit {0}) CacheError × FileSystemCache
    unfolding write_bytes
    save_to_db now key mime_type bytes s =
        write_bytes key (bincode.serialize (Entry.new sha bytes mime_type now)) s

    unfoldable pub load : ImageKey → FileSystemCache → Option ImageEntry × FileSystemCache
    unfolding read_from_db
    load key s = let (res, s') = read_from_db key s in (to_option res, s')

    abbrev pub is_ok : Result (Unit {0}) CacheError → Bool
    is_ok (ok _) = true
    is_ok (err e) = false

    unfoldable pub save :
        SystemTime → ImageKey → Str → Bytes → FileSystemCache → Bool × FileSystemCache
    unfolding save_to_db
    save now key mime_type bytes s =
        let (res, s') = save_to_db now key mime_type bytes s in (is_ok res, s')

    unfoldable pub report : (ℕ → SystemTime) → FileSystemCache → ℕ × FileSystemCache
    unfolding find_size
    report clock s = find_size (clock 0) s

    unfoldable pub evicted :
        FileSystemCache
        → Result (Unit {0}) (Forceps.Error forceps) × Forceps.Db forceps
        → Result ℕ (Unit {0}) × FileSystemCache
    unfolding update_real_size
    evicted s (err e, db) = (err tt, record s { cache = db })
    evicted s (ok _, db) = let (sz, s') = update_real_size (record s { cache = db }) in (ok sz, s')

    unfoldable pub shrink :
        (ℕ → SystemTime) → ℕ → FileSystemCache → Option (Result ℕ (Unit {0}) × FileSystemCache)
    unfolding evicted
    shrink clock min s = some (evicted s (Forceps.evict_with_fifo forceps min s.cache))

    abbrev pub fs_engine : ImageCache
    fs_engine = record {
      Cache = FileSystemCache;
      load = load;
      save = save;
      report = report;
      shrink = shrink;
    }
