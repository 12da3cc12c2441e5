-- ===== src/Cache/Rocks/Engine.antt =====
-- src/cache/rocks.rs, `impl ImageCache for RocksCache`: the engine as the handlers use it. Errors
-- are logged and turned into what the trait returns.
use scalpel.Common.{
  ℕ, Str, Bytes, Bool, true, false, Result, ok, err, map_err, Option, none, some, ◌≡◌, refl, ap,
  sym, arith,
}
use mathlib.Core.Option
use scalpel.Utils.{SystemTime}
use scalpel.Cache.Key.{ImageKey, Sha256}
use scalpel.Cache.Entry.{ImageEntry, Bincode}
use scalpel.Cache.Entry
use scalpel.Cache.Api.{ImageCache, IsStore}
use scalpel.Cache.Rocks.Db.{RocksDb}
use scalpel.Cache.Rocks.Store.{CacheError, RocksCache, save_entry, load_entry}
use scalpel.Cache.Rocks.Store.RoundTrip.{load_entry-save_entry}
use scalpel.Cache.Rocks.Size.{get_db_size}
use scalpel.Cache.Rocks.Evict.{evict_entries_fifo}

module _ (rocks : RocksDb) (bincode : Bincode) (sha : Sha256) (save_order load_order : Bool) where
  abbrev Cache : Type 0
  Cache = RocksCache rocks bincode

  abbrev pub loaded : Result (Option ImageEntry) (CacheError rocks bincode) → Option ImageEntry
  loaded (ok entry) = entry
  loaded (err e) = none

  abbrev pub is_ok : Result (Unit {0}) (CacheError rocks bincode) → Bool
  is_ok (ok _) = true
  is_ok (err e) = false

  unfoldable pub load :
      ImageKey → RocksCache rocks bincode → Option ImageEntry × RocksCache rocks bincode
  load key s = let (r, s') = load_entry rocks bincode sha load_order key s in (loaded r, s')

  unfoldable pub save :
      SystemTime
      → ImageKey
      → Str
      → Bytes
      → RocksCache rocks bincode
      → Bool × RocksCache rocks bincode
  save now key mime_type bytes s =
      let entry = Entry.new sha bytes mime_type now in
      let (r, s') = save_entry rocks bincode sha save_order key entry s in (is_ok r, s')

  -- `unwrap_or_default`
  unfoldable pub report : (ℕ → SystemTime) → RocksCache rocks bincode → ℕ × RocksCache rocks bincode
  report clock s =
      let (r, s') = get_db_size rocks bincode (clock 0) (clock 1) s in (Entry.unwrap_or r 0, s')

  abbrev pub forget :
      Result ℕ (CacheError rocks bincode) × RocksCache rocks bincode
      → Result ℕ (Unit {0}) × RocksCache rocks bincode
  forget (r, s) = (map_err (λ _. tt) r, s)

  unfoldable pub shrink :
      (ℕ → SystemTime)
      → ℕ
      → RocksCache rocks bincode
      → Option (Result ℕ (Unit {0}) × RocksCache rocks bincode)
  shrink clock min s = Option.map forget (evict_entries_fifo rocks bincode clock min s)

  abbrev pub rocks_engine : ImageCache
  rocks_engine = record {
    Cache = RocksCache rocks bincode;
    load = load;
    save = save;
    report = report;
    shrink = shrink;
  }

  pub is_ok-true : (r : Result (Unit {0}) (CacheError rocks bincode)) → is_ok r ≡ true → r ≡ ok tt
  is_ok-true (ok _) h = refl
  is_ok-true (err e) h = absurd (ground arith)

  pub loaded-some :
      (r : Result (Option ImageEntry) (CacheError rocks bincode)) {entry : ImageEntry}
      → loaded r ≡ some entry
      → r ≡ ok (some entry)
  loaded-some (ok o) h = ap ok h
  loaded-some (err e) h = absurd (ground arith)

  -- An image that was saved successfully, if it is found, is found as it was saved, with its digest,
  -- type and length, in whatever order the tasks of `save` and of `load` run.
  pub load-save_lem :
      (now : SystemTime) (key : ImageKey) (mime_type : Str) (bytes : Bytes) (s s' : Cache)
      {entry : ImageEntry}
      → save now key mime_type bytes s ≡ (true, s')
      → (load key s').0 ≡ some entry
      → entry ≡ Entry.new sha bytes mime_type now
  unfolding save load
  load-save_lem now key mime_type bytes s s' {entry} saved found =
      let image = Entry.new sha bytes mime_type now in
      let (r, after) = save_entry rocks bincode sha save_order key image s in
      let done = is_ok-true _ (ap (λ p. p.0) saved) in
      let same = ap (λ p. p.1) saved in
      let read = loaded-some (load_entry rocks bincode sha load_order key s').0 found in
      let whole =
        load_entry-save_entry rocks bincode sha save_order load_order key image s done
          (rw (sym same) at read) in
      cc whole

  -- The engine keeps the promise of the trait.
  pub rocks_engine-IsStore : IsStore sha rocks_engine
  rocks_engine-IsStore = record {
    load-save = λ t key mime_type bytes {c} {c'} {entry} saved found.
        load-save_lem t key mime_type bytes c c' {entry = entry} saved found;
  }
