-- ===== src/Cache/Rocks/Contract.antt =====
-- src/cache/rocks.rs: the engine over RocksDB acts on its two column families as on one map from
-- keys to entries.
use scalpel.Common.{
  ℕ, Str, Bytes, Bool, true, false, Result, ok, err, Option, none, some, if◌then◌else◌, ◌≡◌, refl,
  sym, ap, ◌∙◌, subst, inl, inr, bytes_eq, bytes_eq→eq, Bool-cases,
}
use mathlib.Core.Option
use scalpel.Common.Assoc.{lookup}
use scalpel.Utils.{SystemTime}
use scalpel.Cache.Key.{ImageKey, Sha256, as_bkey}
use scalpel.Cache.Entry.{ImageEntry, Bincode}
use scalpel.Cache.Entry
use scalpel.Cache.Contract.{Kept, IsMap}
use scalpel.Cache.Rocks.Db.{Cf, images_cf, meta_cf, RocksDb}
use scalpel.Cache.Rocks.Store.{
  CacheError, RocksCache, get_cf_async, get_future, spawn_blocking, after_first, run_both, try_join,
  integrate, save_entry, load_entry, db_op,
}
use scalpel.Cache.Rocks.Store.RoundTrip.{entries_of, save_entry-Stored, integrate_stored}
use scalpel.Cache.Rocks.Store.Frame.{save_entry-Agrees, load_entry-eq-ok}
use scalpel.Cache.Rocks.Size.{get_db_size}
use scalpel.Cache.Rocks.Evict.{evict_entries_fifo}
use scalpel.Cache.Rocks.Loses.{
  IsLess, IsLess-refl, get_db_size-IsLess, EndsLess, evict_entries_fifo-EndsLess,
}
use scalpel.Cache.Rocks.Engine.{
  load, save, report, shrink, rocks_engine, loaded, is_ok-true, loaded-some, forget,
}

module _ (rocks : RocksDb) (bincode : Bincode) (sha : Sha256) (save_order load_order : Bool) where
  abbrev Cache : Type 0
  Cache = RocksCache rocks bincode

  -- The entry that the two column families hold under a key, if they hold one that can be read.
  abbrev pub content : Cache → Bytes → Option ImageEntry
  content s k = loaded rocks bincode sha save_order load_order (
      integrate rocks bincode (
        lookup k (entries_of rocks bincode images_cf s),
        lookup k (entries_of rocks bincode meta_cf s),
      ))

  integrate-no_meta : (image : Option Bytes) → integrate rocks bincode (image, none) ≡ ok none
  unfolding integrate
  integrate-no_meta none = refl
  integrate-no_meta (some image) = refl

  integrate-no_image : (meta : Option Bytes) → integrate rocks bincode (none, meta) ≡ ok none
  unfolding integrate
  integrate-no_image meta = refl

  -- Where single values are kept or lost, entries are.
  pub IsLess-Kept :
      (s s' : Cache) (k : Bytes) → IsLess rocks bincode s s' → Kept (content s k) (content s' k)
  IsLess-Kept s s' k less =
      let shown = loaded rocks bincode sha save_order load_order in
      elim (less.0 images_cf k) [
        | inr gone ↦ inr (rw gone (ap shown (integrate-no_image _)))
        | inl image ↦ elim (less.0 meta_cf k) [
          | inr gone ↦ inr (rw gone (ap shown (integrate-no_meta _)))
          | inl meta ↦ inl (rw (image, meta) refl)
        ]
      ]

  get_cf_async-same : (c : Cf) (k : Bytes) (s : Cache) → (get_cf_async rocks bincode c k s).1 ≡ s
  unfolding get_cf_async spawn_blocking
  get_cf_async-same c k s = go (RocksDb.cancelled rocks s.db)
    where
      go :
          (stopped : Option (RocksDb.JoinError rocks))
          → (spawn_blocking rocks bincode stopped
              (db_op rocks bincode (λ db. (RocksDb.get_cf rocks c k db, db)))
              s).1
            ≡ s
      go none = refl
      go (some e) = refl

  -- Two gets leave the state as it is, also if the second is left in flight.
  run_both-same :
      (c d : Cf) (k : Bytes) (s : Cache)
      → (run_both rocks bincode (get_future rocks bincode c k) (get_future rocks bincode d k) s).1
        ≡ s
  unfolding run_both after_first
  run_both-same c d k s = go (get_cf_async rocks bincode c k s) (get_cf_async-same c k s)
    where
      go :
          (r : Result (Option Bytes) (CacheError rocks bincode) × Cache)
          → r.1 ≡ s
          → (after_first rocks bincode r (get_future rocks bincode d k)).1 ≡ s
      go (err e, t) same = same
      go (ok image, t) same = get_cf_async-same d k t ∙ same

  pub load_entry-same :
      (key : ImageKey) (s : Cache) → (load_entry rocks bincode sha load_order key s).1 ≡ s
  unfolding load_entry try_join
  load_entry-same key s = elim (Bool-cases load_order) [
    | inl images_first ↦
        rw (images_first, load_entry) (run_both-same images_cf meta_cf (as_bkey sha key) s)
    | inr meta_first ↦
        rw (meta_first, load_entry) (run_both-same meta_cf images_cf (as_bkey sha key) s)
  ]

  content-load_lem :
      (key : ImageKey) (s : Cache) (k : Bytes)
      → content (load rocks bincode sha save_order load_order key s).1 k ≡ content s k
  unfolding load
  content-load_lem key s k = ap (λ t. content t k) (load_entry-same key s)

  pub load-content_lem :
      (key : ImageKey) (s : Cache) {entry : ImageEntry}
      → (load rocks bincode sha save_order load_order key s).0 ≡ some entry
      → content s (as_bkey sha key) ≡ some entry
  unfolding load
  load-content_lem key s found =
      let read =
        loaded-some rocks bincode sha save_order load_order
          (load_entry rocks bincode sha load_order key s).0 found in
      ap (loaded rocks bincode sha save_order load_order)
        (load_entry-eq-ok rocks bincode sha load_order key s read)

  pub content-save_lem :
      (now : SystemTime) (key : ImageKey) (mime_type : Str) (bytes : Bytes) (s : Cache) (k : Bytes)
      → (save rocks bincode sha save_order load_order now key mime_type bytes s).0 ≡ true
      → content (save rocks bincode sha save_order load_order now key mime_type bytes s).1 k ≡ (
          if bytes_eq (as_bkey sha key) k
          then some (Entry.new sha bytes mime_type now)
          else content s k)
  unfolding save
  content-save_lem now key mime_type bytes s k saved =
      let image = Entry.new sha bytes mime_type now in
      let after = (save_entry rocks bincode sha save_order key image s).1 in
      let done =
        is_ok-true rocks bincode sha save_order load_order
          (save_entry rocks bincode sha save_order key image s).0 saved in
      elim (Bool-cases (bytes_eq (as_bkey sha key) k)) [
        | inr other ↦
            let agrees = save_entry-Agrees rocks bincode sha save_order key k image s other in
            rw (other, agrees images_cf, agrees meta_cf) refl
        | inl same ↦
            let (meta, written, (stored, described)) =
              save_entry-Stored rocks bincode sha save_order key image s done in
            let at = bytes_eq→eq (as_bkey sha key) k same in
            let both : content after (as_bkey sha key) ≡ some image =
              rw (stored, described)
                (ap (loaded rocks bincode sha save_order load_order)
                  (integrate_stored rocks bincode sha image meta written)) in
            rw same (ap (content after) (sym at) ∙ both)
      ]

  pub content-save_other_lem :
      (now : SystemTime) (key : ImageKey) (mime_type : Str) (bytes : Bytes) (s : Cache) (k : Bytes)
      → bytes_eq (as_bkey sha key) k ≡ false
      → content (save rocks bincode sha save_order load_order now key mime_type bytes s).1 k
        ≡ content s k
  unfolding save
  content-save_other_lem now key mime_type bytes s k other =
      let agrees =
        save_entry-Agrees rocks bincode sha save_order key k (Entry.new sha bytes mime_type now) s
          other in
      rw (agrees images_cf, agrees meta_cf) refl

  pub content-report_lem :
      (clock : ℕ → SystemTime) (s : Cache) (k : Bytes)
      → Kept (content s k) (content (report rocks bincode sha save_order load_order clock s).1 k)
  unfolding report
  content-report_lem clock s k =
      IsLess-Kept s (get_db_size rocks bincode (clock 0) (clock 1) s).1 k
        (get_db_size-IsLess rocks bincode (clock 0) (clock 1) s s (IsLess-refl rocks bincode s))

  content-shrink_lem :
      (clock : ℕ → SystemTime) (min : ℕ) (s : Cache) (k : Bytes) {r : Result ℕ (Unit {0})}
      {s' : Cache}
      → shrink rocks bincode sha save_order load_order clock min s ≡ some (r, s')
      → Kept (content s k) (content s' k)
  unfolding shrink
  content-shrink_lem clock min s k {r} {s'} h =
      go (evict_entries_fifo rocks bincode clock min s)
        (evict_entries_fifo-EndsLess rocks bincode clock min s) h
    where
      go :
          (o : Option (Result ℕ (CacheError rocks bincode) × Cache))
          → EndsLess rocks bincode s o
          → Option.map (forget rocks bincode sha save_order load_order) o ≡ some (r, s')
          → Kept (content s k) (content s' k)
      go none less e = absurd (cc e)
      go (some (r₁, s₁)) less e =
          let same : s₁ ≡ s' = cc e in
          subst (λ t. Kept (content s k) (content t k)) same (IsLess-Kept s s₁ k less)

  -- The engine over RocksDB refines a map from the bytes of keys to entries: what a load finds is
  -- held, a save that succeeds inserts exactly its entry, one that fails changes nothing under
  -- keys with other bytes, and a count or an eviction, however it ends, only takes entries away.
  pub rocks_engine-IsMap : IsMap sha (rocks_engine rocks bincode sha save_order load_order)
  rocks_engine-IsMap = record {
    content = content;
    load-content = λ key s {entry} h. load-content_lem key s {entry = entry} h;
    content-load = content-load_lem;
    content-save = content-save_lem;
    content-save_other = content-save_other_lem;
    content-report = content-report_lem;
    content-shrink =
        λ clock min s k {r} {c'} h. content-shrink_lem clock min s k {r = r} {s' = c'} h;
  }
