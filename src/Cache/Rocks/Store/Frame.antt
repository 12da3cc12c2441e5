-- ===== src/Cache/Rocks/Store/Frame.antt =====
-- src/cache/rocks.rs: saving an image leaves the images under other keys alone.
use scalpel.Common.{
  ◌+◌, ◌%◌, Bytes, Bool, true, false, [], Result, ok, err, and_then-eq-ok, Option, none, some, ◌≡◌,
  refl, sym, ap, ◌∙◌, bytes_eq, Result-cases, inl, inr,
}
use scalpel.Common.Assoc.{lookup}
use scalpel.Utils.{u64_mod}
use scalpel.Cache.Key.{ImageKey, Sha256, as_bkey}
use scalpel.Cache.Entry.{ImageEntry, Bincode}
use scalpel.Cache.Rocks.Db.{Cf, images_cf, meta_cf, RocksDb, lookup-put_other}
use scalpel.Cache.Rocks.Store.{
  RocksCache, CacheError, db_op, spawn_blocking, put_cf_async, put_future, after_first, run_both,
  try_join, save_entry, load_entry, integrate,
}
use scalpel.Cache.Rocks.Store.RoundTrip.{entries_of, try_join_reads}

module _ (rocks : RocksDb) (bincode : Bincode) where
  abbrev Cache : Type 0
  Cache = RocksCache rocks bincode

  -- Lookups of `j` find the same in both states.
  abbrev Agrees : Bytes → Cache → Cache → Type 0
  Agrees j s s' =
      (c : Cf) → lookup j (entries_of rocks bincode c s') ≡ lookup j (entries_of rocks bincode c s)

  pub put_cf_async-Agrees :
      (c : Cf) (k j v : Bytes) (s : Cache)
      → bytes_eq k j ≡ false
      → Agrees j s (put_cf_async rocks bincode c k v s).1
  unfolding put_cf_async spawn_blocking
  put_cf_async-Agrees c k j v s differ d = go (RocksDb.cancelled rocks s.db)
    where
      go :
          (stopped : Option (RocksDb.JoinError rocks))
          → lookup j (
              entries_of rocks bincode d
                (spawn_blocking rocks bincode stopped
                  (db_op rocks bincode (RocksDb.put_cf rocks c k v))
                  s).1)
            ≡ lookup j (entries_of rocks bincode d s)
      go none = lookup-put_other rocks c d k j v s.db differ
      go (some e) = refl

  -- Whether the second put ran or is still in flight.
  run_both-Agrees :
      (c d : Cf) (k j v w : Bytes) (s : Cache)
      → bytes_eq k j ≡ false
      → Agrees j s
          (run_both rocks bincode
            (put_future rocks bincode c k v)
            (put_future rocks bincode d k w)
            s).1
  unfolding run_both after_first
  run_both-Agrees c d k j v w s differ =
      go (put_cf_async rocks bincode c k v s) (put_cf_async-Agrees c k j v s differ)
    where
      go :
          (r : Result (Unit {0}) (CacheError rocks bincode) × Cache)
          → Agrees j s r.1
          → Agrees j s (after_first rocks bincode r (put_future rocks bincode d k w)).1
      go (err e, t) agrees f = agrees f
      go (ok _, t) agrees f = put_cf_async-Agrees d k j w t differ f ∙ agrees f

  try_join-Agrees :
      (images_first : Bool) (k j image meta : Bytes) (s : Cache)
      → bytes_eq k j ≡ false
      → Agrees j s
          (try_join rocks bincode images_first
            (put_future rocks bincode images_cf k image)
            (put_future rocks bincode meta_cf k meta)
            s).1
  unfolding try_join
  try_join-Agrees true k j image meta s differ =
      run_both-Agrees images_cf meta_cf k j image meta s differ
  try_join-Agrees false k j image meta s differ =
      run_both-Agrees meta_cf images_cf k j meta image s differ

  module _ (sha : Sha256) where
    pub save_entry-Agrees :
        (images_first : Bool) (key : ImageKey) (j : Bytes) (entry : ImageEntry) (s : Cache)
        → bytes_eq (as_bkey sha key) j ≡ false
        → Agrees j s (save_entry rocks bincode sha images_first key entry s).1
    unfolding save_entry
    save_entry-Agrees images_first key j entry s differ =
        let k = as_bkey sha key in
        elim (Result-cases (bincode.serialize (record entry { bytes = [] }))) [
          | inl (meta, written) ↦
              let s₁ : Cache = record s { db_size = (s.db_size + entry.bytes_len) % u64_mod } in
              rw (written, save_entry) (try_join-Agrees images_first k j entry.bytes meta s₁ differ)
          | inr (e, failed) ↦ rw (failed, save_entry) (λ c. refl)
        ]

    pub load_entry-eq-ok :
        (order : Bool) (key : ImageKey) (s : Cache) {o : Option ImageEntry}
        → (load_entry rocks bincode sha order key s).0 ≡ ok o
        → integrate rocks bincode (
          lookup (as_bkey sha key) (entries_of rocks bincode images_cf s),
          lookup (as_bkey sha key) (entries_of rocks bincode meta_cf s),
        )
          ≡ ok o
    unfolding load_entry
    load_entry-eq-ok order key s h =
        let (p, read, whole) = and_then-eq-ok _ (integrate rocks bincode) h in
        let (first, second) = try_join_reads rocks bincode order (as_bkey sha key) s read in
        ap (integrate rocks bincode) (λ i. (sym first i, sym second i)) ∙ whole

    -- A save, whether it succeeds or not, does not change what is loaded under a key with other bytes.
    pub load_entry-save_entry_other :
        (save_order load_order : Bool) (key other : ImageKey) (entry : ImageEntry)
        (s : RocksCache rocks bincode) {o o' : Option ImageEntry}
        → bytes_eq (as_bkey sha key) (as_bkey sha other) ≡ false
        → (load_entry rocks bincode sha load_order other s).0 ≡ ok o
        → (load_entry rocks bincode sha load_order other
            (save_entry rocks bincode sha save_order key entry s).1).0
          ≡ ok o'
        → o' ≡ o
    load_entry-save_entry_other save_order load_order key other entry s differ before after =
        let agrees = save_entry-Agrees save_order key (as_bkey sha other) entry s differ in
        let old = load_entry-eq-ok load_order other s before in
        let now =
          load_entry-eq-ok load_order other (save_entry rocks bincode sha save_order key entry s).1
            after in
        let same = ap (integrate rocks bincode) (λ i. (agrees images_cf i, agrees meta_cf i)) in
        cc (old, now, same)
