-- ===== src/Cache/Rocks/Store/RoundTrip.antt =====
-- src/cache/rocks.rs: what `save_entry` stores, `load_entry` finds.
use scalpel.Common.{
  ◌+◌, ◌%◌, Bytes, Bool, true, false, List, [], Result, ok, err, map_ok, map_err-eq-ok,
  map_ok-eq-ok, and_then-eq-ok, Option, none, some, if◌then◌else◌, ◌≡◌, refl, sym, ap, ◌∙◌, arith,
  bytes_eq, bytes_eq_refl, Result-cases, inl, inr,
}
use scalpel.Common.Assoc.{lookup}
use scalpel.Utils.{u64_mod}
use scalpel.Cache.Key.{ImageKey, Sha256, as_bkey}
use scalpel.Cache.Entry.{ImageEntry, Bincode}
use scalpel.Cache.Rocks.Db.{Cf, images_cf, meta_cf, same_cf, RocksDb}
use scalpel.Cache.Rocks.Store.{
  CacheError, RocksCache, Method, db_op, put_cf_async, get_cf_async, Future, put_future, get_future,
  after_first, spawn_blocking, run_both, swap, try_join, save_entry, integrate, load_entry,
  rocks_error,
}

module _ (rocks : RocksDb) (bincode : Bincode) where
  abbrev pub Cache : Type 0
  Cache = RocksCache rocks bincode

  abbrev pub entries_of : Cf → Cache → List (Bytes × Bytes)
  entries_of cf s = RocksDb.iterator_cf rocks cf s.db

  spawn_blocking-eq-ok :
      {A : Type 0} (c : Option (RocksDb.JoinError rocks)) (op : Method rocks bincode A) (s : Cache)
      {a : A}
      → (spawn_blocking rocks bincode c op s).0 ≡ ok a
      → spawn_blocking rocks bincode c op s ≡ op s
  unfolding spawn_blocking
  spawn_blocking-eq-ok none op s h = refl
  spawn_blocking-eq-ok (some e) op s h = cc

  -- A put that succeeds is seen by lookups in its column family, and by no other lookup.
  pub lookup-put_cf_async :
      (c d : Cf) (k j v : Bytes) (s : Cache)
      → (put_cf_async rocks bincode c k v s).0 ≡ ok tt
      → lookup j (entries_of d (put_cf_async rocks bincode c k v s).1) ≡ (
          if same_cf c d
          then (if bytes_eq k j then some v else lookup j (entries_of d s))
          else lookup j (entries_of d s))
  unfolding put_cf_async
  lookup-put_cf_async c d k j v s h =
      let runs =
        spawn_blocking-eq-ok (RocksDb.cancelled rocks s.db)
          (db_op rocks bincode (RocksDb.put_cf rocks c k v)) s h in
      let done =
        map_err-eq-ok rocks_error (RocksDb.put_cf rocks c k v s.db).0
          (sym (ap (λ r. r.0) runs) ∙ h) in
      rw runs (rocks.lookup-put c d k j v s.db (λ i. (done i, (RocksDb.put_cf rocks c k v s.db).1)))

  get_cf_async-eq-ok :
      (c : Cf) (k : Bytes) (s : Cache) {o : Option Bytes}
      → (get_cf_async rocks bincode c k s).0 ≡ ok o
      → (o ≡ lookup k (entries_of c s)) × ((get_cf_async rocks bincode c k s).1 ≡ s)
  unfolding get_cf_async
  get_cf_async-eq-ok c k s h =
      let op = db_op rocks bincode (λ db. (RocksDb.get_cf rocks c k db, db)) in
      let runs = spawn_blocking-eq-ok (RocksDb.cancelled rocks s.db) op s h in
      let found =
        map_err-eq-ok rocks_error (RocksDb.get_cf rocks c k s.db) (sym (ap (λ r. r.0) runs) ∙ h) in
      (rocks.get-iterator c k s.db found, ap (λ r. r.1) runs)

  pub run_both-eq-ok :
      {A B : Type 0} (a : Future rocks bincode A) (b : Future rocks bincode B) (s : Cache)
      {p : A × B}
      → (run_both rocks bincode a b s).0 ≡ ok p
      → ((a.task s).0 ≡ ok p.0)
        × ((b.task (a.task s).1).0 ≡ ok p.1)
        × ((run_both rocks bincode a b s).1 ≡ (b.task (a.task s).1).1)
  unfolding run_both after_first
  run_both-eq-ok {A} {B} a b s {p} h = go (a.task s) h
    where
      go :
          (r : Result A (CacheError rocks bincode) × Cache)
          → (after_first rocks bincode r b).0 ≡ ok p
          → (r.0 ≡ ok p.0)
            × ((b.task r.1).0 ≡ ok p.1)
            × ((after_first rocks bincode r b).1 ≡ (b.task r.1).1)
      go (err e, t) e' = absurd (cc e')
      go (ok u, t) e' = second (b.task t).0 e'
        where
          second :
              (y : Result B (CacheError rocks bincode))
              → map_ok (λ v. (u, v)) y ≡ ok p
              → (◌≡◌ {A = Result A (CacheError rocks bincode)} (ok u) (ok p.0))
                × (y ≡ ok p.1)
                × ((b.task t).1 ≡ (b.task t).1)
          second (ok v) e = (ground arith, ground arith, refl)
          second (err f) e = absurd (cc e)

  -- What lookups find after both puts of a save.
  abbrev pub Stored : Bytes → Bytes → Bytes → Cache → Type 0
  Stored k image meta s =
      (lookup k (entries_of images_cf s) ≡ some image)
      × (lookup k (entries_of meta_cf s) ≡ some meta)

  images_then_meta :
      (k image meta : Bytes) (s : Cache) {p : Unit {0} × Unit {0}}
      → (run_both rocks bincode
          (put_future rocks bincode images_cf k image)
          (put_future rocks bincode meta_cf k meta)
          s).0
        ≡ ok p
      → Stored k image meta
          (run_both rocks bincode
            (put_future rocks bincode images_cf k image)
            (put_future rocks bincode meta_cf k meta)
            s).1
  unfolding run_both
  images_then_meta k image meta s h =
      let s₁ = (put_cf_async rocks bincode images_cf k image s).1 in
      let (one, two, after) =
        run_both-eq-ok (put_future rocks bincode images_cf k image)
          (put_future rocks bincode meta_cf k meta) s h in
      rw after (
        lookup-put_cf_async meta_cf images_cf k k meta s₁ two
            ∙ (lookup-put_cf_async images_cf images_cf k k image s one ∙ rw (bytes_eq_refl k)),
        lookup-put_cf_async meta_cf meta_cf k k meta s₁ two ∙ rw (bytes_eq_refl k),
      )

  meta_then_images :
      (k image meta : Bytes) (s : Cache) {p : Unit {0} × Unit {0}}
      → (run_both rocks bincode
          (put_future rocks bincode meta_cf k meta)
          (put_future rocks bincode images_cf k image)
          s).0
        ≡ ok p
      → Stored k image meta
          (run_both rocks bincode
            (put_future rocks bincode meta_cf k meta)
            (put_future rocks bincode images_cf k image)
            s).1
  unfolding run_both
  meta_then_images k image meta s h =
      let s₁ = (put_cf_async rocks bincode meta_cf k meta s).1 in
      let (one, two, after) =
        run_both-eq-ok (put_future rocks bincode meta_cf k meta)
          (put_future rocks bincode images_cf k image) s h in
      rw after (
        lookup-put_cf_async images_cf images_cf k k image s₁ two ∙ rw (bytes_eq_refl k),
        lookup-put_cf_async images_cf meta_cf k k image s₁ two
            ∙ (lookup-put_cf_async meta_cf meta_cf k k meta s one ∙ rw (bytes_eq_refl k)),
      )

  pub swap-eq-ok :
      {A B : Type 0} (r : Result (A × B) (CacheError rocks bincode)) {p : B × A}
      → swap rocks bincode r ≡ ok p
      → r ≡ ok (p.1, p.0)
  unfolding swap
  swap-eq-ok (ok (a, b)) h = ground arith
  swap-eq-ok (err e) h = cc

  try_join-Stored :
      (images_first : Bool) (k image meta : Bytes) (s : Cache) {p : Unit {0} × Unit {0}}
      → (try_join rocks bincode images_first
          (put_future rocks bincode images_cf k image)
          (put_future rocks bincode meta_cf k meta)
          s).0
        ≡ ok p
      → Stored k image meta
          (try_join rocks bincode images_first
            (put_future rocks bincode images_cf k image)
            (put_future rocks bincode meta_cf k meta)
            s).1
  unfolding try_join
  try_join-Stored true k image meta s h = images_then_meta k image meta s h
  try_join-Stored false k image meta s h = meta_then_images k image meta s (swap-eq-ok _ h)

  -- Reading both column families, in either order, changes nothing and finds their entries.
  both_reads :
      (c d : Cf) (k : Bytes) (s : Cache) {p : Option Bytes × Option Bytes}
      → (run_both rocks bincode (get_future rocks bincode c k) (get_future rocks bincode d k) s).0
        ≡ ok p
      → (p.0 ≡ lookup k (entries_of c s)) × (p.1 ≡ lookup k (entries_of d s))
  both_reads c d k s {p} h =
      let (one, two, after) =
        run_both-eq-ok (get_future rocks bincode c k) (get_future rocks bincode d k) s h in
      let (found, same) = get_cf_async-eq-ok c k s one in
      (found, (get_cf_async-eq-ok d k s (rw same at two)).0)

  pub try_join_reads :
      (images_first : Bool) (k : Bytes) (s : Cache) {p : Option Bytes × Option Bytes}
      → (try_join rocks bincode images_first
          (get_future rocks bincode images_cf k)
          (get_future rocks bincode meta_cf k)
          s).0
        ≡ ok p
      → (p.0 ≡ lookup k (entries_of images_cf s)) × (p.1 ≡ lookup k (entries_of meta_cf s))
  unfolding try_join
  try_join_reads true k s h = both_reads images_cf meta_cf k s h
  try_join_reads false k s h =
      let (meta, image) = both_reads meta_cf images_cf k s (swap-eq-ok _ h) in (image, meta)

  module _ (sha : Sha256) where
    pub save_entry-Stored :
        (images_first : Bool) (key : ImageKey) (entry : ImageEntry) (s : Cache)
        → (save_entry rocks bincode sha images_first key entry s).0 ≡ ok tt
        → (meta : Bytes) × (bincode.serialize (record entry { bytes = [] }) ≡ ok meta)
          × Stored
              (as_bkey sha key)
              entry.bytes
              meta
              (save_entry rocks bincode sha images_first key entry s).1
    unfolding save_entry
    save_entry-Stored images_first key entry s h =
        let k = as_bkey sha key in
        elim (Result-cases (bincode.serialize (record entry { bytes = [] }))) [
          | inl (meta, written) ↦
              let s₁ : Cache = record s { db_size = (s.db_size + entry.bytes_len) % u64_mod } in
              let joined =
                map_ok-eq-ok _
                  (try_join rocks bincode images_first
                    (put_future rocks bincode images_cf k entry.bytes)
                    (put_future rocks bincode meta_cf k meta) s₁).0
                  (rw (written, save_entry) at h) in
              (
                meta,
                written,
                rw (written, save_entry)
                    (try_join-Stored images_first k entry.bytes meta s₁ joined.1),
              )
          | inr (e, failed) ↦ absurd (cc (rw (failed, save_entry) at h))
        ]

    pub integrate_stored :
        (entry : ImageEntry) (meta : Bytes)
        → bincode.serialize (record entry { bytes = [] }) ≡ ok meta
        → integrate rocks bincode (some entry.bytes, some meta) ≡ ok (some entry)
    unfolding integrate
    integrate_stored entry meta written =
        rw (bincode.round_trip (record entry { bytes = [] }) written)

    -- After a save that succeeded, a load of the same key that succeeds finds exactly the entry
    -- that was saved, in whatever order the tasks of either ran.
    pub load_entry-save_entry :
        (save_order load_order : Bool) (key : ImageKey) (entry : ImageEntry) (s : Cache)
        {o : Option ImageEntry}
        → (save_entry rocks bincode sha save_order key entry s).0 ≡ ok tt
        → (load_entry rocks bincode sha load_order key
            (save_entry rocks bincode sha save_order key entry s).1).0
          ≡ ok o
        → o ≡ some entry
    unfolding load_entry
    load_entry-save_entry save_order load_order key entry s saved loaded =
        let (meta, written, (image, metadata)) = save_entry-Stored save_order key entry s saved in
        let (p, read, whole) = and_then-eq-ok _ (integrate rocks bincode) loaded in
        let (first, second) = try_join_reads load_order (as_bkey sha key) _ read in
        let both : p ≡ (some entry.bytes, some meta) =
          λ i. ((first ∙ image) i, (second ∙ metadata) i) in
        let restored = ap (integrate rocks bincode) both ∙ integrate_stored entry meta written in
        cc (restored, whole)
