-- ===== src/Cache/Rocks/Flight/Tests.antt =====
-- Saves and events on the engine over RocksDB, at a database of lists that refuses some values.
use scalpel.Common.{
  Str, Bytes, Bool, true, false, List, [], ◌∷◌, codes, ok, err, Result, Option, none, some, ◌≡◌,
  refl, bytes_eq, ◌==◌, if◌then◌else◌, inl, inr, ◌⊎◌, Bool-cases, zero,
}
use scalpel.Common.Assoc.{lookup, without}
use scalpel.Utils.{now_as_millis}
use scalpel.Cache.Key.{ImageKey, as_bkey}
use scalpel.Cache.Entry.{ImageEntry}
use scalpel.Cache.Entry
use scalpel.Cache.Contract.{IsMap, load, save, report, shrink}
use scalpel.Cache.Rocks.Db.{Cf, same_cf, RocksDb}
use scalpel.Cache.Rocks.Toy.{
  toy_sha, toy_bincode, toy_rocks, to_bytes, Table, at, change, put, after_ok, lookup-put_lem,
  lookup-put_any_lem,
}
use scalpel.Cache.Rocks.Store.{
  RocksCache, rocks_error, save_entry, load_entry, try_join, put_cf_async, get_cf_async, run_both,
  after_first, swap, db_op_async, spawn_blocking, integrate, drop_entry,
}
use scalpel.Cache.Rocks.Size.{fetch_real_size, fetch_loop, get_db_size}
use scalpel.Cache.Rocks.Evict.{
  evict_entries_fifo, evict_from, evict_loop, round, after_queue, drop_queue, find_top_entries,
  top_loop, sort, insert, keep, replace_first,
}
use scalpel.Cache.Rocks.Engine.{rocks_engine}
use scalpel.Cache.Rocks.Engine
use scalpel.Cache.Rocks.Contract.{content, rocks_engine-IsMap}
use scalpel.Cache.Rocks.Flight.{
  Event, called, landed, lost, take_put, land, lose, shrunk, happen, and_happen, happen_all,
}
use scalpel.Cache.Rocks.Flight.Found.{rocks_found_after_calls}
use scalpel.Cache.Rocks.Flight.Late.{late_put-mixed}

-- Values that begin with 66 are refused, such as the metadata of images saved at that time.
abbrev is_refused : Bytes → Bool
is_refused [] = false
is_refused (b ∷ rest) = b == 66

abbrev put_or_refuse :
    Cf → Bytes → Bytes → Table × Table → Result (Unit {0}) (Unit {0}) × (Table × Table)
put_or_refuse c k v db = if is_refused v then (err tt, db) else (ok tt, change c (put k v) db)

lookup-put_or_refuse :
    (c d : Cf) (k j v : Bytes) (db : Table × Table) {db' : Table × Table}
    → put_or_refuse c k v db ≡ (ok tt, db')
    → lookup j (at d db').0 ≡ (
        if same_cf c d
        then (if bytes_eq k j then some v else lookup j (at d db).0)
        else lookup j (at d db).0)
lookup-put_or_refuse c d k j v db {db'} h = elim (Bool-cases (is_refused v)) [
  | inl refused ↦ absurd (cc (rw refused at h))
  | inr fine ↦ rw (after_ok (rw fine at h)) (lookup-put_lem c d k j v db)
]

lookup-put_or_refuse_any :
    (c d : Cf) (k j v : Bytes) (db : Table × Table) {r : Result (Unit {0}) (Unit {0})}
    {db' : Table × Table}
    → put_or_refuse c k v db ≡ (r, db')
    → (lookup j (at d db').0 ≡ lookup j (at d db).0)
      ⊎ ((same_cf c d ≡ true) × (bytes_eq k j ≡ true) × (lookup j (at d db').0 ≡ some v))
lookup-put_or_refuse_any c d k j v db {r} {db'} h = elim (Bool-cases (is_refused v)) [
  | inl refused ↦ rw (after_ok (rw refused at h)) (inl refl)
  | inr fine ↦ rw (after_ok (rw fine at h)) (lookup-put_any_lem c d k j v db)
]

abbrev refusing : RocksDb
refusing = record toy_rocks {
  put_cf = put_or_refuse;
  lookup-put = λ c d k j v db {db'} h. lookup-put_or_refuse c d k j v db {db' = db'} h;
  lookup-put_any =
      λ c d k j v db {r} {db'} h. lookup-put_or_refuse_any c d k j v db {r = r} {db' = db'} h;
}

abbrev key : ImageKey
key = record { chapter = codes "ab"; image = codes "1.png"; data_saver = false }

abbrev other : ImageKey
other = record key { chapter = codes "cd" }

abbrev third : ImageKey
third = record key { chapter = codes "ef" }

abbrev png : Str
png = codes "png"

abbrev Cache : Type 0
Cache = RocksCache refusing toy_bincode

abbrev empty : Cache
empty = record { db = (([], tt), ([], tt)); db_size = 0; last_fetch = 0; in_flight = [] }

-- The metadata of this save is refused, and its bytes stay in flight.
abbrev failed : Bool × Cache
failed = Engine.save refusing toy_bincode toy_sha false false (ok 66) other png (1 ∷ 2 ∷ []) empty

abbrev second : ImageEntry
second = Entry.new toy_sha (3 ∷ []) png (ok 8)

abbrev saved : Bool × Cache
saved = Engine.save refusing toy_bincode toy_sha false false (ok 8) key png (3 ∷ []) failed.1

-- The eviction drops the third image, which is the oldest.
abbrev events : List Event
events =
    landed 0
    ∷ called (save (ok 7) third png (5 ∷ 6 ∷ []))
    ∷ called (report (λ n. ok n))
    ∷ called (shrink (λ n. ok n) 1)
    ∷ called (load other)
    ∷ lost 0
    ∷ []

abbrev cache_of : Option Cache → Cache
cache_of none = empty
cache_of (some s) = s

abbrev left : Cache
left = cache_of (happen_all refusing toy_bincode toy_sha false false events saved.1)

-- The first save fails, the second does not, the events happen, and the second image is found.
after_events :
    (failed.0 ≡ false)
    × (saved.0 ≡ true)
    × (happen_all refusing toy_bincode toy_sha false false events saved.1 ≡ some left)
    × ((Engine.load refusing toy_bincode toy_sha false false key left).0 ≡ some second)
unfolding happen_all happen and_happen shrunk land lose take_put Engine.load Engine.save
    Engine.report Engine.shrink save_entry load_entry try_join put_cf_async get_cf_async run_both
    after_first swap db_op_async spawn_blocking integrate drop_entry fetch_real_size fetch_loop
    get_db_size evict_entries_fifo evict_from evict_loop round after_queue drop_queue
    find_top_entries top_loop sort insert keep replace_first Entry.new as_bkey without bytes_eq
    now_as_millis lookup
after_events = (refl, refl, refl, refl)

failed-in_flight :
    (failed.1.in_flight
      ≡ record { cf = Cf.images_cf; key = as_bkey toy_sha other; val = 1 ∷ 2 ∷ [] } ∷ [])
    × (bytes_eq (as_bkey toy_sha other) (as_bkey toy_sha key) ≡ false)
unfolding Engine.save save_entry try_join put_cf_async run_both after_first swap db_op_async
    spawn_blocking Entry.new as_bkey bytes_eq now_as_millis
failed-in_flight = (refl, refl)

rocks_found_after_calls_example : second ≡ second
unfolding Engine.save save_entry try_join put_cf_async run_both after_first swap db_op_async
    spawn_blocking Entry.new as_bkey bytes_eq now_as_millis
rocks_found_after_calls_example =
    rocks_found_after_calls refusing toy_bincode toy_sha false false (ok 8) key png (3 ∷ [])
      failed.1 left events second (refl, tt) after_events.1 (tt, (refl, (tt, (tt, (tt, (tt, tt))))))
      after_events.2 after_events.3

rocks_engine-IsMap_example : IsMap toy_sha (rocks_engine refusing toy_bincode toy_sha true false)
rocks_engine-IsMap_example = rocks_engine-IsMap refusing toy_bincode toy_sha true false

-- Both saves under one key.
abbrev first_entry : ImageEntry
first_entry = Entry.new toy_sha (1 ∷ 2 ∷ []) png (ok 66)

abbrev meta : Bytes
meta = to_bytes (record first_entry { bytes = [] })

abbrev once : Cache
once = (save_entry refusing toy_bincode toy_sha false key first_entry empty).1

abbrev twice : Cache
twice = (save_entry refusing toy_bincode toy_sha false key second once).1

saves_again : save_entry refusing toy_bincode toy_sha false key second once ≡ (ok tt, twice)
unfolding save_entry try_join put_cf_async run_both after_first swap db_op_async spawn_blocking
    Entry.new
saves_again = refl

refuses_meta :
    (put_cf_async refusing toy_bincode Cf.meta_cf
      (as_bkey toy_sha key)
      meta
      (record empty { db_size = 2 })).0
    ≡ err (rocks_error tt)
unfolding put_cf_async db_op_async spawn_blocking Entry.new
refuses_meta = refl

late_put-mixed_example :
    content refusing toy_bincode toy_sha false false
      (land refusing toy_bincode (take_put zero twice.in_flight) twice)
      (as_bkey toy_sha key)
    ≡ some (record second { bytes = 1 ∷ 2 ∷ [] })
unfolding Entry.new as_bkey put_cf_async db_op_async spawn_blocking save_entry try_join run_both
    after_first
late_put-mixed_example =
    late_put-mixed refusing toy_bincode toy_sha false false key first_entry second meta empty once
      twice refl refuses_meta refl saves_again refl
