-- ===== src/Cache/Rocks/Tests.antt =====
-- The theorems about src/cache/rocks.rs and src/cache/mod.rs at a database of lists.
use Prim.Native.Nat.{min}
use scalpel.Common.{
  ℕ, ◌%◌, ◌<◌, ◌≤◌, Bytes, Bool, true, false, List, [], ◌∷◌, length, Result, ok, Option, none, some,
  ◌≡◌, refl, arith, codes, All, bytes_eq,
}
use scalpel.Common.Assoc.{lookup, without, Distinct}
use scalpel.Utils.{SystemTime, u64_mod, now_as_millis}
use scalpel.Cache.Key.{ImageKey, as_bkey}
use scalpel.Cache.Key
use scalpel.Cache.Keys.{as_bkey_merges}
use scalpel.Cache.Entry.{ImageEntry}
use scalpel.Cache.Entry
use scalpel.Cache.Api.{ImageCache}
use scalpel.Cache.Rocks.Toy.{toy_sha, toy_bincode, toy_rocks, Table, to_bytes}
use scalpel.Cache.Rocks.Store.{
  CacheError, RocksCache, save_entry, load_entry, drop_entry, try_join, put_cf_async, get_cf_async,
  run_both, after_first, db_op_async, spawn_blocking, integrate, swap,
}
use scalpel.Cache.Rocks.Store.RoundTrip.{load_entry-save_entry}
use scalpel.Cache.Rocks.Store.Frame.{load_entry-save_entry_other}
use scalpel.Common.{false}
use scalpel.Cache.Rocks.Size.{fetch_real_size, fetch_loop, get_db_size, open_cache}
use scalpel.Cache.Rocks.Size.Exact.{
  IsCounted, open_cache-IsCounted, IsClean, images_of, fetch_real_size-IsClean,
}
use scalpel.Cache.Rocks.Entries.{Readable, iterated, total, entries}
use scalpel.Cache.Rocks.Evict.{
  Item, older, evict_entries_fifo, evict_from, evict_loop, round, after_queue, drop_queue,
  find_top_entries, top_loop, sort, insert, keep, replace_first,
}
use scalpel.Cache.Rocks.Evict.Top.{From}
use scalpel.Cache.Rocks.Evict.Queue.{items}
use scalpel.Cache.Rocks.Db.{meta_cf}
use scalpel.Cache.Rocks.Evict.Found.{
  find_top_entries-From, find_top_entries-oldest, find_top_entries_forgets,
}
use scalpel.Cache.Rocks.Evict.Oldest.{IsSorted, time}
use scalpel.Cache.Rocks.Evict.Fifo.{
  IsEvicted, evict_entries_fifo-ends, evict_entries_fifo-IsEvicted,
}
use scalpel.Cache.Rocks.Engine.{rocks_engine, load-save_lem, load, save}

abbrev image : ℕ → ImageEntry
image t = record {
  save_time = t;
  checksum = 7 ∷ [];
  mime_type = codes "image/png";
  bytes_len = 3;
  bytes = 1 ∷ 2 ∷ 3 ∷ [];
}

abbrev key : ImageKey
key = record { chapter = codes "ab"; image = codes "1.png"; data_saver = false }

-- Metadata of two images, and a row that cannot be read.
abbrev row_list : List (Bytes × Bytes)
row_list = (1 ∷ [], to_bytes (image 20)) ∷ (2 ∷ [], 5 ∷ []) ∷ (3 ∷ [], to_bytes (image 10)) ∷ []

row_list-Distinct : Distinct row_list
unfolding lookup bytes_eq
row_list-Distinct = (refl, (refl, (refl, tt)))

abbrev rows : Table
rows = (row_list, row_list-Distinct)

abbrev cache : RocksCache toy_rocks toy_bincode
cache = record { db = ((([], tt), rows)); db_size = 0; last_fetch = 0; in_flight = [] }

abbrev clock : ℕ → SystemTime
clock n = ok n

counts : (fetch_real_size toy_rocks toy_bincode (ok 9) cache).1.db_size ≡ 6
unfolding fetch_real_size fetch_loop drop_entry without lookup bytes_eq now_as_millis
counts = refl

saves_and_loads :
    (load_entry toy_rocks toy_bincode toy_sha false key
      (save_entry toy_rocks toy_bincode toy_sha true key (image 5) cache).1).0
    ≡ ok (some (image 5))
unfolding load_entry save_entry try_join run_both after_first swap put_cf_async get_cf_async
    db_op_async spawn_blocking integrate without lookup bytes_eq as_bkey
saves_and_loads = refl

abbrev saved : RocksCache toy_rocks toy_bincode
saved = (save_entry toy_rocks toy_bincode toy_sha true key (image 5) cache).1

saved-ok : (save_entry toy_rocks toy_bincode toy_sha true key (image 5) cache).0 ≡ ok tt
unfolding save_entry try_join run_both after_first put_cf_async db_op_async spawn_blocking
saved-ok = refl

load_entry-save_entry_example : some (image 5) ≡ some (image 5)
load_entry-save_entry_example =
    load_entry-save_entry toy_rocks toy_bincode toy_sha true false key (image 5) cache saved-ok
      saves_and_loads

fetched-ok : (fetch_real_size toy_rocks toy_bincode (clock 9) cache).0 ≡ ok tt
unfolding fetch_real_size fetch_loop drop_entry
fetched-ok = refl

fetch_real_size-IsClean_example :
    IsClean toy_rocks toy_bincode cache (fetch_real_size toy_rocks toy_bincode (clock 9) cache).1
    × ((fetch_real_size toy_rocks toy_bincode (clock 9) cache).1.db_size
        ≡ total (images_of toy_rocks toy_bincode cache) % u64_mod)
    × ((fetch_real_size toy_rocks toy_bincode (clock 9) cache).1.last_fetch
        ≡ now_as_millis (clock 9))
fetch_real_size-IsClean_example =
    fetch_real_size-IsClean toy_rocks toy_bincode (clock 9) cache fetched-ok

as_bkey_merges_example :
    as_bkey toy_sha (Key.new (codes "ab") (codes "c.png") false)
    ≡ as_bkey toy_sha (Key.new (codes "a") (codes "bc.png") false)
unfolding Key.new
as_bkey_merges_example =
    as_bkey_merges toy_sha (Key.new (codes "ab") (codes "c.png") false)
      (Key.new (codes "a") (codes "bc.png") false) refl refl

-- A cache with metadata for three images of the given ages.
abbrev rows_of : ℕ → ℕ → ℕ → List (Bytes × Bytes)
rows_of a b c =
    (1 ∷ [], to_bytes (image a)) ∷ (2 ∷ [], to_bytes (image b)) ∷ (3 ∷ [], to_bytes (image c)) ∷ []

rows_of-Distinct : (a b c : ℕ) → Distinct (rows_of a b c)
unfolding lookup bytes_eq
rows_of-Distinct a b c = (refl, (refl, (refl, tt)))

abbrev three : ℕ → ℕ → ℕ → RocksCache toy_rocks toy_bincode
three a b c = record {
  db = (([], tt), (rows_of a b c, rows_of-Distinct a b c));
  db_size = 0;
  last_fetch = 0;
  in_flight = [];
}

three-Readable :
    (a b c : ℕ) → Readable toy_bincode (iterated toy_bincode toy_rocks meta_cf (three a b c))
three-Readable a b c = ((image a, refl), ((image b, refl), ((image c, refl), tt)))

find_top_entries-From_test :
    (q : List Item) × (find_top_entries toy_rocks toy_bincode 2 older (three 20 30 25)
      ≡ (ok q, three 20 30 25))
    × (length q ≡ min 2 (length (items toy_rocks toy_bincode (three 20 30 25))))
    × Distinct q
    × From (items toy_rocks toy_bincode (three 20 30 25)) q
find_top_entries-From_test =
    find_top_entries-From toy_rocks toy_bincode 2 (three 20 30 25) older (three-Readable 20 30 25)

found :
    find_top_entries toy_rocks toy_bincode 2 older (three 20 30 25)
    ≡ (ok ((1 ∷ [], image 20) ∷ (3 ∷ [], image 25) ∷ []), three 20 30 25)
unfolding find_top_entries top_loop keep replace_first sort insert
found = refl

find_top_entries-oldest_example :
    IsSorted ((1 ∷ [], image 20) ∷ (3 ∷ [], image 25) ∷ [])
    × All (λ y. 20 ≤ time y) (items toy_rocks toy_bincode (three 20 30 25))
find_top_entries-oldest_example =
    find_top_entries-oldest toy_rocks toy_bincode 2 (three 20 30 25) (three-Readable 20 30 25)
      (omega arith) found

three-items :
    items toy_rocks toy_bincode (three 20 30 10)
    ≡ (1 ∷ [], image 20) ∷ (2 ∷ [], image 30) ∷ (3 ∷ [], image 10) ∷ []
unfolding entries
three-items = refl

-- The oldest but one of three is forgotten by a queue of two.
find_top_entries_forgets_example :
    (q : List Item) × (find_top_entries toy_rocks toy_bincode 2 older (three 20 30 10)
      ≡ (ok q, three 20 30 10))
    × (lookup (1 ∷ []) q ≡ none)
find_top_entries_forgets_example =
    find_top_entries_forgets toy_rocks toy_bincode 2 (three 20 30 10) (3 ∷ [], image 10)
      (1 ∷ [], image 20) ((2 ∷ [], image 30) ∷ []) (three-Readable 20 30 10) three-items refl
      (omega arith)

cache-fits : total (images_of toy_rocks toy_bincode cache) < u64_mod
unfolding total entries
cache-fits = omega arith

abbrev left_of :
    Option (Result ℕ (CacheError toy_rocks toy_bincode) × RocksCache toy_rocks toy_bincode)
    → RocksCache toy_rocks toy_bincode
left_of none = cache
left_of (some (r, s)) = s

abbrev evicted : RocksCache toy_rocks toy_bincode
evicted = left_of (evict_entries_fifo toy_rocks toy_bincode clock 4 cache)

evicts_one : evict_entries_fifo toy_rocks toy_bincode clock 4 cache ≡ some (ok 3, evicted)
unfolding evict_entries_fifo evict_from evict_loop round after_queue drop_queue find_top_entries
    top_loop sort insert keep fetch_real_size get_db_size fetch_loop drop_entry without lookup
    bytes_eq now_as_millis
evicts_one = refl

evict_entries_fifo-ends_example :
    (run : Result ℕ (CacheError toy_rocks toy_bincode) × RocksCache toy_rocks toy_bincode)
    × (evict_entries_fifo toy_rocks toy_bincode clock 4 cache ≡ some run)
evict_entries_fifo-ends_example =
    evict_entries_fifo-ends toy_rocks toy_bincode 4 clock cache cache-fits

evict_entries_fifo-IsEvicted_example :
    IsEvicted toy_rocks toy_bincode 4 cache 3 evicted × (evicted.db_size ≡ 3)
evict_entries_fifo-IsEvicted_example =
    evict_entries_fifo-IsEvicted toy_rocks toy_bincode 4 clock cache cache-fits evicts_one

abbrev engine : ImageCache
engine = rocks_engine toy_rocks toy_bincode toy_sha true false

abbrev written : Bool × RocksCache toy_rocks toy_bincode
written =
    save toy_rocks toy_bincode toy_sha true false (ok 5) key (codes "image/png") (1 ∷ 2 ∷ []) cache

abbrev expected : ImageEntry
expected = Entry.new toy_sha (1 ∷ 2 ∷ []) (codes "image/png") (ok 5)

written-true : written ≡ (true, written.1)
unfolding save save_entry try_join run_both after_first put_cf_async db_op_async spawn_blocking
written-true = refl

found-expected : (load toy_rocks toy_bincode toy_sha true false key written.1).0 ≡ some expected
unfolding load save load_entry save_entry try_join run_both after_first swap put_cf_async
    get_cf_async db_op_async spawn_blocking integrate without lookup bytes_eq as_bkey Entry.new
found-expected = refl

load-save_lem_test : expected ≡ expected
load-save_lem_test =
    load-save_lem toy_rocks toy_bincode toy_sha true false (ok 5) key (codes "image/png")
      (1 ∷ 2 ∷ []) cache written.1 written-true found-expected

abbrev opened : RocksCache toy_rocks toy_bincode
opened = (fetch_real_size toy_rocks toy_bincode (clock 9) cache).1

opens : open_cache toy_rocks toy_bincode (ok cache.db) (clock 9) ≡ ok opened
unfolding open_cache fetch_real_size fetch_loop drop_entry
opens = refl

open_cache-IsCounted_test :
    IsCounted toy_rocks toy_bincode opened
    × (images_of toy_rocks toy_bincode opened ≡ entries toy_bincode row_list)
open_cache-IsCounted_test = open_cache-IsCounted toy_rocks toy_bincode cache.db (clock 9) opens

-- Another image saved after the first.
abbrev key2 : ImageKey
key2 = record key { chapter = codes "cd" }

keys-differ : bytes_eq (as_bkey toy_sha key2) (as_bkey toy_sha key) ≡ false
unfolding as_bkey bytes_eq
keys-differ = refl

saved-both : (save_entry toy_rocks toy_bincode toy_sha true key2 (image 8) saved).0 ≡ ok tt
unfolding save_entry try_join run_both after_first put_cf_async db_op_async spawn_blocking
saved-both = refl

loads_first :
    (load_entry toy_rocks toy_bincode toy_sha false key
      (save_entry toy_rocks toy_bincode toy_sha true key2 (image 8) saved).1).0
    ≡ ok (some (image 5))
unfolding load_entry save_entry try_join run_both after_first swap put_cf_async get_cf_async
    db_op_async spawn_blocking integrate without lookup bytes_eq as_bkey
loads_first = refl

load_entry-save_entry_other_test : some (image 5) ≡ some (image 5)
load_entry-save_entry_other_test =
    load_entry-save_entry_other toy_rocks toy_bincode toy_sha true false key2 key (image 8) saved
      keys-differ saves_and_loads loads_first
