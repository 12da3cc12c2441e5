-- ===== src/Cache/Rocks/Evict.antt =====
-- src/cache/rocks.rs: the eviction of the oldest entries.
pub mod Top
pub mod Oldest
pub mod Queue
pub mod Found
pub mod Dropped
pub mod Fifo
use Prim.Native.Nat.{compare, Ordering}
use scalpel.Common.{
  ℕ, zero, suc, ◌+◌, ◌-◌, ◌%◌, Bytes, Bool, true, false, List, [], ◌∷◌, ◌++◌, length, Result, ok,
  err, Option, none, some, ltb, leb, if◌then◌else◌,
}
use mathlib.Core.Option
use scalpel.Common.Exec.{Exec, continue, ◌>>=◌, ◌>>◌, pure, modify}
use scalpel.Utils.{u64_mod, SystemTime}
use scalpel.Cache.Entry.{ImageEntry, Bincode}
use scalpel.Cache.Rocks.Db.{meta_cf, RocksDb}
use scalpel.Cache.Rocks.Store.{CacheError, RocksCache, Method, drop_entry}
use scalpel.Cache.Rocks.Size.{fetch_real_size, get_db_size}

abbrev pub Item : Type 0
Item = Bytes × ImageEntry

abbrev pub Comparator : Type 0
Comparator = ImageEntry → ImageEntry → Ordering

abbrev pub is_gt : Ordering → Bool
is_gt Ordering.gt = true
is_gt _ = false

-- Replaces the first entry that `x` is preferred to, if there is one.
unfoldable pub replace_first : Comparator → Item → List Item → List Item
replace_first comparator x [] = []
replace_first comparator x (y ∷ ys) =
    if is_gt (comparator x.1 y.1) then x ∷ ys else y ∷ replace_first comparator x ys

unfoldable pub keep : ℕ → Comparator → List Item → Item → List Item
keep n comparator acc x =
    if ltb (length acc) n then acc ++ x ∷ [] else replace_first comparator x acc

-- All entries offered in turn.
unfoldable pub keep_all : ℕ → Comparator → List Item → List Item → List Item
keep_all n comparator [] acc = acc
keep_all n comparator (x ∷ xs) acc = keep_all n comparator xs (keep n comparator acc x)

-- `sort_unstable_by` with the comparator reversed: preferred entries come first. Of the orders that
-- an unstable sort may give to equal entries this is the stable one.
unfoldable pub insert : Comparator → Item → List Item → List Item
insert comparator x [] = x ∷ []
insert comparator x (y ∷ ys) =
    if is_gt (comparator y.1 x.1) then y ∷ insert comparator x ys else x ∷ y ∷ ys

unfoldable pub sort : Comparator → List Item → List Item
sort comparator [] = []
sort comparator (x ∷ xs) = insert comparator x (sort comparator xs)

-- `|x, y| y.save_time.cmp(&x.save_time)`
abbrev pub older : Comparator
older x y = compare y.save_time x.save_time

module _ (rocks : RocksDb) (bincode : Bincode) where
  abbrev Op : Type 0 → Type 0
  Op A = Method rocks bincode A

  unfoldable pub top_loop : ℕ → Comparator → List (Bytes × Bytes) → List Item → Op (List Item)
  top_loop n comparator [] acc = pure acc
  top_loop n comparator ((key, val) ∷ rest) acc = elim (bincode.deserialize val) [
    | ok entry ↦ top_loop n comparator rest (keep n comparator acc (key, entry))
    | err _ ↦ drop_entry rocks bincode key >>= (λ _. top_loop n comparator rest acc)
  ]

  unfoldable pub find_top_entries : ℕ → Comparator → Op (List Item)
  find_top_entries n comparator s =
      (top_loop n comparator (RocksDb.iterator_cf rocks meta_cf s.db) []
          >>= (λ acc. pure (sort comparator acc)))
        s

  -- The `for` loop over a queue; `true` is `break 'evictor`. The difference wraps.
  unfoldable pub drop_queue : ℕ → List Item → ℕ → Op (Bool × ℕ)
  drop_queue until_size [] sz = pure (false, sz)
  drop_queue until_size ((key, entry) ∷ queue) sz = drop_entry rocks bincode key >>= (λ _.
      let sz' = (sz + u64_mod - entry.bytes_len) % u64_mod in
      elim (leb sz' until_size) [
        | true ↦ pure (true, sz')
        | false ↦ drop_queue until_size queue sz'
      ])

  -- What a round of the `'evictor` loop decides: the size to end with, or to go on.
  unfoldable pub after_queue :
      (ℕ
        → RocksCache rocks bincode
        → Option (Result ℕ (CacheError rocks bincode) × RocksCache rocks bincode))
      → Result (Bool × ℕ) (CacheError rocks bincode) × RocksCache rocks bincode
      → Option (Result ℕ (CacheError rocks bincode) × RocksCache rocks bincode)
  after_queue again (err e, s) = some (err e, s)
  after_queue again (ok (true, sz), s) = some (ok sz, s)
  after_queue again (ok (false, sz), s) = again sz s

  unfoldable pub round :
      (ℕ
        → RocksCache rocks bincode
        → Option (Result ℕ (CacheError rocks bincode) × RocksCache rocks bincode))
      → ℕ
      → ℕ
      → Result (List Item) (CacheError rocks bincode) × RocksCache rocks bincode
      → Option (Result ℕ (CacheError rocks bincode) × RocksCache rocks bincode)
  unfolding after_queue
  round again until_size sz (err e, s) = some (err e, s)
  round again until_size sz (ok [], s) = some (ok sz, s)
  round again until_size sz (ok (x ∷ queue), s) =
      after_queue again (drop_queue until_size (x ∷ queue) sz s)

  -- The `'evictor` loop; `none` is fuel that ran out.
  unfoldable pub evict_loop :
      ℕ
      → ℕ
      → ℕ
      → RocksCache rocks bincode
      → Option (Result ℕ (CacheError rocks bincode) × RocksCache rocks bincode)
  unfolding round
  evict_loop zero until_size sz s = none
  evict_loop (suc fuel) until_size sz s =
      round (evict_loop fuel until_size) until_size sz (find_top_entries 256 older s)

  -- The final `store` of the size.
  abbrev pub stored :
      Result ℕ (CacheError rocks bincode) × RocksCache rocks bincode
      → Result ℕ (CacheError rocks bincode) × RocksCache rocks bincode
  stored (ok sz, s) = (ok sz, record s { db_size = sz })
  stored (err e, s) = (err e, s)

  -- From the size on: a round for each entry of the metadata, and one more, is fuel enough.
  unfoldable pub evict_from :
      ℕ
      → Result ℕ (CacheError rocks bincode) × RocksCache rocks bincode
      → Option (Result ℕ (CacheError rocks bincode) × RocksCache rocks bincode)
  evict_from until_size (err e, s) = some (err e, s)
  evict_from until_size (ok sz, s) =
      Option.map stored
        (evict_loop (suc (length (RocksDb.iterator_cf rocks meta_cf s.db))) until_size sz s)

  unfoldable pub evict_entries_fifo :
      (ℕ → SystemTime)
      → ℕ
      → RocksCache rocks bincode
      → Option (Result ℕ (CacheError rocks bincode) × RocksCache rocks bincode)
  unfolding evict_from
  evict_entries_fifo clock until_size s = evict_from until_size (
      (fetch_real_size rocks bincode (clock 0)
          >>= (λ _. get_db_size rocks bincode (clock 1) (clock 2)))
        s)
