-- ===== src/Cache/Rocks/Evict/Found.antt =====
-- src/cache/rocks.rs, `find_top_entries`: which entries a queue holds, of metadata that can be read.
use Prim.Native.Nat.{min}
use scalpel.Common.{
  ℕ, ◌≤◌, ◌<◌, List, [], ◌∷◌, ◌++◌, length, ok, none, ◌≡◌, sym, ap, ◌∙◌, subst, All,
}
use scalpel.Common.Assoc.{lookup, Distinct}
use scalpel.Cache.Entry.{Bincode}
use scalpel.Cache.Rocks.Db.{meta_cf, RocksDb}
use scalpel.Cache.Rocks.Store.{RocksCache}
use scalpel.Cache.Rocks.Entries.{Readable, iterated}
use scalpel.Cache.Rocks.Evict.{Item, Comparator, older, find_top_entries}
use scalpel.Cache.Rocks.Evict.Top.{From, top, top-From}
use scalpel.Cache.Rocks.Evict.Oldest.{IsSorted, time, top-oldest, top_forgets}
use scalpel.Cache.Rocks.Evict.Queue.{items, items-Distinct, find_top_entries-Readable}

module _ (rocks : RocksDb) (bincode : Bincode) (n : ℕ) (s : RocksCache rocks bincode) where
  -- If all metadata can be read, `find_top_entries` changes nothing and returns as many entries as
  -- there are, up to `n`, each of them an entry of the cache, and none twice.
  pub find_top_entries-From :
      (comparator : Comparator)
      → Readable bincode (iterated bincode rocks meta_cf s)
      → (q : List Item) × (find_top_entries rocks bincode n comparator s ≡ (ok q, s))
        × (length q ≡ min n (length (items rocks bincode s)))
        × Distinct q
        × From (items rocks bincode s) q
  find_top_entries-From comparator readable =
      let (count, distinct, from) =
        top-From n comparator (items rocks bincode s) (items-Distinct rocks bincode s) in
      (
        top n comparator (items rocks bincode s),
        find_top_entries-Readable rocks bincode n comparator s readable,
        count,
        distinct,
        from,
      )

  found_queue :
      {q : List Item} {s' : RocksCache rocks bincode}
      → Readable bincode (iterated bincode rocks meta_cf s)
      → find_top_entries rocks bincode n older s ≡ (ok q, s')
      → top n older (items rocks bincode s) ≡ q
  found_queue readable h =
      cc (ap (λ r. r.0) (sym (find_top_entries-Readable rocks bincode n older s readable) ∙ h))

  -- If all metadata can be read, a queue that `find_top_entries` returns for eviction is in order
  -- of age, and its first entry is an oldest one of all entries.
  pub find_top_entries-oldest :
      {x : Item} {q : List Item} {s' : RocksCache rocks bincode}
      → Readable bincode (iterated bincode rocks meta_cf s)
      → 0 < n
      → find_top_entries rocks bincode n older s ≡ (ok (x ∷ q), s')
      → IsSorted (x ∷ q) × All (λ y. time x ≤ time y) (items rocks bincode s)
  find_top_entries-oldest {x} {q} {s'} readable pos h =
      top-oldest n (items rocks bincode s) q x pos (found_queue {q = x ∷ q} {s' = s'} readable h)

  -- If the metadata is `n` readable entries `y ∷ ys`, and then one that is older than `y`, the queue
  -- that `find_top_entries` returns for eviction does not hold `y`, even if `y` is older than all of
  -- `ys`: it need not hold the `n` oldest entries.
  pub find_top_entries_forgets :
      (x y : Item) (ys : List Item)
      → Readable bincode (iterated bincode rocks meta_cf s)
      → items rocks bincode s ≡ y ∷ ys ++ x ∷ []
      → length (y ∷ ys) ≡ n
      → time x < time y
      → (q : List Item) × (find_top_entries rocks bincode n older s ≡ (ok q, s))
        × (lookup y.0 q ≡ none)
  find_top_entries_forgets x y ys readable all full lt = (
    top n older (items rocks bincode s),
    find_top_entries-Readable rocks bincode n older s readable,
    subst (λ es. lookup y.0 (top n older es) ≡ none) (sym all)
        (top_forgets n x y ys (subst Distinct all (items-Distinct rocks bincode s)) full lt),
  )
