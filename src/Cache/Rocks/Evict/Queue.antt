-- ===== src/Cache/Rocks/Evict/Queue.antt =====
-- src/cache/rocks.rs: the loops of `evict_entries_fifo`.

use scalpel.Common.{
  ℕ, ◌+◌, ◌-◌, ◌%◌, ◌<◌, Bytes, List, [], ◌∷◌, length, ok, none, some, ◌≡◌, refl, sym, ap, ◌∙◌,
  subst, arith, bytes_eq, bytes_eq_iff, Bool-cases, inl, inr,
}
use scalpel.Common.Assoc.{lookup, without, Distinct, lookup-without}
use scalpel.Utils.{u64_mod}
use scalpel.Cache.Entry.{ImageEntry, Bincode}
use scalpel.Cache.Rocks.Db.{meta_cf, RocksDb}
use scalpel.Cache.Rocks.Store.{RocksCache, drop_entry}
use scalpel.Cache.Rocks.Evict.{Item, Comparator, keep, keep_all, top_loop, find_top_entries}
use scalpel.Cache.Rocks.Entries.{
  total, total-without, length-without, entries, Readable, Readable-without, entries-without,
  entries-Distinct, iterated, drop_entry-eq-ok,
}
use scalpel.Cache.Rocks.Size.Exact.{images_of}
use scalpel.Cache.Rocks.Evict.Top.{From, top}

-- Each item of a queue is there when its turn comes.
abbrev pub Within : List Item → List Item → Type 0
Within [] es = Unit
Within (x ∷ q) es = (lookup x.0 es ≡ some x.1) × Within q (without x.0 es)

From-without :
    (k : Bytes) (es q : List Item) → lookup k q ≡ none → From es q → From (without k es) q
unfolding lookup
From-without k es [] fresh h = tt
From-without k es (x ∷ q) fresh h = (
  lookup-without k x.0 es ∙ ground (arith, bytes_eq_iff x.0 k, bytes_eq_iff k x.0),
  From-without k es q (ground arith) h.1,
)

pub From-Within : (es q : List Item) → Distinct q → From es q → Within q es
From-Within es [] d h = tt
From-Within es (x ∷ q) d h =
    (h.0, From-Within (without x.0 es) q d.1 (From-without x.0 es q d.0 h.1))

-- Every entry of the second list stands in the first.
abbrev pub Sub : List Item → List Item → Type 0
Sub es es' = (k : Bytes) (e : ImageEntry) → lookup k es' ≡ some e → lookup k es ≡ some e

pub Sub-without : (k : Bytes) (es : List Item) → Sub es (without k es)
Sub-without k es j e h = elim (Bool-cases (bytes_eq k j)) [
  | inl same ↦ absurd (ground (arith, lookup-without k j es))
  | inr differ ↦ ground (arith, lookup-without k j es)
]

module _ (rocks : RocksDb) (bincode : Bincode) where
  abbrev Cache : Type 0
  Cache = RocksCache rocks bincode

  abbrev pub items : RocksCache rocks bincode → List Item
  items s = images_of rocks bincode s

  -- `sz` is the exact size of a cache whose entries can all be read.
  pub record IsExact (s : RocksCache rocks bincode) (sz : ℕ) : Type 0 where
    pub readable : Readable bincode (iterated bincode rocks meta_cf s)
    pub sum : total (images_of rocks bincode s) ≡ sz
    pub fits : sz < u64_mod

  pub items-Distinct : (s : RocksCache rocks bincode) → Distinct (items s)
  items-Distinct s = entries-Distinct bincode _ (rocks.iterator-Distinct meta_cf s.db)

  top_loop-Readable :
      (n : ℕ) (comparator : Comparator) (l : List (Bytes × Bytes)) (acc : List Item) (s : Cache)
      → Readable bincode l
      → top_loop rocks bincode n comparator l acc s
        ≡ (ok (keep_all n comparator (entries bincode l) acc), s)
  unfolding top_loop keep_all entries
  top_loop-Readable n comparator [] acc s h = refl
  top_loop-Readable n comparator ((k, v) ∷ l) acc s ((entry, e), h) =
      rw (e, top_loop) (top_loop-Readable n comparator l (keep n comparator acc (k, entry)) s h)

  pub find_top_entries-Readable :
      (n : ℕ) (comparator : Comparator) (s : RocksCache rocks bincode)
      → Readable bincode (iterated bincode rocks meta_cf s)
      → find_top_entries rocks bincode n comparator s ≡ (ok (top n comparator (items s)), s)
  unfolding find_top_entries top
  find_top_entries-Readable n comparator s h =
      rw (top_loop-Readable n comparator (iterated bincode rocks meta_cf s) [] s h)

  -- One entry dropped.
  pub drop_entry-IsExact :
      (x : Item) (s : RocksCache rocks bincode) (sz : ℕ)
      → IsExact s sz
      → lookup x.0 (items s) ≡ some x.1
      → (drop_entry rocks bincode x.0 s).0 ≡ ok tt
      → IsExact (drop_entry rocks bincode x.0 s).1 ((sz + u64_mod - x.1.bytes_len) % u64_mod)
        × (items (drop_entry rocks bincode x.0 s).1 ≡ without x.0 (items s))
        × (length (items (drop_entry rocks bincode x.0 s).1) + 1 ≡ length (items s))
  drop_entry-IsExact x s sz exact found done =
      let gone = (drop_entry-eq-ok bincode rocks x.0 s done).0 in
      let left : items (drop_entry rocks bincode x.0 s).1 ≡ without x.0 (items s) =
        ap (entries bincode) gone
        ∙ entries-without bincode x.0 (iterated bincode rocks meta_cf s) in
      let less = total-without x.0 (items s) (items-Distinct s) found in
      (
        record {
          readable =
              subst (Readable bincode) (sym gone) (Readable-without bincode x.0 _ exact.readable);
          sum = ap total left ∙ omega (arith, less, exact.sum, exact.fits);
          fits = omega arith;
        },
        left,
        ap (λ l. length l + 1) left ∙ length-without x.0 (items s) (items-Distinct s) found,
      )
