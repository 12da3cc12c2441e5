-- ===== src/Cache/Rocks/Entries.antt =====
-- The entries of the metadata that can be read, as the loops of src/cache/rocks.rs see them, and
-- what dropping one does to them.
use scalpel.Common.{
  ℕ, ◌+◌, Bytes, false, List, [], ◌∷◌, ◌++◌, length, Result, ok, err, map_err-eq-ok, none, some,
  if◌then◌else◌, ◌≡◌, refl, sym, ap, ◌∙◌, arith, bytes_eq, bytes_eq_iff, inl, inr, Bool-cases,
}
use scalpel.Common.Assoc.{lookup, without, Distinct, without_absent}
use scalpel.Common.Exec.{continue-eq-ok}
use scalpel.Cache.Entry.{ImageEntry, Bincode}
use scalpel.Cache.Rocks.Db.{Cf, images_cf, meta_cf, RocksDb}
use scalpel.Cache.Rocks.Store.{RocksCache, db_op, drop_entry, rocks_error}
use scalpel.Cache.Rocks.Evict.{Item}

-- The sum of the sizes of images.
unfoldable pub total : List Item → ℕ
total [] = 0
total (x ∷ xs) = x.1.bytes_len + total xs

pub total-without :
    (k : Bytes) (es : List Item) {e : ImageEntry}
    → Distinct es
    → lookup k es ≡ some e
    → total (without k es) + e.bytes_len ≡ total es
unfolding total lookup without
total-without k [] d h = cc
total-without k ((j, f) ∷ es) {e} d h = elim (Bool-cases (bytes_eq j k)) [
  | inl same ↦ ground (arith, without_absent k es, bytes_eq_iff j k)
  | inr differ ↦ ground (arith, total-without k es {e = e} d.1)
]

pub length-without :
    (k : Bytes) (es : List Item) {e : ImageEntry}
    → Distinct es
    → lookup k es ≡ some e
    → length (without k es) + 1 ≡ length es
unfolding lookup without
length-without k [] d h = cc
length-without k ((j, f) ∷ es) {e} d h = elim (Bool-cases (bytes_eq j k)) [
  | inl same ↦ ground (arith, without_absent k es, bytes_eq_iff j k)
  | inr differ ↦ ground (arith, length-without k es {e = e} d.1)
]

module _ (bincode : Bincode) where
  -- A read entry in front, if reading succeeded.
  abbrev pub put_entry : Bytes → Result ImageEntry (Bincode.Error bincode) → List Item → List Item
  put_entry k (ok entry) l = (k, entry) ∷ l
  put_entry k (err _) l = l

  unfoldable pub entries : List (Bytes × Bytes) → List Item
  entries [] = []
  entries ((k, v) ∷ l) = put_entry k (bincode.deserialize v) (entries l)

  -- Every entry can be read.
  abbrev pub Readable : List (Bytes × Bytes) → Type 0
  Readable [] = Unit
  Readable ((k, v) ∷ l) = ((entry : ImageEntry) × (bincode.deserialize v ≡ ok entry)) × Readable l

  put_entry-append :
      (k : Bytes) (r : Result ImageEntry (Bincode.Error bincode)) (p l : List Item)
      → put_entry k r (p ++ l) ≡ put_entry k r p ++ l
  put_entry-append k (ok entry) p l = refl
  put_entry-append k (err e) p l = refl

  pub entries-append : (p l : List (Bytes × Bytes)) → entries (p ++ l) ≡ entries p ++ entries l
  unfolding entries
  entries-append [] l = refl
  entries-append ((k, v) ∷ p) l =
      ap (put_entry k (bincode.deserialize v)) (entries-append p l)
      ∙ put_entry-append k (bincode.deserialize v) (entries p) (entries l)

  pub Readable-append : (p l : List (Bytes × Bytes)) → Readable p → Readable l → Readable (p ++ l)
  Readable-append [] l hp hl = hl
  Readable-append ((k, v) ∷ p) l hp hl = (hp.0, Readable-append p l hp.1 hl)

  pub Readable-without :
      (k : Bytes) (l : List (Bytes × Bytes)) → Readable l → Readable (without k l)
  unfolding without
  Readable-without k [] h = h
  Readable-without k ((j, v) ∷ l) h = elim (Bool-cases (bytes_eq j k)) [
    | inl same ↦ rw same (Readable-without k l h.1)
    | inr differ ↦ rw differ (h.0, Readable-without k l h.1)
  ]

  without-put_entry :
      (k j : Bytes) (r : Result ImageEntry (Bincode.Error bincode)) (l : List Item)
      → without k (put_entry j r l)
        ≡ (if bytes_eq j k then without k l else put_entry j r (without k l))
  unfolding without
  without-put_entry k j (ok entry) l = refl
  without-put_entry k j (err e) l = ground arith

  pub entries-without :
      (k : Bytes) (l : List (Bytes × Bytes)) → entries (without k l) ≡ without k (entries l)
  unfolding entries without
  entries-without k [] = refl
  entries-without k ((j, v) ∷ l) =
      rw (without-put_entry k j (bincode.deserialize v) (entries l))
        (elim (Bool-cases (bytes_eq j k)) [
          | inl same ↦ rw same (entries-without k l)
          | inr differ ↦ rw differ (ap (put_entry j (bincode.deserialize v)) (entries-without k l))
        ])

  lookup-put_entry :
      (k j : Bytes) (r : Result ImageEntry (Bincode.Error bincode)) (l : List Item)
      → bytes_eq j k ≡ false
      → lookup k (put_entry j r l) ≡ lookup k l
  unfolding lookup
  lookup-put_entry k j (ok entry) l h = rw h
  lookup-put_entry k j (err e) l h = refl

  lookup-entries :
      (k : Bytes) (l : List (Bytes × Bytes)) → lookup k l ≡ none → lookup k (entries l) ≡ none
  unfolding entries lookup
  lookup-entries k [] h = refl
  lookup-entries k ((j, v) ∷ l) h = elim (Bool-cases (bytes_eq j k)) [
    | inl same ↦ absurd (ground arith)
    | inr differ ↦
        lookup-put_entry k j (bincode.deserialize v) (entries l) differ
        ∙ lookup-entries k l (ground arith)
  ]

  put_entry-Distinct :
      (k : Bytes) (r : Result ImageEntry (Bincode.Error bincode)) (l : List Item)
      → lookup k l ≡ none
      → Distinct l
      → Distinct (put_entry k r l)
  put_entry-Distinct k (ok entry) l fresh d = (fresh, d)
  put_entry-Distinct k (err e) l fresh d = d

  pub entries-Distinct : (l : List (Bytes × Bytes)) → Distinct l → Distinct (entries l)
  unfolding entries
  entries-Distinct [] d = d
  entries-Distinct ((k, v) ∷ l) d =
      put_entry-Distinct k (bincode.deserialize v) (entries l) (lookup-entries k l d.0)
        (entries-Distinct l d.1)

  module _ (rocks : RocksDb) where
    -- The metadata and the images of a cache.
    abbrev pub iterated : Cf → RocksCache rocks bincode → List (Bytes × Bytes)
    iterated cf s = RocksDb.iterator_cf rocks cf s.db

    db_op-ok :
        {A : Type 0} (op : RocksDb.Db rocks → Result A (RocksDb.Error rocks) × RocksDb.Db rocks)
        (s : RocksCache rocks bincode) {a : A}
        → (db_op rocks bincode op s).0 ≡ ok a
        → op s.db ≡ (ok a, (op s.db).1)
    db_op-ok op s h = λ i. (map_err-eq-ok rocks_error (op s.db).0 h i, (op s.db).1)

    -- An entry that is dropped is gone from both column families, and nothing else is.
    pub drop_entry-eq-ok :
        (k : Bytes) (s : RocksCache rocks bincode)
        → (drop_entry rocks bincode k s).0 ≡ ok tt
        → (iterated meta_cf (drop_entry rocks bincode k s).1 ≡ without k (iterated meta_cf s))
          × (iterated images_cf (drop_entry rocks bincode k s).1 ≡ without k (iterated images_cf s))
    unfolding drop_entry
    drop_entry-eq-ok k s h =
        let images = db_op rocks bincode (RocksDb.delete_cf rocks images_cf k) in
        let meta = db_op rocks bincode (RocksDb.delete_cf rocks meta_cf k) in
        let (_, first, ran) = continue-eq-ok (images s).0 (λ _. meta) (images s).1 h in
        let second = sym (ap (λ r. r.0) ran) ∙ h in
        let d₁ = db_op-ok (RocksDb.delete_cf rocks images_cf k) s first in
        let d₂ = db_op-ok (RocksDb.delete_cf rocks meta_cf k) (images s).1 second in
        rw ran (
          rocks.iterator-delete meta_cf meta_cf k (images s).1.db d₂
              ∙ ap (without k) (rocks.iterator-delete images_cf meta_cf k s.db d₁),
          rocks.iterator-delete meta_cf images_cf k (images s).1.db d₂
              ∙ rocks.iterator-delete images_cf images_cf k s.db d₁,
        )
