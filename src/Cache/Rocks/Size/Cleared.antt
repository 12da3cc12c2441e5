-- ===== src/Cache/Rocks/Size/Cleared.antt =====
-- src/cache/rocks.rs: which bytes `fetch_real_size` drops.
use scalpel.Common.{
  ℕ, ◌+◌, ◌%◌, Bytes, List, [], ◌∷◌, ok, err, ◌≡◌, refl, sym, ap, ◌∙◌, Result-cases, inl, inr,
  Bool-cases, bytes_eq, bytes_eq→eq, Option, some, none, if◌then◌else◌,
}
use scalpel.Common.Assoc.{lookup, lookup-without, Distinct}
use scalpel.Common.Exec.{continue, continue-eq-ok}
use scalpel.Utils.{u64_mod}
use scalpel.Cache.Entry.{ImageEntry, Bincode}
use scalpel.Cache.Rocks.Db.{images_cf, RocksDb}
use scalpel.Cache.Rocks.Store.{RocksCache, drop_entry}
use scalpel.Cache.Rocks.Size.{fetch_loop}
use scalpel.Cache.Rocks.Entries.{iterated, drop_entry-eq-ok}

module _ (rocks : RocksDb) (bincode : Bincode) where
  abbrev Cache : Type 0
  Cache = RocksCache rocks bincode

  abbrev bytes_in : Cache → List (Bytes × Bytes)
  bytes_in s = iterated bincode rocks images_cf s

  -- What is left of the bytes under a key: nothing if it has metadata that cannot be read.
  abbrev pub left_of : Option Bytes → Option Bytes → Option Bytes
  left_of none image = image
  left_of (some v) image = elim (bincode.deserialize v) [ ok _ ↦ image | err _ ↦ none ]

  -- So it is for every key, with the metadata `rows`.
  abbrev pub Cleared : List (Bytes × Bytes) → Cache → Cache → Type 0
  Cleared rows s s' =
      (j : Bytes) → lookup j (bytes_in s') ≡ left_of (lookup j rows) (lookup j (bytes_in s))

  pub fetch_loop-read :
      (k v : Bytes) (rest : List (Bytes × Bytes)) (sz : ℕ) (s : Cache) {entry : ImageEntry}
      → bincode.deserialize v ≡ ok entry
      → fetch_loop rocks bincode ((k, v) ∷ rest) sz s
        ≡ fetch_loop rocks bincode rest ((sz + entry.bytes_len) % u64_mod) s
  unfolding fetch_loop
  fetch_loop-read k v rest sz s e = rw (e, fetch_loop)

  pub fetch_loop-unread :
      (k v : Bytes) (rest : List (Bytes × Bytes)) (sz : ℕ) (s : Cache) {b : Bincode.Error bincode}
      → bincode.deserialize v ≡ err b
      → fetch_loop rocks bincode ((k, v) ∷ rest) sz s
        ≡ continue
            (drop_entry rocks bincode k s).0
            (λ _. fetch_loop rocks bincode rest sz)
            (drop_entry rocks bincode k s).1
  unfolding fetch_loop
  fetch_loop-unread k v rest sz s e = rw (e, fetch_loop)

  -- The bytes that the loop leaves.
  pub fetch_loop-Cleared :
      (rows : List (Bytes × Bytes)) (sz : ℕ) (s : Cache) {sz' : ℕ}
      → Distinct rows
      → (fetch_loop rocks bincode rows sz s).0 ≡ ok sz'
      → Cleared rows s (fetch_loop rocks bincode rows sz s).1
  unfolding fetch_loop lookup
  fetch_loop-Cleared [] sz s distinct h j = refl
  fetch_loop-Cleared ((k, v) ∷ rest) sz s (absent, distinct) h j =
      elim (Result-cases (bincode.deserialize v)) [
        | inl (entry, e) ↦
            let next = (sz + ImageEntry.bytes_len entry) % u64_mod in
            let run = fetch_loop-read k v rest sz s e in
            let later = fetch_loop-Cleared rest next s distinct (sym (ap (λ r. r.0) run) ∙ h) j in
            rw run (later ∙ of_read k v rest entry s e absent j)
        | inr (b, e) ↦
            let run = fetch_loop-unread k v rest sz s e in
            let (_, done, ran) =
              continue-eq-ok _ (λ _. fetch_loop rocks bincode rest sz) _
                (sym (ap (λ r. r.0) run) ∙ h) in
            let s₁ = (drop_entry rocks bincode k s).1 in
            let whole = run ∙ ran in
            let later = fetch_loop-Cleared rest sz s₁ distinct (sym (ap (λ r. r.0) whole) ∙ h) j in
            rw whole (later ∙ of_unread k v rest s e absent done j)
      ]
    where
      of_read :
          (k v : Bytes) (rest : List (Bytes × Bytes)) (entry : ImageEntry) (s : Cache)
          → bincode.deserialize v ≡ ok entry
          → lookup k rest ≡ none
          → (j : Bytes)
          → left_of (lookup j rest) (lookup j (bytes_in s))
            ≡ left_of (if bytes_eq k j then some v else lookup j rest) (lookup j (bytes_in s))
      of_read k v rest entry s e absent j = elim (Bool-cases (bytes_eq k j)) [
        | inr differ ↦ rw differ refl
        | inl same ↦
            let at = bytes_eq→eq k j same in
            let gone : lookup j rest ≡ none = ap (λ i. lookup i rest) (sym at) ∙ absent in
            rw (same, gone, e) refl
      ]

      of_unread :
          (k v : Bytes) (rest : List (Bytes × Bytes)) (s : Cache) {b : Bincode.Error bincode}
          → bincode.deserialize v ≡ err b
          → lookup k rest ≡ none
          → (drop_entry rocks bincode k s).0 ≡ ok tt
          → (j : Bytes)
          → left_of (lookup j rest) (lookup j (bytes_in (drop_entry rocks bincode k s).1))
            ≡ left_of (if bytes_eq k j then some v else lookup j rest) (lookup j (bytes_in s))
      of_unread k v rest s e absent done j =
          let dropped = (drop_entry-eq-ok bincode rocks k s done).1 in
          let left : lookup j (bytes_in (drop_entry rocks bincode k s).1)
              ≡ (if bytes_eq k j then none else lookup j (bytes_in s)) =
            ap (lookup j) dropped ∙ lookup-without k j (bytes_in s) in
          elim (Bool-cases (bytes_eq k j)) [
            | inr differ ↦ rw (left, differ) refl
            | inl same ↦
                let at = bytes_eq→eq k j same in
                let gone : lookup j rest ≡ none = ap (λ i. lookup i rest) (sym at) ∙ absent in
                rw (left, same, gone, e) refl
          ]
