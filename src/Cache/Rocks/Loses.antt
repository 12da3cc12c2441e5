-- ===== src/Cache/Rocks/Loses.antt =====
-- src/cache/rocks.rs: counting and evicting take entries away and change no other, whether they
-- succeed, fail on the way, or do not end.
use scalpel.Common.{
  ℕ, zero, suc, ◌+◌, ◌-◌, ◌%◌, Bytes, Bool, true, false, List, [], ◌∷◌, length, Result, ok, err,
  Option, none, some, ltb, leb, ◌≡◌, refl, ◌∙◌, ◌⊎◌, inl, inr, Bool-cases, Result-cases,
}
use mathlib.Core.Option
use scalpel.Common.Exec.{continue}
use scalpel.Common.Assoc.{lookup}
use scalpel.Utils.{u64_mod, SystemTime, now_as_millis}
use scalpel.Cache.Entry.{ImageEntry, Bincode}
use scalpel.Cache.Rocks.Db.{Cf, images_cf, meta_cf, RocksDb}
use scalpel.Cache.Rocks.Store.{CacheError, RocksCache, Method, drop_entry, db_op}
use scalpel.Cache.Rocks.Size.{min_time, fetch_loop, fetch_real_size, get_db_size}
use scalpel.Cache.Rocks.Evict.{
  Item, Comparator, older, keep, top_loop, find_top_entries, drop_queue, after_queue, round,
  evict_loop, evict_from, evict_entries_fifo, stored,
}
use scalpel.Cache.Rocks.Store.RoundTrip.{entries_of}

module _ (rocks : RocksDb) (bincode : Bincode) where
  abbrev Cache : Type 0
  Cache = RocksCache rocks bincode

  -- Every value that is still there was there before, and the same puts are in flight.
  abbrev pub IsLess : Cache → Cache → Type 0
  IsLess s s' =
      ((c : Cf) (j : Bytes)
        → (lookup j (entries_of rocks bincode c s') ≡ lookup j (entries_of rocks bincode c s))
          ⊎ (lookup j (entries_of rocks bincode c s') ≡ none))
      × (s'.in_flight ≡ s.in_flight)

  pub IsLess-refl : (s : Cache) → IsLess s s
  IsLess-refl s = (λ c j. inl refl, refl)

  pub IsLess-trans : (s t u : Cache) → IsLess s t → IsLess t u → IsLess s u
  IsLess-trans s t u (a, p) (b, q) = (
    λ c j. elim (a c j) [
      | inl kept ↦ elim (b c j) [ inl again ↦ inl (again ∙ kept) | inr gone ↦ inr gone ]
      | inr gone ↦ elim (b c j) [ inl same ↦ inr (same ∙ gone) | inr again ↦ inr again ]
    ],
    q ∙ p,
  )

  -- What a method does next loses no more than it does.
  continue-IsLess :
      {A B : Type 0} (s₀ : Cache) (r : Result A (CacheError rocks bincode))
      (f : A → Method rocks bincode B) (s : Cache)
      → IsLess s₀ s
      → ((a : A) (t : Cache) → IsLess s₀ t → IsLess s₀ (f a t).1)
      → IsLess s₀ (continue r f s).1
  continue-IsLess s₀ (ok a) f s h next = next a s h
  continue-IsLess s₀ (err e) f s h next = h

  delete-IsLess :
      (c : Cf) (k : Bytes) (s₀ s : Cache)
      → IsLess s₀ s
      → IsLess s₀ (db_op rocks bincode (RocksDb.delete_cf rocks c k) s).1
  delete-IsLess c k s₀ s h =
      let deleted = db_op rocks bincode (RocksDb.delete_cf rocks c k) s in
      IsLess-trans s₀ s deleted.1 h (λ d j. rocks.lookup-delete c d k j s.db refl, refl)

  pub drop_entry-IsLess :
      (k : Bytes) (s₀ s : Cache) → IsLess s₀ s → IsLess s₀ (drop_entry rocks bincode k s).1
  unfolding drop_entry
  drop_entry-IsLess k s₀ s h =
      let deleted = db_op rocks bincode (RocksDb.delete_cf rocks images_cf k) s in
      continue-IsLess s₀ deleted.0 (λ _. db_op rocks bincode (RocksDb.delete_cf rocks meta_cf k))
        deleted.1 (delete-IsLess images_cf k s₀ s h) (λ _ t l. delete-IsLess meta_cf k s₀ t l)

  fetch_loop-IsLess :
      (rows : List (Bytes × Bytes)) (sz : ℕ) (s₀ s : Cache)
      → IsLess s₀ s
      → IsLess s₀ (fetch_loop rocks bincode rows sz s).1
  unfolding fetch_loop
  fetch_loop-IsLess [] sz s₀ s h = h
  fetch_loop-IsLess ((key, val) ∷ rest) sz s₀ s h = elim (Result-cases (bincode.deserialize val)) [
    | inl (entry, read) ↦
        rw (read, fetch_loop)
          (fetch_loop-IsLess rest ((sz + ImageEntry.bytes_len entry) % u64_mod) s₀ s h)
    | inr (e, failed) ↦
        rw (failed, fetch_loop)
          (continue-IsLess s₀ (drop_entry rocks bincode key s).0
            (λ _. fetch_loop rocks bincode rest sz) (drop_entry rocks bincode key s).1
            (drop_entry-IsLess key s₀ s h) (λ _ t l. fetch_loop-IsLess rest sz s₀ t l))
  ]

  pub fetch_real_size-IsLess :
      (now : SystemTime) (s₀ s : Cache)
      → IsLess s₀ s
      → IsLess s₀ (fetch_real_size rocks bincode now s).1
  unfolding fetch_real_size
  fetch_real_size-IsLess now s₀ s h =
      let rows = entries_of rocks bincode meta_cf s in
      continue-IsLess s₀ (fetch_loop rocks bincode rows 0 s).0 _
        (fetch_loop rocks bincode rows 0 s).1 (fetch_loop-IsLess rows 0 s₀ s h) (λ _ t l. l)

  pub get_db_size-IsLess :
      (now counted : SystemTime) (s₀ s : Cache)
      → IsLess s₀ s
      → IsLess s₀ (get_db_size rocks bincode now counted s).1
  unfolding get_db_size
  get_db_size-IsLess now counted s₀ s h =
      elim (Bool-cases (ltb min_time ((now_as_millis now + u64_mod - s.last_fetch) % u64_mod))) [
        | inl old ↦ rw old (
            continue-IsLess s₀ (fetch_real_size rocks bincode counted s).0 _
              (fetch_real_size rocks bincode counted s).1 (fetch_real_size-IsLess counted s₀ s h)
              (λ _ t l. l))
        | inr fresh ↦ rw fresh h
      ]

  top_loop-IsLess :
      (n : ℕ) (comparator : Comparator) (rows : List (Bytes × Bytes)) (acc : List Item)
      (s₀ s : Cache)
      → IsLess s₀ s
      → IsLess s₀ (top_loop rocks bincode n comparator rows acc s).1
  unfolding top_loop
  top_loop-IsLess n comparator [] acc s₀ s h = h
  top_loop-IsLess n comparator ((key, val) ∷ rest) acc s₀ s h =
      elim (Result-cases (bincode.deserialize val)) [
        | inl (entry, read) ↦
            rw (read, top_loop)
              (top_loop-IsLess n comparator rest (keep n comparator acc (key, entry)) s₀ s h)
        | inr (e, failed) ↦
            rw (failed, top_loop)
              (continue-IsLess s₀ (drop_entry rocks bincode key s).0
                (λ _. top_loop rocks bincode n comparator rest acc)
                (drop_entry rocks bincode key s).1 (drop_entry-IsLess key s₀ s h)
                (λ _ t l. top_loop-IsLess n comparator rest acc s₀ t l))
      ]

  find_top_entries-IsLess :
      (n : ℕ) (comparator : Comparator) (s₀ s : Cache)
      → IsLess s₀ s
      → IsLess s₀ (find_top_entries rocks bincode n comparator s).1
  unfolding find_top_entries
  find_top_entries-IsLess n comparator s₀ s h =
      let rows = entries_of rocks bincode meta_cf s in
      let top = top_loop rocks bincode n comparator rows [] s in
      continue-IsLess s₀ top.0 _ top.1 (top_loop-IsLess n comparator rows [] s₀ s h) (λ _ t l. l)

  drop_queue-IsLess :
      (until_size : ℕ) (queue : List Item) (sz : ℕ) (s₀ s : Cache)
      → IsLess s₀ s
      → IsLess s₀ (drop_queue rocks bincode until_size queue sz s).1
  unfolding drop_queue
  drop_queue-IsLess until_size [] sz s₀ s h = h
  drop_queue-IsLess until_size ((key, entry) ∷ queue) sz s₀ s h =
      let sz' = (sz + u64_mod - ImageEntry.bytes_len entry) % u64_mod in
      let dropped = drop_entry rocks bincode key s in
      continue-IsLess s₀ dropped.0 _ dropped.1 (drop_entry-IsLess key s₀ s h) (λ _ t l.
        elim (Bool-cases (leb sz' until_size)) [
          | inl enough ↦ rw enough l
          | inr more ↦ rw more (drop_queue-IsLess until_size queue sz' s₀ t l)
        ])

  -- The outcome of an eviction, if it ends.
  abbrev pub EndsLess : Cache → Option (Result ℕ (CacheError rocks bincode) × Cache) → Type 0
  EndsLess s₀ none = Unit
  EndsLess s₀ (some (r, s)) = IsLess s₀ s

  after_queue-EndsLess :
      (again : ℕ → Cache → Option (Result ℕ (CacheError rocks bincode) × Cache)) (s₀ : Cache)
      (ran : Result (Bool × ℕ) (CacheError rocks bincode) × Cache)
      → IsLess s₀ ran.1
      → ((sz : ℕ) (t : Cache) → IsLess s₀ t → EndsLess s₀ (again sz t))
      → EndsLess s₀ (after_queue rocks bincode again ran)
  unfolding after_queue
  after_queue-EndsLess again s₀ (err e, s) h next = h
  after_queue-EndsLess again s₀ (ok (true, sz), s) h next = h
  after_queue-EndsLess again s₀ (ok (false, sz), s) h next = next sz s h

  round-EndsLess :
      (again : ℕ → Cache → Option (Result ℕ (CacheError rocks bincode) × Cache)) (until_size sz : ℕ)
      (s₀ : Cache) (top : Result (List Item) (CacheError rocks bincode) × Cache)
      → IsLess s₀ top.1
      → ((sz : ℕ) (t : Cache) → IsLess s₀ t → EndsLess s₀ (again sz t))
      → EndsLess s₀ (round rocks bincode again until_size sz top)
  unfolding round
  round-EndsLess again until_size sz s₀ (err e, s) h next = h
  round-EndsLess again until_size sz s₀ (ok [], s) h next = h
  round-EndsLess again until_size sz s₀ (ok (x ∷ queue), s) h next =
      after_queue-EndsLess again s₀ (drop_queue rocks bincode until_size (x ∷ queue) sz s)
        (drop_queue-IsLess until_size (x ∷ queue) sz s₀ s h) next

  evict_loop-EndsLess :
      (fuel until_size sz : ℕ) (s₀ s : Cache)
      → IsLess s₀ s
      → EndsLess s₀ (evict_loop rocks bincode fuel until_size sz s)
  unfolding evict_loop
  evict_loop-EndsLess zero until_size sz s₀ s h = tt
  evict_loop-EndsLess (suc fuel) until_size sz s₀ s h =
      round-EndsLess (evict_loop rocks bincode fuel until_size) until_size sz s₀
        (find_top_entries rocks bincode 256 older s) (find_top_entries-IsLess 256 older s₀ s h)
        (λ sz t l. evict_loop-EndsLess fuel until_size sz s₀ t l)

  stored-EndsLess :
      (s₀ : Cache) (o : Option (Result ℕ (CacheError rocks bincode) × Cache))
      → EndsLess s₀ o
      → EndsLess s₀ (Option.map (stored rocks bincode) o)
  stored-EndsLess s₀ none h = tt
  stored-EndsLess s₀ (some (ok sz, s)) h = h
  stored-EndsLess s₀ (some (err e, s)) h = h

  evict_from-EndsLess :
      (until_size : ℕ) (s₀ : Cache) (sized : Result ℕ (CacheError rocks bincode) × Cache)
      → IsLess s₀ sized.1
      → EndsLess s₀ (evict_from rocks bincode until_size sized)
  unfolding evict_from
  evict_from-EndsLess until_size s₀ (err e, s) h = h
  evict_from-EndsLess until_size s₀ (ok sz, s) h =
      let rows = entries_of rocks bincode meta_cf s in
      stored-EndsLess s₀ (evict_loop rocks bincode (suc (length rows)) until_size sz s)
        (evict_loop-EndsLess (suc (length rows)) until_size sz s₀ s h)

  pub evict_entries_fifo-EndsLess :
      (clock : ℕ → SystemTime) (until_size : ℕ) (s : RocksCache rocks bincode)
      → EndsLess s (evict_entries_fifo rocks bincode clock until_size s)
  unfolding evict_entries_fifo
  evict_entries_fifo-EndsLess clock until_size s =
      let counted = fetch_real_size rocks bincode (clock 0) s in
      evict_from-EndsLess until_size s
        (continue counted.0 (λ _. get_db_size rocks bincode (clock 1) (clock 2)) counted.1)
        (continue-IsLess s counted.0 _ counted.1
          (fetch_real_size-IsLess (clock 0) s s (IsLess-refl s))
          (λ _ t l. get_db_size-IsLess (clock 1) (clock 2) s t l))
