-- ===== src/Cache/Rocks/Size/Exact.antt =====
-- src/cache/rocks.rs: `fetch_real_size` counts what can be read and drops the rest.
use scalpel.Common.{
  ℕ, ◌+◌, ◌-◌, ◌%◌, ◌<◌, Bytes, List, [], ◌∷◌, ◌++◌, Result, ok, err, map_ok-eq-ok, ltb, ◌≡◌, refl,
  sym, ap, ◌∙◌, subst, arith, Result-cases, inl, inr, Bool-cases, append_assoc,
}
use scalpel.Common.Assoc.{lookup, without, Distinct, without-middle}
use scalpel.Common.Exec.{continue, continue-eq-ok, modify, gets}
use scalpel.Utils.{u64_mod, SystemTime, now_as_millis}
use scalpel.Cache.Entry.{ImageEntry, Bincode}
use scalpel.Cache.Rocks.Db.{images_cf, meta_cf, RocksDb}
use scalpel.Cache.Rocks.Store.{CacheError, RocksCache, drop_entry}
use scalpel.Cache.Rocks.Size.{min_time, fetch_loop, fetch_real_size, get_db_size, open_cache}
use scalpel.Cache.Rocks.Size.Cleared.{
  left_of, fetch_loop-read, fetch_loop-unread, fetch_loop-Cleared,
}
use scalpel.Cache.Rocks.Evict.{Item}
use scalpel.Cache.Rocks.Entries.{
  total, entries, Readable, entries-append, Readable-append, iterated, drop_entry-eq-ok,
}

module _ (rocks : RocksDb) (bincode : Bincode) where
  abbrev Cache : Type 0
  Cache = RocksCache rocks bincode

  abbrev meta : Cache → List (Bytes × Bytes)
  meta s = iterated bincode rocks meta_cf s

  -- The readable entries of the metadata.
  abbrev pub images_of : Cache → List Item
  images_of s = entries bincode (meta s)

  -- What a count that succeeds leaves: all metadata can be read, what could be read is as before,
  -- and the bytes are gone exactly under the keys of the metadata that could not.
  abbrev pub IsClean : Cache → Cache → Type 0
  IsClean s s' =
      Readable bincode (iterated bincode rocks meta_cf s')
      × (images_of s' ≡ images_of s)
      × ((j : Bytes)
          → lookup j (iterated bincode rocks images_cf s')
            ≡ left_of rocks bincode (lookup j (iterated bincode rocks meta_cf s))
                (lookup j (iterated bincode rocks images_cf s)))

  -- The part of it about the metadata.
  abbrev IsRead : Cache → Cache → Type 0
  IsRead s s' = Readable bincode (iterated bincode rocks meta_cf s') × (images_of s' ≡ images_of s)

  entries-read :
      (k v : Bytes) (l : List (Bytes × Bytes)) {entry : ImageEntry}
      → bincode.deserialize v ≡ ok entry
      → entries bincode ((k, v) ∷ l) ≡ (k, entry) ∷ entries bincode l
  unfolding entries
  entries-read k v l e = rw e

  entries-unread :
      (k v : Bytes) (l : List (Bytes × Bytes)) {b : Bincode.Error bincode}
      → bincode.deserialize v ≡ err b
      → entries bincode ((k, v) ∷ l) ≡ entries bincode l
  unfolding entries
  entries-unread k v l e = rw e

  -- An unreadable entry that is dropped takes nothing else with it.
  meta-drop_entry :
      (good rest : List (Bytes × Bytes)) (k v : Bytes) (s : Cache)
      → meta s ≡ good ++ (k, v) ∷ rest
      → (drop_entry rocks bincode k s).0 ≡ ok tt
      → meta (drop_entry rocks bincode k s).1 ≡ good ++ rest
  meta-drop_entry good rest k v s at done =
      (drop_entry-eq-ok bincode rocks k s done).0
      ∙ (ap (without k) at
          ∙ without-middle good rest k v (subst Distinct at (rocks.iterator-Distinct meta_cf s.db)))

  images_of-drop_entry :
      (good rest : List (Bytes × Bytes)) (k v : Bytes) (s : Cache) {b : Bincode.Error bincode}
      → meta s ≡ good ++ (k, v) ∷ rest
      → bincode.deserialize v ≡ err b
      → (drop_entry rocks bincode k s).0 ≡ ok tt
      → images_of (drop_entry rocks bincode k s).1 ≡ images_of s
  images_of-drop_entry good rest k v s at e done =
      ap (entries bincode) (meta-drop_entry good rest k v s at done)
      ∙ (entries-append bincode good rest
          ∙ (ap (◌++◌ (entries bincode good)) (sym (entries-unread k v rest e))
              ∙ (sym (entries-append bincode good ((k, v) ∷ rest))
                  ∙ ap (entries bincode) (sym at))))

  -- The loop, with `good` already counted.
  fetch_loop-eq-ok :
      (good rest : List (Bytes × Bytes)) (sz : ℕ) (s : Cache) {sz' : ℕ}
      → sz < u64_mod
      → meta s ≡ good ++ rest
      → Readable bincode good
      → (fetch_loop rocks bincode rest sz s).0 ≡ ok sz'
      → IsRead s (fetch_loop rocks bincode rest sz s).1
        × (sz' ≡ (sz + total (entries bincode rest)) % u64_mod)
  unfolding fetch_loop total entries
  fetch_loop-eq-ok good [] sz s {sz'} fits at readable h = (
    (subst (Readable bincode) (sym at) (Readable-append bincode good [] readable tt), refl),
    ground arith,
  )
  fetch_loop-eq-ok good ((k, v) ∷ rest) sz s {sz'} fits at readable h =
      elim (Result-cases (bincode.deserialize v)) [
        | inl (entry, e) ↦
            let next = (sz + ImageEntry.bytes_len entry) % u64_mod in
            let run = fetch_loop-read rocks bincode k v rest sz s e in
            let (clean, counted) =
              fetch_loop-eq-ok (good ++ (k, v) ∷ []) rest next s (omega arith)
                (at ∙ sym (append_assoc good ((k, v) ∷ []) rest))
                (Readable-append bincode good _ readable ((entry, e), tt))
                (sym (ap (λ r. r.0) run) ∙ h) in
            rw run (clean, rw (entries-read k v rest e) (omega (arith, counted)))
        | inr (b, e) ↦
            let run = fetch_loop-unread rocks bincode k v rest sz s e in
            let (_, done, ran) =
              continue-eq-ok _ (λ _. fetch_loop rocks bincode rest sz) _
                (sym (ap (λ r. r.0) run) ∙ h) in
            let s₁ = (drop_entry rocks bincode k s).1 in
            let whole = run ∙ ran in
            let (clean, counted) =
              fetch_loop-eq-ok good rest sz s₁ fits (meta-drop_entry good rest k v s at done)
                readable (sym (ap (λ r. r.0) whole) ∙ h) in
            rw whole (
              (clean.0, clean.1 ∙ images_of-drop_entry good rest k v s at e done),
              rw (entries-unread k v rest e) counted,
            )
      ]

  -- A count that succeeds drops exactly the entries whose metadata cannot be read, their bytes
  -- included, and leaves the sum of the sizes of the others (in 64 bits) as the size, and its time as
  -- the time of the last count.
  pub fetch_real_size-IsClean :
      (now : SystemTime) (s : Cache)
      → (fetch_real_size rocks bincode now s).0 ≡ ok tt
      → IsClean s (fetch_real_size rocks bincode now s).1
        × ((fetch_real_size rocks bincode now s).1.db_size ≡ total (images_of s) % u64_mod)
        × ((fetch_real_size rocks bincode now s).1.last_fetch ≡ now_as_millis now)
  unfolding fetch_real_size
  fetch_real_size-IsClean now s h =
      let store =
        λ (sz : ℕ) (t : Cache). record t { db_size = sz; last_fetch = now_as_millis now } in
      let loop = fetch_loop rocks bincode (meta s) 0 s in
      let (sz, counted, ran) = continue-eq-ok loop.0 (λ sz. modify (store sz)) loop.1 h in
      let (clean, sum) = fetch_loop-eq-ok [] (meta s) 0 s (omega arith) refl tt counted in
      let cleared =
        fetch_loop-Cleared rocks bincode (meta s) 0 s (rocks.iterator-Distinct meta_cf s.db)
          counted in
      rw ran ((clean.0, clean.1, cleared), omega (arith, sum), refl)

  -- The cache was counted: all entries can be read, and the size is the sum of their sizes in 64 bits.
  pub record IsCounted (s : Cache) : Type 0 where
    pub readable : Readable bincode (iterated bincode rocks meta_cf s)
    pub counted : s.db_size ≡ total (images_of s) % u64_mod

  pub fetch_real_size-IsCounted :
      (now : SystemTime) (s : Cache)
      → (fetch_real_size rocks bincode now s).0 ≡ ok tt
      → IsCounted (fetch_real_size rocks bincode now s).1
        × (images_of (fetch_real_size rocks bincode now s).1 ≡ images_of s)
  fetch_real_size-IsCounted now s h =
      let (clean, sum, _) = fetch_real_size-IsClean now s h in
      (
        record { readable = clean.0; counted = sum ∙ ap (λ es. total es % u64_mod) (sym clean.1) },
        clean.1,
      )

  -- A cache that opens has entries that can all be read, the ones that the opened database has
  -- readable, and the sum of their sizes (in 64 bits) as its size.
  pub open_cache-IsCounted :
      (db : RocksDb.Db rocks) (now : SystemTime) {s : RocksCache rocks bincode}
      → open_cache rocks bincode (ok db) now ≡ ok s
      → IsCounted s × (images_of s ≡ entries bincode (RocksDb.iterator_cf rocks meta_cf db))
  unfolding open_cache
  open_cache-IsCounted db now {s} h =
      let empty : Cache = record { db = db; db_size = 0; last_fetch = 0; in_flight = [] } in
      let run = fetch_real_size rocks bincode now empty in
      let (_, done, same) = map_ok-eq-ok (λ _. run.1) run.0 h in
      subst (λ t. IsCounted t × (images_of t ≡ images_of empty)) same
        (fetch_real_size-IsCounted now empty done)

  abbrev recounted : SystemTime → Cache → Result ℕ (CacheError rocks bincode) × Cache
  recounted later s =
      continue (fetch_real_size rocks bincode later s).0 (λ _. gets (λ t. t.db_size))
        (fetch_real_size rocks bincode later s).1

  recounted-IsCounted :
      (later : SystemTime) (s : Cache) {sz : ℕ}
      → (recounted later s).0 ≡ ok sz
      → IsCounted (recounted later s).1
        × (images_of (recounted later s).1 ≡ images_of s)
        × (sz ≡ (recounted later s).1.db_size)
  recounted-IsCounted later s r =
      let read = gets (λ (t : Cache). t.db_size) in
      let (_, done, ran) =
        continue-eq-ok (fetch_real_size rocks bincode later s).0 (λ _. read)
          (fetch_real_size rocks bincode later s).1 r in
      let (counted, same) = fetch_real_size-IsCounted later s done in
      let reported = sym (ap (λ q. q.0) ran) ∙ r in rw ran (counted, same, ground arith)

  -- The size of a counted cache is reported as it is, counted anew or not.
  pub get_db_size-IsCounted :
      (now later : SystemTime) (s : Cache) {sz : ℕ}
      → IsCounted s
      → (get_db_size rocks bincode now later s).0 ≡ ok sz
      → IsCounted (get_db_size rocks bincode now later s).1
        × (images_of (get_db_size rocks bincode now later s).1 ≡ images_of s)
        × (sz ≡ (get_db_size rocks bincode now later s).1.db_size)
  unfolding get_db_size
  get_db_size-IsCounted now later s {sz} c h =
      elim (Bool-cases (ltb min_time ((now_as_millis now + u64_mod - s.last_fetch) % u64_mod))) [
        | inl old ↦ rw old (recounted-IsCounted later s (rw (old, get_db_size) at h))
        | inr fresh ↦ rw fresh (c, refl, ground arith)
      ]
