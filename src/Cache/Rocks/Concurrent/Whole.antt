-- ===== src/Cache/Rocks/Concurrent/Whole.antt =====
-- src/cache/rocks.rs: saves of one image and drops, in any interleaving, leave that image or none.
use scalpel.Common.{
  Bytes, Bool, true, false, List, [], ◌∷◌, ◌++◌, map, Result, ok, Option, none, some, ◌≡◌, refl,
  sym, ap, ◌∙◌, subst, ◌⊎◌, inl, inr, bytes_eq, Result-cases, All, All-append,
}
use scalpel.Common.Assoc.{lookup}
use scalpel.Cache.Key.{Sha256, as_bkey}
use scalpel.Cache.Entry.{ImageEntry, Bincode}
use scalpel.Cache.Rocks.Db.{Cf, images_cf, meta_cf, same_cf, RocksDb}
use scalpel.Cache.Rocks.Store.{RocksCache, db_op, put_cf_async, spawn_blocking, integrate}
use scalpel.Cache.Rocks.Store.RoundTrip.{entries_of, integrate_stored}
use scalpel.Cache.Rocks.Engine.{loaded}
use scalpel.Cache.Rocks.Contract.{content}
use scalpel.Cache.Rocks.Concurrent.{
  Action, store, remove, Task, saving, dropping, Merge, finished, step, act, act_all, puts, steps,
}

All-left {ℓ} : {A : Type ℓ} (P : A → Type 0) (xs ys : List A) → All P (xs ++ ys) → All P xs
All-left P [] ys h = tt
All-left P (x ∷ xs) ys h = (h.0, All-left P xs ys h.1)

All-right {ℓ} : {A : Type ℓ} (P : A → Type 0) (xs ys : List A) → All P (xs ++ ys) → All P ys
All-right P [] ys h = h
All-right P (x ∷ xs) ys h = All-right P xs ys h.1

-- What holds of every step of every task holds of every step of a merge.
Merge-All :
    (P : Action → Type 0) (tasks : List (List Action)) (acts : List Action)
    → Merge tasks acts
    → All (All P) tasks
    → All P acts
Merge-All P _ _ (finished tasks h) all = tt
Merge-All P _ _ (step tasks before after a rest acts same merge) all =
    let split = subst (All (All P)) same all in
    let tail = All-right (All P) before ((a ∷ rest) ∷ after) split in
    (
      tail.0.0,
      Merge-All P (before ++ rest ∷ after) acts merge (
          All-append (All P) before (rest ∷ after) (All-left (All P) before _ split)
            (tail.0.1, tail.1)),
    )

module _ (rocks : RocksDb) (bincode : Bincode) where
  abbrev Cache : Type 0
  Cache = RocksCache rocks bincode

  -- The value that a column family may hold, if any.
  abbrev pub value_of : Bytes → Bytes → Cf → Bytes
  value_of image meta images_cf = image
  value_of image meta meta_cf = meta

  -- Under `k` stand these values or none.
  abbrev pub Only : Bytes → Bytes → Bytes → RocksCache rocks bincode → Type 0
  Only k image meta s =
      (c : Cf)
      → (lookup k (entries_of rocks bincode c s) ≡ none)
        ⊎ (lookup k (entries_of rocks bincode c s) ≡ some (value_of image meta c))

  -- A step that stores nothing else under `k`.
  abbrev Stores : Bytes → Bytes → Bytes → Action → Type 0
  Stores k image meta (store c j v) = bytes_eq j k ≡ true → v ≡ value_of image meta c
  Stores k image meta (remove c j) = Unit

  same_cf→eq : (c d : Cf) → same_cf c d ≡ true → c ≡ d
  same_cf→eq images_cf images_cf h = refl
  same_cf→eq meta_cf meta_cf h = refl
  same_cf→eq images_cf meta_cf h = absurd (cc h)
  same_cf→eq meta_cf images_cf h = absurd (cc h)

  -- What a put leaves in a lookup, also if its task was cancelled.
  put-lookup :
      (c d : Cf) (j k v : Bytes) (s : Cache)
      → (lookup k (entries_of rocks bincode d (put_cf_async rocks bincode c j v s).1)
          ≡ lookup k (entries_of rocks bincode d s))
        ⊎ ((same_cf c d ≡ true)
            × (bytes_eq j k ≡ true)
            × (lookup k (entries_of rocks bincode d (put_cf_async rocks bincode c j v s).1)
                ≡ some v))
  unfolding put_cf_async spawn_blocking
  put-lookup c d j k v s = go (RocksDb.cancelled rocks s.db)
    where
      go :
          (stopped : Option (RocksDb.JoinError rocks))
          → let s' =
              (spawn_blocking rocks bincode stopped
                (db_op rocks bincode (RocksDb.put_cf rocks c j v))
                s).1 in
            (lookup k (entries_of rocks bincode d s') ≡ lookup k (entries_of rocks bincode d s))
            ⊎ ((same_cf c d ≡ true)
                × (bytes_eq j k ≡ true)
                × (lookup k (entries_of rocks bincode d s') ≡ some v))
      go none = rocks.lookup-put_any c d j k v s.db refl
      go (some e) = inl refl

  act-Only :
      (k image meta : Bytes) (a : Action) (s : Cache)
      → Stores k image meta a
      → Only k image meta s
      → Only k image meta (act rocks bincode a s)
  unfolding act
  act-Only k image meta (store c j v) s stores only d = elim (put-lookup c d j k v s) [
    | inl same ↦ elim (only d) [ inl gone ↦ inl (same ∙ gone) | inr there ↦ inr (same ∙ there) ]
    | inr (cf, key, now) ↦
        inr (now ∙ ap some (stores key ∙ ap (value_of image meta) (same_cf→eq c d cf)))
  ]
  act-Only k image meta (remove c j) s stores only d =
      elim (rocks.lookup-delete c d j k s.db refl) [
        | inl same ↦ elim (only d) [ inl gone ↦ inl (same ∙ gone) | inr there ↦ inr (same ∙ there) ]
        | inr gone ↦ inl gone
      ]

  act_all-Only :
      (k image meta : Bytes) (acts : List Action) (s : Cache)
      → All (Stores k image meta) acts
      → Only k image meta s
      → Only k image meta (act_all rocks bincode acts s)
  unfolding act_all
  act_all-Only k image meta [] s stores only = only
  act_all-Only k image meta (a ∷ acts) s stores only =
      act_all-Only k image meta acts (act rocks bincode a s) stores.1
        (act-Only k image meta a s stores.0 only)

  module _ (sha : Sha256) where
    -- A task that saves under the bytes `k` only `entry`.
    abbrev pub Saves : Bytes → ImageEntry → Task → Type 0
    Saves k entry (saving images_first key other) =
        bytes_eq (as_bkey sha key) k ≡ true → other ≡ entry
    Saves k entry (dropping j) = Unit

    puts-Stores :
        (images_first : Bool) (j k image image' meta meta' : Bytes)
        → (bytes_eq j k ≡ true → image' ≡ image)
        → (bytes_eq j k ≡ true → meta' ≡ meta)
        → All (Stores k image meta) (puts rocks bincode images_first j image' meta')
    unfolding puts
    puts-Stores true j k image image' meta meta' first second = (first, (second, tt))
    puts-Stores false j k image image' meta meta' first second = (second, (first, tt))

    ok_bytes : {a b : Bytes} → ◌≡◌ {A = Result Bytes (Bincode.Error bincode)} (ok a) (ok b) → a ≡ b
    ok_bytes h = cc h

    steps-Stores :
        (k : Bytes) (entry : ImageEntry) (meta : Bytes) (task : Task)
        → bincode.serialize (record entry { bytes = [] }) ≡ ok meta
        → Saves k entry task
        → All (Stores k entry.bytes meta) (steps rocks bincode sha task)
    unfolding steps
    steps-Stores k entry meta (dropping j) written saves = (tt, (tt, tt))
    steps-Stores k entry meta (saving images_first key other) written saves =
        elim (Result-cases (bincode.serialize (record other { bytes = [] }))) [
          | inr (e, failed) ↦ rw (failed, steps) tt
          | inl (meta', encoded) ↦
              rw (encoded, steps)
                (puts-Stores images_first (as_bkey sha key) k entry.bytes other.bytes meta meta'
                  (λ same. ap (λ x. ImageEntry.bytes x) (saves same))
                  (λ same. ok_bytes (
                    sym encoded
                    ∙ (ap (λ x. bincode.serialize (record x { bytes = [] })) (saves same)
                        ∙ written))))
        ]

    steps-AllStores :
        (k : Bytes) (entry : ImageEntry) (meta : Bytes) (tasks : List Task)
        → bincode.serialize (record entry { bytes = [] }) ≡ ok meta
        → All (Saves k entry) tasks
        → All (All (Stores k entry.bytes meta)) (map (steps rocks bincode sha) tasks)
    steps-AllStores k entry meta [] written saves = tt
    steps-AllStores k entry meta (task ∷ tasks) written saves = (
      steps-Stores k entry meta task written saves.0,
      steps-AllStores k entry meta tasks written saves.1,
    )

    -- However the steps of saves and drops interleave, and whichever of their writes fail: if all
    -- saves under the bytes `k` are of one entry, and `k` holds values of that entry or none before,
    -- then the entry is found whole under `k` after, or nothing is.
    pub merge-whole :
        (save_order load_order : Bool) (k : Bytes) (entry : ImageEntry) (meta : Bytes)
        (tasks : List Task) (acts : List Action) (s : RocksCache rocks bincode)
        → bincode.serialize (record entry { bytes = [] }) ≡ ok meta
        → All (Saves k entry) tasks
        → Merge (map (steps rocks bincode sha) tasks) acts
        → Only k entry.bytes meta s
        → (content rocks bincode sha save_order load_order (act_all rocks bincode acts s) k ≡ none)
          ⊎ (content rocks bincode sha save_order load_order (act_all rocks bincode acts s) k
              ≡ some entry)
    unfolding integrate
    merge-whole save_order load_order k entry meta tasks acts s written saves merge only =
        let after =
          act_all-Only k entry.bytes meta acts s
            (Merge-All _ (map (steps rocks bincode sha) tasks) acts merge
              (steps-AllStores k entry meta tasks written saves))
            only in
        let shown = loaded rocks bincode sha save_order load_order in
        elim (after images_cf) [
          | inl gone ↦ inl (rw gone refl)
          | inr image ↦ elim (after meta_cf) [
            | inl gone ↦ inl (rw (image, gone) refl)
            | inr described ↦ inr (
                rw (image, described)
                  (ap shown (integrate_stored rocks bincode sha entry meta written)))
          ]
        ]
