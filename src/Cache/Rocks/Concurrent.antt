-- ===== src/Cache/Rocks/Concurrent.antt =====
-- src/cache/rocks.rs: saves and drops of entries that run at the same time. Each write to the
-- database is a step of its task, and the steps of all tasks fall in any order that keeps each task's.
pub mod Whole
pub mod Mixed
mod Tests
use scalpel.Common.{
  ℕ, ◌+◌, ◌%◌, Bytes, Bool, true, false, List, [], ◌∷◌, ◌++◌, map, Result, ok, err, Option, none,
  some, if◌then◌else◌, ◌≡◌, refl, sym, ap, ◌∙◌, ◌⊎◌, inl, inr, bytes_eq, Bool-cases, Result-cases,
  All,
}
use scalpel.Common.Exec.{continue}
use scalpel.Utils.{u64_mod}
use scalpel.Cache.Key.{ImageKey, Sha256, as_bkey}
use scalpel.Cache.Entry.{ImageEntry, Bincode}
use scalpel.Cache.Rocks.Db.{Cf, images_cf, meta_cf, RocksDb}
use scalpel.Cache.Rocks.Store.{
  RocksCache, CacheError, Put, db_op, put_cf_async, put_future, after_first, run_both, try_join,
  save_entry, drop_entry,
}

-- A write to the database.
pub data Action : Type 0 where
  store : Cf → Bytes → Bytes → Action
  remove : Cf → Bytes → Action

-- A call that runs: of `save_entry`, with the order of its two tasks, or of `drop_entry`.
pub data Task : Type 0 where
  saving : Bool → ImageKey → ImageEntry → Task
  dropping : Bytes → Task

-- The steps of tasks, one after the other.
pub data Merge : List (List Action) → List Action → Type 0 where
  finished :
      (tasks : List (List Action)) → All (λ (task : List Action). task ≡ []) tasks → Merge tasks []
  step :
      (tasks before after : List (List Action)) (a : Action) (rest acts : List Action)
      → tasks ≡ before ++ (a ∷ rest) ∷ after
      → Merge (before ++ rest ∷ after) acts
      → Merge tasks (a ∷ acts)

module _ (rocks : RocksDb) (bincode : Bincode) where
  abbrev Cache : Type 0
  Cache = RocksCache rocks bincode

  -- What a write leaves, whether it succeeds or not.
  unfoldable pub act : Action → RocksCache rocks bincode → RocksCache rocks bincode
  act (store c k v) s = (put_cf_async rocks bincode c k v s).1
  act (remove c k) s = (db_op rocks bincode (RocksDb.delete_cf rocks c k) s).1

  unfoldable pub act_all : List Action → RocksCache rocks bincode → RocksCache rocks bincode
  unfolding act
  act_all [] s = s
  act_all (a ∷ acts) s = act_all acts (act a s)

  unfoldable pub puts : Bool → Bytes → Bytes → Bytes → List Action
  puts images_first k image meta =
      if images_first
      then store images_cf k image ∷ store meta_cf k meta ∷ []
      else store meta_cf k meta ∷ store images_cf k image ∷ []

  module _ (sha : Sha256) where
    unfoldable pub steps : Task → List Action
    unfolding puts
    steps (saving images_first key entry) = elim (bincode.serialize (record entry { bytes = [] })) [
      | ok meta ↦ puts images_first (as_bkey sha key) entry.bytes meta
      | err _ ↦ []
    ]
    steps (dropping k) = remove images_cf k ∷ remove meta_cf k ∷ []

    -- What two puts under `try_join` leave: the state after both, or that after the first, with the
    -- second in flight.
    abbrev pub Joined : Cache → List Action → Cache → Type 0
    Joined s acts s' =
        (s' ≡ act_all acts s)
        ⊎ ((a : Action) × (c : Cf) × (k : Bytes) × (v : Bytes) × (acts ≡ a ∷ store c k v ∷ [])
            × (s' ≡ record (act a s) {
              in_flight = record { cf = c; key = k; val = v } ∷ (act a s).in_flight;
            }))

    run_both-Joined :
        (c d : Cf) (k v w : Bytes) (s : Cache)
        → Joined s
            (store c k v ∷ store d k w ∷ [])
            (run_both rocks bincode
              (put_future rocks bincode c k v)
              (put_future rocks bincode d k w)
              s).1
    unfolding run_both after_first act_all act
    run_both-Joined c d k v w s = go (put_cf_async rocks bincode c k v s) refl
      where
        go :
            (r : Result (Unit {0}) (CacheError rocks bincode) × Cache)
            → put_cf_async rocks bincode c k v s ≡ r
            → Joined s
                (store c k v ∷ store d k w ∷ [])
                (after_first rocks bincode r (put_future rocks bincode d k w)).1
        go (err e, t) ran = inr (store c k v, d, k, w, refl, ap (λ x. joined (x.1)) (sym ran))
          where
            joined : Cache → Cache
            joined t = record t { in_flight = record { cf = d; key = k; val = w } ∷ t.in_flight }
        go (ok _, t) ran = inl (ap (λ x. (put_cf_async rocks bincode d k w x.1).1) (sym ran))

    -- The state after `save_entry` is that after its steps, or after the first of two, with the put
    -- of the second in flight.
    pub save_entry-steps :
        (images_first : Bool) (key : ImageKey) (entry : ImageEntry) (s : RocksCache rocks bincode)
        → (steps (saving images_first key entry) ≡ [])
          ⊎ Joined
              (record s { db_size = (s.db_size + entry.bytes_len) % u64_mod })
              (steps (saving images_first key entry))
              (save_entry rocks bincode sha images_first key entry s).1
    unfolding save_entry try_join steps puts
    save_entry-steps images_first key entry s =
        let s₁ : Cache = record s { db_size = (s.db_size + entry.bytes_len) % u64_mod } in
        let k = as_bkey sha key in
        elim (Result-cases (bincode.serialize (record entry { bytes = [] }))) [
          | inr (e, failed) ↦ inl (rw (failed, steps) refl)
          | inl (meta, written) ↦ elim (Bool-cases images_first) [
            | inl first ↦ inr (
                rw (written, first, save_entry, steps)
                  (run_both-Joined images_cf meta_cf k entry.bytes meta s₁))
            | inr second ↦ inr (
                rw (written, second, save_entry, steps)
                  (run_both-Joined meta_cf images_cf k meta entry.bytes s₁))
          ]
        ]

    -- The database after `drop_entry` is that after both its steps, or after the first if it failed.
    pub drop_entry-steps :
        (k : Bytes) (s : RocksCache rocks bincode)
        → ((drop_entry rocks bincode k s).1 ≡ act_all (steps (dropping k)) s)
          ⊎ ((drop_entry rocks bincode k s).1 ≡ act_all (remove images_cf k ∷ []) s)
    unfolding drop_entry act_all steps act
    drop_entry-steps k s =
        elim (Result-cases (db_op rocks bincode (RocksDb.delete_cf rocks images_cf k) s).0) [
          | inl (_, done) ↦ inl (rw (done, drop_entry) refl)
          | inr (e, failed) ↦ inr (rw (failed, drop_entry) refl)
        ]
