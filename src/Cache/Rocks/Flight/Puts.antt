-- ===== src/Cache/Rocks/Flight/Puts.antt =====
-- src/cache/rocks.rs: which puts a save leaves in flight.
use scalpel.Common.{
  ℕ, zero, suc, ◌+◌, ◌%◌, Bytes, Bool, false, List, [], ◌∷◌, Result, ok, err, map_ok-eq-ok, Option,
  none, some, ◌≡◌, refl, sym, ap, ◌∙◌, subst, inl, inr, bytes_eq, All, Bool-cases, Result-cases,
}
use scalpel.Utils.{u64_mod}
use scalpel.Cache.Key.{ImageKey, Sha256, as_bkey}
use scalpel.Cache.Entry.{ImageEntry, Bincode}
use scalpel.Cache.Rocks.Db.{Cf, images_cf, meta_cf, RocksDb}
use scalpel.Cache.Rocks.Store.{
  RocksCache, CacheError, Put, put_cf_async, put_future, spawn_blocking, db_op, after_first,
  run_both, try_join, save_entry,
}
use scalpel.Cache.Rocks.Store.RoundTrip.{run_both-eq-ok, swap-eq-ok}
use scalpel.Cache.Rocks.Flight.{take_put}

-- No put of these is under the bytes `k`.
abbrev pub IsOther : Bytes → List Put → Type 0
IsOther k puts = All (λ (put : Put). bytes_eq put.key k ≡ false) puts

-- What is taken from such a list, and what is left of it.
abbrev pub TakesOther : Bytes → Option (Put × List Put) → Type 0
TakesOther k none = Unit
TakesOther k (some (put, rest)) = (bytes_eq put.key k ≡ false) × IsOther k rest

pub take_put-TakesOther :
    (k : Bytes) (n : ℕ) (puts : List Put) → IsOther k puts → TakesOther k (take_put n puts)
unfolding take_put
take_put-TakesOther k n [] h = tt
take_put-TakesOther k zero (put ∷ puts) h = h
take_put-TakesOther k (suc n) (put ∷ puts) h =
    go (take_put n puts) (take_put-TakesOther k n puts h.1)
  where
    go :
        (o : Option (Put × List Put))
        → TakesOther k o
        → TakesOther k (elim o [ none ↦ none | some (taken, rest) ↦ some (taken, put ∷ rest) ])
    go none t = tt
    go (some (taken, rest)) t = (t.0, (h.0, t.1))

module _ (rocks : RocksDb) (bincode : Bincode) where
  abbrev Cache : Type 0
  Cache = RocksCache rocks bincode

  pub put_cf_async-in_flight :
      (c : Cf) (k v : Bytes) (s : Cache)
      → (put_cf_async rocks bincode c k v s).1.in_flight ≡ s.in_flight
  unfolding put_cf_async spawn_blocking
  put_cf_async-in_flight c k v s = go (RocksDb.cancelled rocks s.db)
    where
      go :
          (stopped : Option (RocksDb.JoinError rocks))
          → (spawn_blocking rocks bincode stopped
              (db_op rocks bincode (RocksDb.put_cf rocks c k v))
              s).1.in_flight
            ≡ s.in_flight
      go none = refl
      go (some e) = refl

  run_both-IsOther :
      (c d : Cf) (k j v w : Bytes) (s : Cache)
      → bytes_eq k j ≡ false
      → IsOther j s.in_flight
      → IsOther j
          (run_both rocks bincode
            (put_future rocks bincode c k v)
            (put_future rocks bincode d k w)
            s).1.in_flight
  unfolding run_both after_first
  run_both-IsOther c d k j v w s differ h =
      go (put_cf_async rocks bincode c k v s)
        (subst (IsOther j) (sym (put_cf_async-in_flight c k v s)) h)
    where
      go :
          (r : Result (Unit {0}) (CacheError rocks bincode) × Cache)
          → IsOther j r.1.in_flight
          → IsOther j (after_first rocks bincode r (put_future rocks bincode d k w)).1.in_flight
      go (err e, t) other = (differ, other)
      go (ok _, t) other = subst (IsOther j) (sym (put_cf_async-in_flight d k w t)) other

  -- Two puts that both succeed leave nothing in flight.
  run_both-in_flight :
      (c d : Cf) (k v w : Bytes) (s : Cache) {p : Unit {0} × Unit {0}}
      → (run_both rocks bincode
          (put_future rocks bincode c k v)
          (put_future rocks bincode d k w)
          s).0
        ≡ ok p
      → (run_both rocks bincode
          (put_future rocks bincode c k v)
          (put_future rocks bincode d k w)
          s).1.in_flight
        ≡ s.in_flight
  run_both-in_flight c d k v w s h =
      let (one, two, after) =
        run_both-eq-ok rocks bincode (put_future rocks bincode c k v)
          (put_future rocks bincode d k w) s h in
      ap (λ (t : Cache). t.in_flight) after
      ∙ (put_cf_async-in_flight d k w (put_cf_async rocks bincode c k v s).1
          ∙ put_cf_async-in_flight c k v s)

  module _ (sha : Sha256) (save_order load_order : Bool) where
    pub save_entry-IsOther :
        (key : ImageKey) (entry : ImageEntry) (j : Bytes) (s : Cache)
        → bytes_eq (as_bkey sha key) j ≡ false
        → IsOther j s.in_flight
        → IsOther j (save_entry rocks bincode sha save_order key entry s).1.in_flight
    unfolding save_entry try_join
    save_entry-IsOther key entry j s differ h =
        let k = as_bkey sha key in
        let s₁ : Cache = record s { db_size = (s.db_size + entry.bytes_len) % u64_mod } in
        elim (Result-cases (bincode.serialize (record entry { bytes = [] }))) [
          | inr (e, failed) ↦ rw (failed, save_entry) h
          | inl (meta, written) ↦ elim (Bool-cases save_order) [
            | inl first ↦
                rw (written, first, save_entry)
                  (run_both-IsOther images_cf meta_cf k j entry.bytes meta s₁ differ h)
            | inr second ↦
                rw (written, second, save_entry)
                  (run_both-IsOther meta_cf images_cf k j meta entry.bytes s₁ differ h)
          ]
        ]

    pub save_entry-in_flight :
        (key : ImageKey) (entry : ImageEntry) (s : Cache)
        → (save_entry rocks bincode sha save_order key entry s).0 ≡ ok tt
        → (save_entry rocks bincode sha save_order key entry s).1.in_flight ≡ s.in_flight
    unfolding save_entry try_join
    save_entry-in_flight key entry s h =
        let k = as_bkey sha key in
        let s₁ : Cache = record s { db_size = (s.db_size + entry.bytes_len) % u64_mod } in
        elim (Result-cases (bincode.serialize (record entry { bytes = [] }))) [
          | inr (e, failed) ↦ absurd (cc (rw (failed, save_entry) at h))
          | inl (meta, written) ↦ elim (Bool-cases save_order) [
            | inl first ↦
                let joined = map_ok-eq-ok _ _ (rw (written, first, save_entry) at h) in
                rw (written, first, save_entry)
                  (run_both-in_flight images_cf meta_cf k entry.bytes meta s₁ joined.1)
            | inr second ↦
                let joined = map_ok-eq-ok _ _ (rw (written, second, save_entry) at h) in
                rw (written, second, save_entry)
                  (run_both-in_flight meta_cf images_cf k meta entry.bytes s₁
                    (swap-eq-ok rocks bincode _ joined.1))
          ]
        ]
