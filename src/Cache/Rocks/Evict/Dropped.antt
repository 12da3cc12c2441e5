-- ===== src/Cache/Rocks/Evict/Dropped.antt =====
-- src/cache/rocks.rs, `evict_entries_fifo`: what the loop over one queue leaves.

use scalpel.Common.{
  ℕ, ◌+◌, ◌-◌, ◌%◌, ◌≤◌, Bool, true, false, List, [], ◌∷◌, length, Result, ok, leb, leb→le, ◌≡◌,
  refl, sym, ap, ◌∙◌, subst, arith, Bool-cases, inl, inr,
}
use scalpel.Common.Exec.{continue, continue-eq-ok}
use scalpel.Utils.{u64_mod}
use scalpel.Cache.Entry.{Bincode}
use scalpel.Cache.Rocks.Db.{RocksDb}
use scalpel.Cache.Rocks.Store.{RocksCache, drop_entry}
use scalpel.Cache.Rocks.Evict.{Item, drop_queue}
use scalpel.Cache.Rocks.Evict.Queue.{Within, Sub, Sub-without, items, IsExact, drop_entry-IsExact}

module _ (rocks : RocksDb) (bincode : Bincode) (until_size : ℕ) where
  abbrev pub Cache : Type 0
  Cache = RocksCache rocks bincode

  abbrev pub items_of : Cache → List Item
  items_of s = items rocks bincode s

  ok_pair :
      {b stop : Bool} {n sz : ℕ} {E : Type 0}
      → ◌≡◌ {A = Result (Bool × ℕ) E} (ok (b, n)) (ok (stop, sz))
      → (b ≡ stop) × (n ≡ sz)
  ok_pair h = (cc, cc)

  -- The loop over a queue, from `s` to `s'`.
  pub record IsDropped (q : List Item) (s : Cache) (stop : Bool) (sz' : ℕ) (s' : Cache)
      : Type 0 where
    pub exact : IsExact rocks bincode s' sz'
    pub kept : Sub (items_of s) (items_of s')
    pub stopped : stop ≡ true → sz' ≤ until_size
    pub emptied : stop ≡ false → length (items_of s') + length q ≡ length (items_of s)

  drop_queue-step :
      (x : Item) (q : List Item) (sz : ℕ) (s : Cache)
      → drop_queue rocks bincode until_size (x ∷ q) sz s
        ≡ continue
            (drop_entry rocks bincode x.0 s).0
            (λ _.
              let sz' = (sz + u64_mod - x.1.bytes_len) % u64_mod in
              elim (leb sz' until_size) [
                | true ↦ λ t. (ok (true, sz'), t)
                | false ↦ drop_queue rocks bincode until_size q sz'
              ])
            (drop_entry rocks bincode x.0 s).1
  unfolding drop_queue
  drop_queue-step x q sz s = refl

  module _ (x : Item) (q : List Item) (sz : ℕ) (s : Cache) where
    abbrev dropped : Cache
    dropped = (drop_entry rocks bincode x.0 s).1

    abbrev smaller : ℕ
    smaller = (sz + u64_mod - x.1.bytes_len) % u64_mod

    drop_queue-stops :
        (drop_entry rocks bincode x.0 s).0 ≡ ok tt
        → leb smaller until_size ≡ true
        → drop_queue rocks bincode until_size (x ∷ q) sz s ≡ (ok (true, smaller), dropped)
    drop_queue-stops done small = drop_queue-step x q sz s ∙ rw (done, small) refl

    drop_queue-goes_on :
        (drop_entry rocks bincode x.0 s).0 ≡ ok tt
        → leb smaller until_size ≡ false
        → drop_queue rocks bincode until_size (x ∷ q) sz s
          ≡ drop_queue rocks bincode until_size q smaller dropped
    drop_queue-goes_on done large = drop_queue-step x q sz s ∙ rw (done, large) refl

  pub drop_queue-IsDropped :
      (q : List Item) (sz : ℕ) (s : Cache) {stop : Bool} {sz' : ℕ}
      → IsExact rocks bincode s sz
      → Within q (items_of s)
      → (drop_queue rocks bincode until_size q sz s).0 ≡ ok (stop, sz')
      → IsDropped q s stop sz' (drop_queue rocks bincode until_size q sz s).1
  unfolding drop_queue
  drop_queue-IsDropped [] sz s {stop} {sz'} exact w h =
      let same : sz ≡ sz' = ground arith in
      record {
        exact = subst (IsExact rocks bincode s) same exact;
        kept = λ k e f. f;
        stopped = λ t. ground arith;
        emptied = λ _. omega arith;
      }
  drop_queue-IsDropped (x ∷ q) sz s {stop} {sz'} exact (found, w) h =
      let (_, done, _) =
        continue-eq-ok _ _ _ (sym (ap (λ r. r.0) (drop_queue-step x q sz s)) ∙ h) in
      let (exact₁, left, fewer) = drop_entry-IsExact rocks bincode x s sz exact found done in
      let sub : Sub (items_of s) (items_of (dropped x q sz s)) =
        subst (Sub (items_of s)) (sym left) (Sub-without x.0 (items_of s)) in
      elim (Bool-cases (leb (smaller x q sz s) until_size)) [
        | inl small ↦
            let ran = drop_queue-stops x q sz s done small in
            let same : (true ≡ stop) × (smaller x q sz s ≡ sz') =
              ok_pair (sym (ap (λ r. r.0) ran) ∙ h) in
            rw ran record {
              exact = subst (IsExact rocks bincode (dropped x q sz s)) same.1 exact₁;
              kept = sub;
              stopped = λ _. subst (λ n. n ≤ until_size) same.1 (leb→le _ _ small);
              emptied = λ e. absurd (ground arith);
            }
        | inr large ↦
            let ran = drop_queue-goes_on x q sz s done large in
            let rest =
              drop_queue-IsDropped q (smaller x q sz s) (dropped x q sz s) exact₁
                (subst (Within q) (sym left) w) (sym (ap (λ r. r.0) ran) ∙ h) in
            rw ran record {
              exact = rest.exact;
              kept = λ k e f. sub k e (rest.kept k e f);
              stopped = rest.stopped;
              emptied = λ e. omega (arith, rest.emptied e, fewer);
            }
      ]
