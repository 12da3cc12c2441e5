-- ===== src/Cache/Rocks/Evict/Fifo.antt =====
-- src/cache/rocks.rs, `evict_entries_fifo`: it ends, and with the exact size of what is left.

use scalpel.Common.{
  ℕ, zero, suc, ◌+◌, ◌≤◌, ◌<◌, Bytes, Bool, true, false, List, [], ◌∷◌, length, Result, ok, err,
  Option, some, ◌≡◌, refl, sym, ap, ◌∙◌, subst, ◌⊎◌, arith, inl, inr,
}
use mathlib.Core.Option
use scalpel.Common.Exec.{continue-eq-ok, ◌>>=◌}
use scalpel.Utils.{u64_mod, SystemTime}
use scalpel.Cache.Entry.{ImageEntry, Bincode}
use scalpel.Cache.Rocks.Db.{meta_cf, RocksDb}
use scalpel.Cache.Rocks.Store.{CacheError, RocksCache}
use scalpel.Cache.Rocks.Size.{fetch_real_size, get_db_size}
use scalpel.Cache.Rocks.Evict.{
  Item, older, after_queue, round, evict_loop, evict_from, evict_entries_fifo, stored,
}
use scalpel.Cache.Rocks.Entries.{total, iterated, put_entry, entries}
use scalpel.Cache.Rocks.Size.Exact.{fetch_real_size-IsCounted, get_db_size-IsCounted}
use scalpel.Cache.Rocks.Evict.Top.{top, top-From}
use scalpel.Cache.Rocks.Evict.Queue.{
  Within, From-Within, Sub, items, IsExact, items-Distinct, find_top_entries-Readable,
}
use scalpel.Cache.Rocks.Evict.Dropped.{IsDropped, drop_queue-IsDropped}

module _ (rocks : RocksDb) (bincode : Bincode) (until_size : ℕ) where
  abbrev Cache : Type 0
  Cache = RocksCache rocks bincode

  abbrev items_of : Cache → List Item
  items_of s = items rocks bincode s

  -- The eviction of a cache `s` ended with `s'` and the size `sz`.
  pub record IsEvicted (s : RocksCache rocks bincode) (sz : ℕ) (s' : RocksCache rocks bincode)
      : Type 0 where
    pub exact : IsExact rocks bincode s' sz
    pub kept : Sub (items rocks bincode s) (items rocks bincode s')
    pub small : (sz ≤ until_size) ⊎ (length (items rocks bincode s') ≡ 0)

  abbrev Run : Type 0
  Run = Result ℕ (CacheError rocks bincode) × Cache

  -- A run that ends, with an error or with `s` evicted.
  abbrev Ends : Cache → Option Run → Type 0
  Ends s r = (run : Run) × (r ≡ some run) × ((sz : ℕ) → run.0 ≡ ok sz → IsEvicted s sz run.1)

  -- The rounds that follow end, from any cache with fewer than `fuel` entries.
  abbrev Continues : ℕ → (ℕ → Cache → Option Run) → Type 0
  Continues fuel again =
      (sz : ℕ) (s : Cache)
      → IsExact rocks bincode s sz
      → length (items_of s) < fuel
      → Ends s (again sz s)

  after_queue-Ends :
      (fuel : ℕ) (again : ℕ → Cache → Option Run) (q : List Item) (s : Cache)
      (r : Result (Bool × ℕ) (CacheError rocks bincode) × Cache)
      → Continues fuel again
      → 0 < length q
      → length (items_of s) ≤ fuel
      → ((stop : Bool) (sz : ℕ)
          → r.0 ≡ ok (stop, sz)
          → IsDropped rocks bincode until_size q s stop sz r.1)
      → Ends s (after_queue rocks bincode again r)
  unfolding after_queue
  after_queue-Ends fuel again q s (err e, s') more some_q enough d =
      ((err e, s'), refl, λ sz h. absurd (ground arith))
  after_queue-Ends fuel again q s (ok (true, sz), s') more some_q enough d =
      let done = d true sz refl in
      (
        (ok sz, s'),
        refl,
        λ sz' h.
            let same : sz ≡ sz' = cc in
            record {
              exact = subst (IsExact rocks bincode s') same done.exact;
              kept = done.kept;
              small = inl (subst (λ n. n ≤ until_size) same (done.stopped refl));
            },
      )
  after_queue-Ends fuel again q s (ok (false, sz), s') more some_q enough d =
      let done = d false sz refl in
      let (run, ran, ended) = more sz s' done.exact (omega (arith, done.emptied refl)) in
      (
        run,
        ran,
        λ sz' h.
            let rest = ended sz' h in
            record {
              exact = rest.exact;
              kept = λ k e f. done.kept k e (rest.kept k e f);
              small = rest.small;
            },
      )

  round-Ends :
      (fuel : ℕ) (again : ℕ → Cache → Option Run) (q : List Item) (sz : ℕ) (s : Cache)
      → Continues fuel again
      → IsExact rocks bincode s sz
      → length (items_of s) ≤ fuel
      → Within q (items_of s)
      → (length q ≡ 0 → length (items_of s) ≡ 0)
      → Ends s (round rocks bincode again until_size sz (ok q, s))
  unfolding round
  round-Ends fuel again [] sz s more exact enough w none_left = (
    (ok sz, s),
    refl,
    λ sz' h.
        let same : sz ≡ sz' = cc in
        record {
          exact = subst (IsExact rocks bincode s) same exact;
          kept = λ k e f. f;
          small = inr (none_left refl);
        },
  )
  round-Ends fuel again (x ∷ q) sz s more exact enough w none_left =
      after_queue-Ends fuel again (x ∷ q) s _ more (omega arith) enough
        (λ stop sz' h. drop_queue-IsDropped rocks bincode until_size (x ∷ q) sz s exact w h)

  evict_loop-Ends :
      (fuel sz : ℕ) (s : Cache)
      → IsExact rocks bincode s sz
      → length (items_of s) < fuel
      → Ends s (evict_loop rocks bincode fuel until_size sz s)
  unfolding evict_loop
  evict_loop-Ends zero sz s exact enough = absurd (omega arith)
  evict_loop-Ends (suc fuel) sz s exact enough =
      let (count, distinct, from) =
        top-From 256 older (items_of s) (items-Distinct rocks bincode s) in
      rw (find_top_entries-Readable rocks bincode 256 older s exact.readable) (
        round-Ends fuel (evict_loop rocks bincode fuel until_size) (top 256 older (items_of s)) sz s
          (λ sz' s' e l. evict_loop-Ends fuel sz' s' e l) exact (omega arith)
          (From-Within (items_of s) _ distinct from) (λ e. omega (arith, count, e)))

  -- The size that eviction starts with.
  abbrev start : (ℕ → SystemTime) → Cache → Run
  start clock s =
      (fetch_real_size rocks bincode (clock 0)
          >>= (λ _. get_db_size rocks bincode (clock 1) (clock 2)))
        s

  start-IsExact :
      (clock : ℕ → SystemTime) (s : Cache) {sz : ℕ}
      → total (items_of s) < u64_mod
      → (start clock s).0 ≡ ok sz
      → IsExact rocks bincode (start clock s).1 sz × (items_of (start clock s).1 ≡ items_of s)
  start-IsExact clock s {sz} fits h =
      let fetched = fetch_real_size rocks bincode (clock 0) s in
      let (_, done, ran) =
        continue-eq-ok fetched.0 (λ _. get_db_size rocks bincode (clock 1) (clock 2)) fetched.1 h in
      let (counted, same) = fetch_real_size-IsCounted rocks bincode (clock 0) s done in
      let (counted', same', reported) =
        get_db_size-IsCounted rocks bincode (clock 1) (clock 2) fetched.1 counted
          (sym (ap (λ r. r.0) ran) ∙ h) in
      let whole = same' ∙ same in
      let sum = ap total whole in
      rw ran (
        record {
          readable = counted'.readable;
          sum = omega (arith, counted'.counted);
          fits = omega (arith, counted'.counted);
        },
        whole,
      )

  put_entry-length :
      (k : Bytes) (r : Result ImageEntry (Bincode.Error bincode)) (l : List Item)
      → length (put_entry bincode k r l) ≤ length l + 1
  put_entry-length k (ok entry) l = omega arith
  put_entry-length k (err e) l = omega arith

  length-entries : (l : List (Bytes × Bytes)) → length (entries bincode l) ≤ length l
  unfolding entries
  length-entries [] = omega arith
  length-entries ((k, v) ∷ l) =
      omega
        (arith, length-entries l, put_entry-length k (bincode.deserialize v) (entries bincode l))

  -- An eviction that ends, and with the size stored if it succeeds.
  abbrev Evicts :
      RocksCache rocks bincode
      → Option (Result ℕ (CacheError rocks bincode) × RocksCache rocks bincode)
      → Type 0
  Evicts s r =
      (run : Result ℕ (CacheError rocks bincode) × RocksCache rocks bincode) × (r ≡ some run)
      × ((sz : ℕ) → run.0 ≡ ok sz → IsEvicted s sz run.1 × (run.1.db_size ≡ sz))

  stored-Evicts :
      (s s₀ : Cache) (r : Option Run)
      → items_of s₀ ≡ items_of s
      → Ends s₀ r
      → Evicts s (Option.map (stored rocks bincode) r)
  stored-Evicts s s₀ r same ((err e, s'), ran, done) =
      ((err e, s'), rw ran refl, λ sz h. absurd (ground arith))
  stored-Evicts s s₀ r same ((ok sz', s'), ran, done) = (
    (ok sz', record s' { db_size = sz' }),
    rw ran refl,
    λ sz h.
        let e = done sz h in
        let reported : sz' ≡ sz = cc in
        (
          record {
            exact = record { readable = e.exact.readable; sum = e.exact.sum; fits = e.exact.fits };
            kept = subst (λ es. Sub es (items_of s')) same e.kept;
            small = e.small;
          },
          reported,
        ),
  )

  evict_from-Evicts :
      (s : Cache) (r : Run)
      → ((sz : ℕ) → r.0 ≡ ok sz → IsExact rocks bincode r.1 sz × (items_of r.1 ≡ items_of s))
      → Evicts s (evict_from rocks bincode until_size r)
  unfolding evict_from
  evict_from-Evicts s (err e, s₀) start = ((err e, s₀), refl, λ sz h. absurd (ground arith))
  evict_from-Evicts s (ok sz, s₀) start =
      let (exact, same) = start sz refl in
      let l = iterated bincode rocks meta_cf s₀ in
      stored-Evicts s s₀ _ same
        (evict_loop-Ends (suc (length l)) sz s₀ exact (omega (arith, length-entries l)))

  evict_entries_fifo-Evicts :
      (clock : ℕ → SystemTime) (s : Cache)
      → total (items_of s) < u64_mod
      → Evicts s (evict_entries_fifo rocks bincode clock until_size s)
  unfolding evict_entries_fifo
  evict_entries_fifo-Evicts clock s fits =
      evict_from-Evicts s (start clock s) (λ sz h. start-IsExact clock s {sz = sz} fits h)

  -- If the sizes of the readable images fit into 64 bits together, `evict_entries_fifo` ends, with
  -- an error or with a size.
  pub evict_entries_fifo-ends :
      (clock : ℕ → SystemTime) (s : RocksCache rocks bincode)
      → total (items rocks bincode s) < u64_mod
      → (run : Result ℕ (CacheError rocks bincode) × RocksCache rocks bincode) × (evict_entries_fifo
            rocks bincode clock until_size s
          ≡ some run)
  evict_entries_fifo-ends clock s fits =
      let (run, ran, _) = evict_entries_fifo-Evicts clock s fits in (run, ran)

  -- If the sizes of the readable images fit into 64 bits together and `evict_entries_fifo` ends
  -- with a size: all entries that are left can be read, each is an entry from before as it was, the
  -- sizes of the images left sum up to that size, which is also stored, and it is at most
  -- `until_size` or no entry is left.
  pub evict_entries_fifo-IsEvicted :
      (clock : ℕ → SystemTime) (s : RocksCache rocks bincode) {sz : ℕ}
      {s' : RocksCache rocks bincode}
      → total (items rocks bincode s) < u64_mod
      → evict_entries_fifo rocks bincode clock until_size s ≡ some (ok sz, s')
      → IsEvicted s sz s' × (s'.db_size ≡ sz)
  evict_entries_fifo-IsEvicted clock s {sz} {s'} fits h =
      let (run, ran, done) = evict_entries_fifo-Evicts clock s fits in
      let same : run ≡ (ok sz, s') = cc (ran, h) in
      subst (λ r. IsEvicted s sz r.1 × (r.1.db_size ≡ sz)) same (done sz (ap (λ r. r.0) same))
