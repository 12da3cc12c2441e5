-- ===== src/Cache/Fs/Count.antt =====
-- src/cache/fs.rs: the counter of bytes against the sizes that the metadata lists.
use scalpel.Common.{
  ℕ, ◌+◌, ◌-◌, ◌%◌, ◌<◌, Str, Bytes, true, List, [], ◌∷◌, length, Result, ok, err, map_ok-eq-ok,
  if◌then◌else◌, leb, ◌≡◌, refl, subst, arith,
}
use scalpel.Common.Assoc.{lookup}
use scalpel.Utils.{u64_mod, SystemTime, now_as_millis}
use scalpel.Config.{FsConfig}
use scalpel.Cache.Key.{ImageKey, Sha256, as_bkey}
use scalpel.Cache.Entry.{Bincode}
use scalpel.Cache.Fs.Db.{Forceps, oks, sum}
use scalpel.Cache.Fs.Sums.{size_at, sum-write}
use scalpel.Cache.Fs.{
  FileSystemCache, min_time, sum_sizes, update_real_size, new, find_size, written, save,
}
use scalpel.Cache.Fs.Contract.{save-eq-true}

module _ (forceps : Forceps) (bincode : Bincode) where
  abbrev Cache : Type 0
  Cache = FileSystemCache forceps bincode

  -- The sum of the sizes that the metadata lists.
  abbrev pub real_size : Forceps.Db forceps → ℕ
  real_size db = sum (oks (Forceps.metadata_iter forceps db))

  -- The counter is the real size, in 64 bits.
  abbrev pub IsCounted : Cache → Type 0
  IsCounted s = s.total ≡ real_size s.cache % u64_mod

  sum_sizes-sum :
      (acc : ℕ) (rows : List (Result (Bytes × ℕ) (Forceps.Error forceps)))
      → acc < u64_mod
      → sum_sizes forceps bincode acc rows ≡ (acc + sum (oks rows)) % u64_mod
  unfolding sum_sizes
  sum_sizes-sum acc [] h = omega (arith, h)
  sum_sizes-sum acc (ok (k, size) ∷ rows) h =
      let next : (acc + size) % u64_mod < u64_mod = omega arith in
      omega (arith, sum_sizes-sum ((acc + size) % u64_mod) rows next)
  sum_sizes-sum acc (err e ∷ rows) h = sum_sizes-sum acc rows h

  -- The fold counts the real size.
  counts :
      (rows : List (Result (Bytes × ℕ) (Forceps.Error forceps)))
      → sum_sizes forceps bincode 0 rows ≡ sum (oks rows) % u64_mod
  counts rows = omega (arith, sum_sizes-sum 0 rows)

  -- A cache that opens has counted what it holds.
  pub new-IsCounted :
      (config : FsConfig) (now : SystemTime) {s : FileSystemCache forceps bincode}
      → new forceps bincode config now ≡ ok s
      → IsCounted s
  unfolding new update_real_size
  new-IsCounted config now {s} h =
      let (cache, built, same) = map_ok-eq-ok _ _ h in
      subst IsCounted same (counts (Forceps.metadata_iter forceps cache))

  -- A report, an hour or more after the last count or after the clock was set back, is the real size
  -- (in 64 bits) and stores it with its time; before, it is the counter and changes nothing.
  pub find_size-eq :
      (time : SystemTime) (s : FileSystemCache forceps bincode)
      → find_size forceps bincode time s ≡ (
          if leb min_time ((now_as_millis time + u64_mod - s.last_fetch) % u64_mod)
          then (
            real_size s.cache % u64_mod,
            record s { total = real_size s.cache % u64_mod; last_fetch = now_as_millis time },
          )
          else (s.total, s))
  unfolding find_size update_real_size
  find_size-eq time s = rw (counts (Forceps.metadata_iter forceps s.cache)) refl

  module _ (sha : Sha256) where
    -- A save that succeeds keeps the counter exact, but for the size of the file that it replaces:
    -- the counter is then too large by just that size, until the next count.
    pub total-save :
        (now : SystemTime) (key : ImageKey) (mime_type : Str) (bytes : Bytes)
        (s : FileSystemCache forceps bincode)
        → IsCounted s
        → (save forceps bincode sha now key mime_type bytes s).0 ≡ true
        → (save forceps bincode sha now key mime_type bytes s).1.total
          ≡ (real_size (save forceps bincode sha now key mime_type bytes s).1.cache
              + size_at (lookup (as_bkey sha key) (oks (Forceps.metadata_iter forceps s.cache))))
            % u64_mod
    unfolding written
    total-save now key mime_type bytes s counted saved =
        let (file, encoded, ran, done) =
          save-eq-true forceps bincode sha now key mime_type bytes s saved in
        let b = as_bkey sha key in
        let db = (Forceps.write forceps b file s.cache).1 in
        let sizes =
          sum-write b (length file) (oks (Forceps.metadata_iter forceps s.cache))
            (oks (Forceps.metadata_iter forceps db)) (forceps.metadata-Distinct s.cache)
            (forceps.metadata-Distinct db) (λ j. forceps.metadata-write b j file s.cache done) in
        rw ran (
          rw (written-ok file s (Forceps.write forceps b file s.cache) done)
            (omega (arith, counted, sizes)))
      where
        written-ok :
            (file : Bytes) (s : FileSystemCache forceps bincode)
            (ran : Result (Unit {0}) (Forceps.Error forceps) × Forceps.Db forceps)
            → ran.0 ≡ ok tt
            → (written forceps bincode sha file s ran).1
              ≡ record s { cache = ran.1; total = (s.total + length file) % u64_mod }
        written-ok file s (ok _, db) h = refl
        written-ok file s (err e, db) h = absurd (cc h)
