-- ===== src/Cache/Fs/Contract.antt =====
-- src/cache/fs.rs: the engine over files acts on them as on a map from keys to entries.
use scalpel.Common.{
  ℕ, ◌+◌, ◌-◌, ◌%◌, Str, Bytes, true, false, Result, ok, err, map_err, map_err-eq-ok,
  and_then-eq-ok, to_option, Option, none, some, if◌then◌else◌, leb, ◌≡◌, refl, sym, ap, ◌∙◌, inl,
  inr, bytes_eq, Bool-cases, Result-cases,
}
use scalpel.Utils.{u64_mod, SystemTime, now_as_millis}
use scalpel.Cache.Key.{ImageKey, Sha256, as_bkey}
use scalpel.Cache.Entry.{ImageEntry, Bincode}
use scalpel.Cache.Entry
use scalpel.Cache.Contract.{Kept, IsMap}
use scalpel.Cache.Fs.Db.{Forceps}
use scalpel.Cache.Fs.{
  FileSystemCache, min_time, update_real_size, find_size, read_from_db, written, write_bytes,
  save_to_db, load, save, is_ok, report, evicted, shrink, fs_engine, forceps_error, bincode_error,
}

module _ (forceps : Forceps) (bincode : Bincode) (sha : Sha256) where
  abbrev Cache : Type 0
  Cache = FileSystemCache forceps bincode

  -- The entry in a file, if there is one that can be read.
  abbrev pub entry_in : Option Bytes → Option ImageEntry
  entry_in none = none
  entry_in (some file) = to_option (bincode.deserialize file)

  abbrev pub content : Cache → Bytes → Option ImageEntry
  content s k = entry_in (Forceps.value forceps k s.cache)

  to_option-some :
      {E : Type 0} (r : Result ImageEntry E) {entry : ImageEntry}
      → to_option r ≡ some entry
      → r ≡ ok entry
  to_option-some (ok e) h = cc
  to_option-some (err e) h = cc

  load-content_lem :
      (key : ImageKey) (s : Cache) {entry : ImageEntry}
      → (load forceps bincode sha key s).0 ≡ some entry
      → content s (as_bkey sha key) ≡ some entry
  unfolding load read_from_db
  load-content_lem key s found =
      let k = as_bkey sha key in
      let (file, read, decoded) =
        and_then-eq-ok (map_err forceps_error (Forceps.read forceps k s.cache).0)
          (λ bytes. map_err bincode_error (bincode.deserialize bytes)) (to_option-some _ found) in
      let there =
        forceps.read-value k s.cache
          (map_err-eq-ok forceps_error (Forceps.read forceps k s.cache).0 read) in
      let whole = map_err-eq-ok bincode_error (bincode.deserialize file) decoded in
      rw (there, whole) refl

  content-load_lem :
      (key : ImageKey) (s : Cache) (k : Bytes)
      → content (load forceps bincode sha key s).1 k ≡ content s k
  unfolding load read_from_db
  content-load_lem key s k = ap entry_in (forceps.value-read (as_bkey sha key) k s.cache)

  -- A file that was written in full.
  pub written-eq-ok :
      (file : Bytes) (s : Cache)
      (ran : Result (Unit {0}) (Forceps.Error forceps) × Forceps.Db forceps)
      → is_ok forceps bincode sha (written forceps bincode sha file s ran).0 ≡ true
      → ran.0 ≡ ok tt
  unfolding written
  written-eq-ok file s (ok _, db) h = refl
  written-eq-ok file s (err e, db) h = absurd (cc h)

  pub written-cache :
      (file : Bytes) (s : Cache)
      (ran : Result (Unit {0}) (Forceps.Error forceps) × Forceps.Db forceps)
      → (written forceps bincode sha file s ran).1.cache ≡ ran.1
  unfolding written
  written-cache file s (ok _, db) = refl
  written-cache file s (err e, db) = refl

  -- A save that succeeds has written a file in which the entry is found.
  pub save-eq-true :
      (now : SystemTime) (key : ImageKey) (mime_type : Str) (bytes : Bytes) (s : Cache)
      → (save forceps bincode sha now key mime_type bytes s).0 ≡ true
      → (file : Bytes) × (bincode.serialize (Entry.new sha bytes mime_type now) ≡ ok file)
        × (save forceps bincode sha now key mime_type bytes s).1
          ≡ (written forceps bincode sha file s
              (Forceps.write forceps (as_bkey sha key) file s.cache)).1
        × ((Forceps.write forceps (as_bkey sha key) file s.cache).0 ≡ ok tt)
  unfolding save save_to_db write_bytes
  save-eq-true now key mime_type bytes s saved =
      elim (Result-cases (bincode.serialize (Entry.new sha bytes mime_type now))) [
        | inr (e, failed) ↦ absurd (cc (rw (failed, save) at saved))
        | inl (file, encoded) ↦
            let done =
              written-eq-ok file s (Forceps.write forceps (as_bkey sha key) file s.cache)
                (rw (encoded, save) at saved) in
            (file, encoded, rw (encoded, save) refl, done)
      ]

  content-save_lem :
      (now : SystemTime) (key : ImageKey) (mime_type : Str) (bytes : Bytes) (s : Cache) (k : Bytes)
      → (save forceps bincode sha now key mime_type bytes s).0 ≡ true
      → content (save forceps bincode sha now key mime_type bytes s).1 k ≡ (
          if bytes_eq (as_bkey sha key) k
          then some (Entry.new sha bytes mime_type now)
          else content s k)
  content-save_lem now key mime_type bytes s k saved =
      let (file, encoded, ran, done) = save-eq-true now key mime_type bytes s saved in
      let b = as_bkey sha key in
      let stands =
        ap (λ t. Forceps.value forceps k (FileSystemCache.cache t)) ran
        ∙ (ap (Forceps.value forceps k)
              (written-cache file s (Forceps.write forceps b file s.cache))
            ∙ forceps.value-write b k file s.cache done) in
      let read = ap to_option (bincode.round_trip (Entry.new sha bytes mime_type now) encoded) in
      elim (Bool-cases (bytes_eq b k)) [
        | inl same ↦ rw same (ap entry_in (rw same at stands) ∙ read)
        | inr other ↦ rw other (ap entry_in (rw other at stands))
      ]

  content-save_other_lem :
      (now : SystemTime) (key : ImageKey) (mime_type : Str) (bytes : Bytes) (s : Cache) (k : Bytes)
      → bytes_eq (as_bkey sha key) k ≡ false
      → content (save forceps bincode sha now key mime_type bytes s).1 k ≡ content s k
  unfolding save save_to_db write_bytes
  content-save_other_lem now key mime_type bytes s k other =
      elim (Result-cases (bincode.serialize (Entry.new sha bytes mime_type now))) [
        | inr (e, failed) ↦ rw (failed, save) refl
        | inl (file, encoded) ↦
            let b = as_bkey sha key in
            rw (encoded, save)
              (ap (λ db. entry_in (Forceps.value forceps k db))
                  (written-cache file s (Forceps.write forceps b file s.cache))
                ∙ ap entry_in (forceps.value-write_other b k file s.cache other))
      ]

  content-report_lem :
      (clock : ℕ → SystemTime) (s : Cache) (k : Bytes)
      → Kept (content s k) (content (report forceps bincode sha clock s).1 k)
  unfolding report find_size update_real_size
  content-report_lem clock s k =
      elim (Bool-cases
        (leb min_time ((now_as_millis (clock 0) + u64_mod - s.last_fetch) % u64_mod))) [
          | inl old ↦ inl (rw (old, report) refl)
          | inr fresh ↦ inl (rw (fresh, report) refl)
        ]

  pub evicted-cache :
      (s : Cache) (ran : Result (Unit {0}) (Forceps.Error forceps) × Forceps.Db forceps)
      → (evicted forceps bincode sha s ran).1.cache ≡ ran.1
  unfolding evicted update_real_size
  evicted-cache s (ok _, db) = refl
  evicted-cache s (err e, db) = refl

  content-shrink_lem :
      (clock : ℕ → SystemTime) (min : ℕ) (s : Cache) (k : Bytes) {r : Result ℕ (Unit {0})}
      {s' : Cache}
      → shrink forceps bincode sha clock min s ≡ some (r, s')
      → Kept (content s k) (content s' k)
  unfolding shrink
  content-shrink_lem clock min s k {r} {s'} h =
      let ran = Forceps.evict_with_fifo forceps min s.cache in
      let ends : (evicted forceps bincode sha s ran).1 ≡ s' = cc h in
      let left : s'.cache ≡ ran.1 =
        ap (λ t. FileSystemCache.cache t) (sym ends) ∙ evicted-cache s ran in
      let now = ap (λ db. entry_in (Forceps.value forceps k db)) left in
      elim (forceps.value-evict min k s.cache) [
        | inl kept ↦ inl (now ∙ ap entry_in kept)
        | inr gone ↦ inr (now ∙ ap entry_in gone)
      ]

  -- The engine over files refines the same map as the engine over RocksDB: what a load finds is
  -- held, a save that succeeds inserts exactly its entry, one that fails changes nothing under keys
  -- with other bytes, and a count or an eviction, however it ends, only takes entries away.
  pub fs_engine-IsMap : IsMap sha (fs_engine forceps bincode sha)
  fs_engine-IsMap = record {
    content = content;
    load-content = λ key s {entry} h. load-content_lem key s {entry = entry} h;
    content-load = content-load_lem;
    content-save = content-save_lem;
    content-save_other = content-save_other_lem;
    content-report = content-report_lem;
    content-shrink =
        λ clock min s k {r} {c'} h. content-shrink_lem clock min s k {r = r} {s' = c'} h;
  }
