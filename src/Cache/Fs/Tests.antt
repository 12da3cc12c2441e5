-- ===== src/Cache/Fs/Tests.antt =====
-- The engine over files at a list of files: what it does, and the theorems about it.
use scalpel.Common.{
  ℕ, ◌+◌, ◌%◌, Str, Bytes, true, false, List, [], ◌∷◌, codes, ok, Option, none, some, ◌≡◌, refl,
  bytes_eq,
}
use scalpel.Common.Assoc.{lookup, without}
use scalpel.Utils.{u64_mod, SystemTime, now_as_millis}
use scalpel.Config.{FsConfig}
use scalpel.Cache.Key.{ImageKey, as_bkey}
use scalpel.Cache.Entry.{ImageEntry}
use scalpel.Cache.Entry
use scalpel.Cache.Contract.{
  IsMap, Call, load, save, report, shrink, run, step, saved, shrunk, and_run, found_after_calls,
}
use scalpel.Cache.Rocks.Toy.{toy_sha, toy_bincode}
use scalpel.Cache.Fs.Db.{Forceps, oks}
use scalpel.Cache.Fs.Sums.{size_at}
use scalpel.Cache.Fs.Toy.{toy_forceps, fit}
use scalpel.Cache.Fs.{
  FileSystemCache, sum_sizes, update_real_size, new, find_size, read_from_db, written, write_bytes,
  save_to_db, evicted, fs_engine,
}
use scalpel.Cache.Fs
use scalpel.Cache.Fs.Contract.{fs_engine-IsMap}
use scalpel.Cache.Fs.Count.{real_size, IsCounted, new-IsCounted, find_size-eq, total-save}

abbrev config : FsConfig
config = record { path = codes "cache"; rw_buffer_size = 8; lru_size_mebibytes = 16 }

abbrev fresh : FileSystemCache toy_forceps toy_bincode
fresh = record { cache = ([], tt); last_fetch = 5; total = 0 }

opens : new toy_forceps toy_bincode config (ok 5) ≡ ok fresh
unfolding new update_real_size sum_sizes now_as_millis
opens = refl

abbrev key : ImageKey
key = record { chapter = codes "ab"; image = codes "1.png"; data_saver = false }

abbrev other : ImageKey
other = record key { chapter = codes "cd" }

abbrev png : Str
png = codes "png"

abbrev one : FileSystemCache toy_forceps toy_bincode
one = (Fs.save toy_forceps toy_bincode toy_sha (ok 7) key png (1 ∷ 2 ∷ []) fresh).1

saves_one : (Fs.save toy_forceps toy_bincode toy_sha (ok 7) key png (1 ∷ 2 ∷ []) fresh).0 ≡ true
unfolding Fs.save save_to_db write_bytes written
saves_one = refl

counts_one : IsCounted toy_forceps toy_bincode one
unfolding Fs.save save_to_db write_bytes written Entry.new as_bkey without
counts_one = refl

new-IsCounted_example : IsCounted toy_forceps toy_bincode fresh
new-IsCounted_example = new-IsCounted toy_forceps toy_bincode config (ok 5) opens

find_size-eq_example : find_size toy_forceps toy_bincode (ok 3600005) one ≡ (
  real_size toy_forceps toy_bincode one.cache % u64_mod,
  record one {
    total = real_size toy_forceps toy_bincode one.cache % u64_mod;
    last_fetch = now_as_millis (ok 3600005);
  },
)
unfolding now_as_millis Fs.save
find_size-eq_example = find_size-eq toy_forceps toy_bincode (ok 3600005) one

saves_again : (Fs.save toy_forceps toy_bincode toy_sha (ok 9) key png (3 ∷ []) one).0 ≡ true
unfolding Fs.save save_to_db write_bytes written
saves_again = refl

total-save_example :
    (Fs.save toy_forceps toy_bincode toy_sha (ok 9) key png (3 ∷ []) one).1.total
    ≡ (real_size toy_forceps toy_bincode
          (Fs.save toy_forceps toy_bincode toy_sha (ok 9) key png (3 ∷ []) one).1.cache
        + size_at
            (lookup (as_bkey toy_sha key) (oks (Forceps.metadata_iter toy_forceps one.cache))))
      % u64_mod
total-save_example =
    total-save toy_forceps toy_bincode toy_sha (ok 9) key png (3 ∷ []) one counts_one saves_again

-- A second image, and room for one of the two.
abbrev two : FileSystemCache toy_forceps toy_bincode
two = (Fs.save toy_forceps toy_bincode toy_sha (ok 8) other png (3 ∷ []) one).1

abbrev clock : ℕ → SystemTime
clock n = ok (n + 9)

abbrev shrunk_two : FileSystemCache toy_forceps toy_bincode
shrunk_two =
    (evicted toy_forceps toy_bincode toy_sha two
      (Forceps.evict_with_fifo toy_forceps 15 two.cache)).1

shrinks_two : Fs.shrink toy_forceps toy_bincode toy_sha clock 15 two ≡ some (ok 9, shrunk_two)
unfolding Fs.shrink evicted update_real_size sum_sizes fit Fs.save save_to_db write_bytes written
    Entry.new as_bkey without bytes_eq
shrinks_two = refl

fs_engine-IsMap_example : IsMap toy_sha (fs_engine toy_forceps toy_bincode toy_sha)
fs_engine-IsMap_example = fs_engine-IsMap toy_forceps toy_bincode toy_sha

-- The first image is the one that the eviction drops.
abbrev calls : List Call
calls =
    save (ok 7) key png (1 ∷ 2 ∷ [])
    ∷ save (ok 8) other png (3 ∷ [])
    ∷ report clock
    ∷ shrink clock 15
    ∷ load key
    ∷ []

abbrev known : Bytes → Option ImageEntry
known =
    saved toy_sha (fs_engine toy_forceps toy_bincode toy_sha) true (as_bkey toy_sha other)
      (Entry.new toy_sha (3 ∷ []) png (ok 8))
      (saved toy_sha (fs_engine toy_forceps toy_bincode toy_sha) true (as_bkey toy_sha key)
        (Entry.new toy_sha (1 ∷ 2 ∷ []) png (ok 7)) (λ _. none))

runs :
    run toy_sha (fs_engine toy_forceps toy_bincode toy_sha) calls fresh (λ _. none)
    ≡ some (shrunk_two, known)
unfolding run step and_run shrunk Fs.load Fs.report read_from_db find_size Fs.shrink evicted
    update_real_size sum_sizes fit Fs.save save_to_db write_bytes written Entry.new as_bkey without
    bytes_eq now_as_millis lookup
runs = refl

known-other : known (as_bkey toy_sha other) ≡ some (Entry.new toy_sha (3 ∷ []) png (ok 8))
unfolding saved as_bkey bytes_eq
known-other = refl

finds_other :
    (Fs.load toy_forceps toy_bincode toy_sha other shrunk_two).0
    ≡ some (Entry.new toy_sha (3 ∷ []) png (ok 8))
unfolding Fs.load read_from_db evicted update_real_size fit Fs.save save_to_db write_bytes written
    Entry.new as_bkey without bytes_eq lookup
finds_other = refl

found_after_calls_test :
    Entry.new toy_sha (3 ∷ []) png (ok 8) ≡ Entry.new toy_sha (3 ∷ []) png (ok 8)
found_after_calls_test =
    found_after_calls toy_sha (fs_engine toy_forceps toy_bincode toy_sha)
      (fs_engine-IsMap toy_forceps toy_bincode toy_sha) calls fresh other
      (Entry.new toy_sha (3 ∷ []) png (ok 8)) runs known-other finds_other
