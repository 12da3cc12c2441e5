-- ===== src/Cache/Fs/Db.antt =====
-- The `forceps` crate as src/cache/fs.rs uses it: a file for each key, and metadata with its size.
use scalpel.Common.{
  ℕ, ◌+◌, ◌≤◌, Str, Bytes, false, List, [], ◌∷◌, length, Result, ok, err, Option, none, some, ◌≡◌,
  ◌⊎◌, bytes_eq, if◌then◌else◌,
}
use scalpel.Common.Assoc.{lookup, Distinct}

-- The rows that can be read.
abbrev pub oks {ℓ} : {A E : Type ℓ} → List (Result A E) → List A
oks [] = []
oks (ok a ∷ rows) = a ∷ oks rows
oks (err _ ∷ rows) = oks rows

abbrev pub sum : List (Bytes × ℕ) → ℕ
sum [] = 0
sum ((_, size) ∷ rows) = size + sum rows

pub record Forceps : Type 1 where
  pub Db : Type 0
  pub Error : Type 0
  -- `Cache::new(path)` with the size of its memory and of its buffer
  pub build : Str → ℕ → ℕ → Result Db Error
  pub read : Bytes → Db → Result Bytes Error × Db
  pub write : Bytes → Bytes → Db → Result (Unit {0}) Error × Db
  -- the keys with `Metadata::get_size`
  pub metadata_iter : Db → List (Result (Bytes × ℕ) Error)
  -- `evict_with(FifoEvictor::new(min))`
  pub evict_with_fifo : ℕ → Db → Result (Unit {0}) Error × Db
  -- the file that stands under a key
  pub value : Bytes → Db → Option Bytes
  pub read-value : (k : Bytes) (db : Db) {b : Bytes} → (read k db).0 ≡ ok b → value k db ≡ some b
  pub value-read : (k j : Bytes) (db : Db) → value j (read k db).1 ≡ value j db
  pub value-write :
      (k j v : Bytes) (db : Db)
      → (write k v db).0 ≡ ok tt
      → value j (write k v db).1 ≡ (if bytes_eq k j then some v else value j db)
  -- A write that fails was made or not, and touches no other key either way.
  pub value-write_other :
      (k j v : Bytes) (db : Db) → bytes_eq k j ≡ false → value j (write k v db).1 ≡ value j db
  pub value-evict :
      (min : ℕ) (j : Bytes) (db : Db)
      → (value j (evict_with_fifo min db).1 ≡ value j db)
        ⊎ (value j (evict_with_fifo min db).1 ≡ none)
  pub metadata-Distinct : (db : Db) → Distinct (oks (metadata_iter db))
  pub metadata-write :
      (k j v : Bytes) (db : Db)
      → (write k v db).0 ≡ ok tt
      → lookup j (oks (metadata_iter (write k v db).1))
        ≡ (if bytes_eq k j then some (length v) else lookup j (oks (metadata_iter db)))
  pub metadata-evict :
      (min : ℕ) (db : Db)
      → (evict_with_fifo min db).0 ≡ ok tt
      → sum (oks (metadata_iter (evict_with_fifo min db).1)) ≤ min
