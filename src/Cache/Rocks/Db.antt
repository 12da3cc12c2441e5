-- ===== src/Cache/Rocks/Db.antt =====
-- The `rocksdb` crate as src/cache/rocks.rs uses it: a database with two column families, "data"
-- and "meta", both opened with the database, and tasks on tokio's blocking threads.
use scalpel.Common.{
  Bytes, Bool, true, false, List, Result, ok, Option, none, some, ◌≡◌, refl, ◌⊎◌, inl, inr,
  bytes_eq, if◌then◌else◌,
}
use scalpel.Common.Assoc.{lookup, without, Distinct}

pub data Cf : Type 0 where
  images_cf meta_cf : Cf

abbrev pub same_cf : Cf → Cf → Bool
same_cf images_cf images_cf = true
same_cf meta_cf meta_cf = true
same_cf _ _ = false

pub record RocksDb : Type 1 where
  pub Db : Type 0
  pub Error : Type 0
  pub JoinError : Type 0
  pub put_cf : Cf → Bytes → Bytes → Db → Result (Unit {0}) Error × Db
  pub delete_cf : Cf → Bytes → Db → Result (Unit {0}) Error × Db
  pub get_cf : Cf → Bytes → Db → Result (Option Bytes) Error
  -- a snapshot of the entries, in the order of iteration
  pub iterator_cf : Cf → Db → List (Bytes × Bytes)
  -- whether a blocking task is cancelled before it starts
  pub cancelled : Db → Option JoinError
  pub iterator-Distinct : (c : Cf) (db : Db) → Distinct (iterator_cf c db)
  pub get-iterator :
      (c : Cf) (k : Bytes) (db : Db) {o : Option Bytes}
      → get_cf c k db ≡ ok o
      → o ≡ lookup k (iterator_cf c db)
  pub lookup-put :
      (c d : Cf) (k j v : Bytes) (db : Db) {db' : Db}
      → put_cf c k v db ≡ (ok tt, db')
      → lookup j (iterator_cf d db') ≡ (
          if same_cf c d
          then (if bytes_eq k j then some v else lookup j (iterator_cf d db))
          else lookup j (iterator_cf d db))
  pub iterator-delete :
      (c d : Cf) (k : Bytes) (db : Db) {db' : Db}
      → delete_cf c k db ≡ (ok tt, db')
      → iterator_cf d db' ≡ (if same_cf c d then without k (iterator_cf d db) else iterator_cf d db)
  -- A write that fails was made or not, and touches no other key either way.
  pub lookup-put_any :
      (c d : Cf) (k j v : Bytes) (db : Db) {r : Result (Unit {0}) Error} {db' : Db}
      → put_cf c k v db ≡ (r, db')
      → (lookup j (iterator_cf d db') ≡ lookup j (iterator_cf d db))
        ⊎ ((same_cf c d ≡ true) × (bytes_eq k j ≡ true) × (lookup j (iterator_cf d db') ≡ some v))
  pub lookup-delete :
      (c d : Cf) (k j : Bytes) (db : Db) {r : Result (Unit {0}) Error} {db' : Db}
      → delete_cf c k db ≡ (r, db')
      → (lookup j (iterator_cf d db') ≡ lookup j (iterator_cf d db))
        ⊎ (lookup j (iterator_cf d db') ≡ none)

-- A write under another key changes nothing.
pub lookup-put_other :
    (rocks : RocksDb) (c d : Cf) (k j v : Bytes) (db : RocksDb.Db rocks)
    → bytes_eq k j ≡ false
    → lookup j (RocksDb.iterator_cf rocks d (RocksDb.put_cf rocks c k v db).1)
      ≡ lookup j (RocksDb.iterator_cf rocks d db)
lookup-put_other rocks c d k j v db other = elim (rocks.lookup-put_any c d k j v db refl) [
  | inl same ↦ same
  | inr (_, matches, _) ↦ absurd (cc (other, matches))
]
