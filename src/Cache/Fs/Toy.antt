-- ===== src/Cache/Fs/Toy.antt =====
-- Files held in a list, the newest first, which meet the interface that src/cache/fs.rs is given.
use scalpel.Common.{
  ℕ, ◌-◌, ◌≤◌, Bytes, false, List, [], ◌∷◌, length, Result, ok, Option, none, some, if◌then◌else◌,
  leb, ◌≡◌, refl, sym, ap, ◌∙◌, arith, bytes_eq, inl, inr, ◌⊎◌, Bool-cases, ok_or,
}
use scalpel.Common.Assoc.{lookup, Distinct, lookup-without}
use scalpel.Cache.Rocks.Toy.{Table, put, ok_value}
use scalpel.Cache.Fs.Db.{Forceps, oks, sum}

abbrev Files : Type 0
Files = List (Bytes × Bytes)

abbrev pub rows : Files → List (Result (Bytes × ℕ) (Unit {0}))
rows [] = []
rows ((k, v) ∷ l) = ok (k, length v) ∷ rows l

abbrev len : Option Bytes → Option ℕ
len none = none
len (some v) = some (length v)

pub lookup-rows : (j : Bytes) (l : Files) → lookup j (oks (rows l)) ≡ len (lookup j l)
unfolding lookup
lookup-rows j [] = refl
lookup-rows j ((k, v) ∷ l) = ground (arith, lookup-rows j l)

pub rows-Distinct : (l : Files) → Distinct l → Distinct (oks (rows l))
rows-Distinct [] d = tt
rows-Distinct ((k, v) ∷ l) d = (lookup-rows k l ∙ ap len d.0, rows-Distinct l d.1)

-- The newest files that fit together.
unfoldable pub fit : ℕ → Files → Files
fit min [] = []
fit min ((k, v) ∷ l) =
    let rest = fit (min - length v) l in if leb (length v) min then (k, v) ∷ rest else []

pub lookup-fit :
    (min : ℕ) (j : Bytes) (l : Files)
    → (lookup j (fit min l) ≡ lookup j l) ⊎ (lookup j (fit min l) ≡ none)
unfolding fit lookup
lookup-fit min j [] = inl refl
lookup-fit min j ((k, v) ∷ l) = ground (arith, lookup-fit (min - length v) j l)

pub fit-Distinct : (min : ℕ) (l : Files) → Distinct l → Distinct (fit min l)
unfolding fit
fit-Distinct min [] d = tt
fit-Distinct min ((k, v) ∷ l) d = elim (Bool-cases (leb (length v) min)) [
  | inr large ↦ rw (large, fit) tt
  | inl fits ↦
      rw (fits, fit)
        (
          elim (lookup-fit (min - length v) k l) [ inl same ↦ same ∙ d.0 | inr gone ↦ gone ],
          fit-Distinct (min - length v) l d.1,
        )
]

pub sum-fit : (min : ℕ) (l : Files) → sum (oks (rows (fit min l))) ≤ min
unfolding fit
sum-fit min [] = omega arith
sum-fit min ((k, v) ∷ l) = elim (Bool-cases (leb (length v) min)) [
  | inr large ↦ rw (large, fit) (omega arith)
  | inl fits ↦ rw (fits, fit) (ground (arith, sum-fit (min - length v) l))
]

abbrev pub evict : ℕ → Table → Table
evict min (l, d) = (fit min l, fit-Distinct min l d)

pub lookup-put_lem :
    (k j v : Bytes) (db : Table)
    → lookup j (put k v db).0 ≡ (if bytes_eq k j then some v else lookup j db.0)
unfolding lookup
lookup-put_lem k j v db = ground (arith, lookup-without k j db.0)

pub lookup-put_other :
    (k j v : Bytes) (db : Table) → bytes_eq k j ≡ false → lookup j (put k v db).0 ≡ lookup j db.0
lookup-put_other k j v db other = lookup-put_lem k j v db ∙ rw other refl

pub rows-put :
    (k j v : Bytes) (db : Table)
    → lookup j (oks (rows (put k v db).0))
      ≡ (if bytes_eq k j then some (length v) else lookup j (oks (rows db.0)))
rows-put k j v db = elim (Bool-cases (bytes_eq k j)) [
  | inl same ↦
      rw same (lookup-rows j (put k v db).0 ∙ ap len (rw same at (lookup-put_lem k j v db)))
  | inr other ↦ rw other (
      lookup-rows j (put k v db).0
      ∙ (ap len (lookup-put_other k j v db other) ∙ sym (lookup-rows j db.0)))
]

pub found : (o : Option Bytes) {b : Bytes} → ok_or {E = Unit {0}} tt o ≡ ok b → o ≡ some b
found none h = absurd (cc h)
found (some a) h = ap some (ok_value h)

-- Files of which all that stand are read, and all writes succeed.
abbrev pub toy_forceps : Forceps
toy_forceps = record {
  Db = Table;
  Error = Unit {0};
  build = λ path lru rw_buffer. ok ([], tt);
  read = λ k db. (ok_or tt (lookup k db.0), db);
  write = λ k v db. (ok tt, put k v db);
  metadata_iter = λ db. rows db.0;
  evict_with_fifo = λ min db. (ok tt, evict min db);
  value = λ k db. lookup k db.0;
  read-value = λ k db {b} h. found (lookup k db.0) h;
  value-read = λ k j db. refl;
  value-write = λ k j v db h. lookup-put_lem k j v db;
  value-write_other = lookup-put_other;
  value-evict = λ min j db. lookup-fit min j db.0;
  metadata-Distinct = λ db. rows-Distinct db.0 db.1;
  metadata-write = λ k j v db h. rows-put k j v db;
  metadata-evict = λ min db h. sum-fit min db.0;
}
