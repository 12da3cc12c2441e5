-- ===== src/Cache/Rocks/Toy.antt =====
-- A database held in two lists, and simple encodings, which meet the interfaces that
-- src/cache/rocks.rs is given.
use scalpel.Common.{
  Bytes, List, [], ◌∷◌, ◌++◌, length, take, drop, take-append, drop-append, append_assoc, Result,
  ok, err, none, some, if◌then◌else◌, ◌≡◌, refl, sym, ap, ◌∙◌, subst, arith, bytes_eq,
  bytes_eq_refl, true, inl, ◌⊎◌,
}
use scalpel.Common.Assoc.{lookup, without, Distinct, lookup-without, Distinct-without}
use scalpel.Cache.Key.{Sha256}
use scalpel.Cache.Entry.{ImageEntry, Bincode}
use scalpel.Cache.Rocks.Db.{Cf, images_cf, meta_cf, same_cf, RocksDb}

-- A digest that is what it was fed.
abbrev pub toy_sha : Sha256
toy_sha = record {
  State = Bytes;
  new = [];
  update = λ s b. s ++ b;
  finalize = λ s. s;
  update_update = λ s a b. append_assoc s a b;
}

abbrev pub to_bytes : ImageEntry → Bytes
to_bytes e =
    e.save_time
    ∷ e.bytes_len
    ∷ length e.checksum
    ∷ length e.mime_type
    ∷ (e.checksum ++ (e.mime_type ++ e.bytes))

abbrev from_bytes : Bytes → Result ImageEntry (Unit {0})
from_bytes (time ∷ len ∷ sum ∷ mime ∷ rest) = ok (record {
  save_time = time;
  checksum = take sum rest;
  mime_type = take mime (drop sum rest);
  bytes_len = len;
  bytes = drop mime (drop sum rest);
})
from_bytes _ = err tt

pub from_bytes-to_bytes : (e : ImageEntry) → from_bytes (to_bytes e) ≡ ok e
from_bytes-to_bytes e =
    rw
      (
        take-append e.checksum,
        drop-append e.checksum,
        take-append e.mime_type,
        drop-append e.mime_type,
      )
      refl

pub ok_value : {A : Type 0} {a b : A} → ◌≡◌ {A = Result A (Unit {0})} (ok a) (ok b) → a ≡ b
ok_value h = cc

abbrev pub toy_bincode : Bincode
toy_bincode = record {
  Error = Unit {0};
  serialize = λ e. ok (to_bytes e);
  deserialize = from_bytes;
  round_trip = λ e {bytes} h. subst (λ b. from_bytes b ≡ ok e) (ok_value h) (from_bytes-to_bytes e);
}

abbrev pub Table : Type 0
Table = (l : List (Bytes × Bytes)) × Distinct l

pub lookup-without_same : (k : Bytes) (l : List (Bytes × Bytes)) → lookup k (without k l) ≡ none
lookup-without_same k l = lookup-without k k l ∙ rw (bytes_eq_refl k) refl

abbrev pub put : Bytes → Bytes → Table → Table
put k v (l, d) = ((k, v) ∷ without k l, (lookup-without_same k l, Distinct-without k l d))

abbrev pub delete : Bytes → Table → Table
delete k (l, d) = (without k l, Distinct-without k l d)

abbrev pub at : Cf → Table × Table → Table
at images_cf db = db.0
at meta_cf db = db.1

abbrev pub change : Cf → (Table → Table) → Table × Table → Table × Table
change images_cf f db = (f db.0, db.1)
change meta_cf f db = (db.0, f db.1)

pub after_ok : {A B : Type 0} {x y : B} {r s : A} → ◌≡◌ {A = A × B} (r, x) (s, y) → y ≡ x
after_ok h = sym (ap (λ p. p.1) h)

pub lookup-put_lem :
    (c d : Cf) (k j v : Bytes) (db : Table × Table)
    → lookup j (at d (change c (put k v) db)).0 ≡ (
        if same_cf c d
        then (if bytes_eq k j then some v else lookup j (at d db).0)
        else lookup j (at d db).0)
unfolding lookup
lookup-put_lem images_cf images_cf k j v db = ground (arith, lookup-without k j db.0.0)
lookup-put_lem images_cf meta_cf k j v db = refl
lookup-put_lem meta_cf images_cf k j v db = refl
lookup-put_lem meta_cf meta_cf k j v db = ground (arith, lookup-without k j db.1.0)

pub iterator-delete_lem :
    (c d : Cf) (k : Bytes) (db : Table × Table)
    → (at d (change c (delete k) db)).0
      ≡ (if same_cf c d then without k (at d db).0 else (at d db).0)
iterator-delete_lem images_cf images_cf k db = refl
iterator-delete_lem images_cf meta_cf k db = refl
iterator-delete_lem meta_cf images_cf k db = refl
iterator-delete_lem meta_cf meta_cf k db = refl

pub lookup-put_any_lem :
    (c d : Cf) (k j v : Bytes) (db : Table × Table)
    → (lookup j (at d (change c (put k v) db)).0 ≡ lookup j (at d db).0)
      ⊎ ((same_cf c d ≡ true)
          × (bytes_eq k j ≡ true)
          × (lookup j (at d (change c (put k v) db)).0 ≡ some v))
lookup-put_any_lem c d k j v db = ground (arith, lookup-put_lem c d k j v db)

lookup-without_kept :
    (k j : Bytes) (l : List (Bytes × Bytes))
    → (lookup j (without k l) ≡ lookup j l) ⊎ (lookup j (without k l) ≡ none)
lookup-without_kept k j l = ground (arith, lookup-without k j l)

pub lookup-delete_lem :
    (c d : Cf) (k j : Bytes) (db : Table × Table)
    → (lookup j (at d (change c (delete k) db)).0 ≡ lookup j (at d db).0)
      ⊎ (lookup j (at d (change c (delete k) db)).0 ≡ none)
lookup-delete_lem images_cf images_cf k j db = lookup-without_kept k j db.0.0
lookup-delete_lem images_cf meta_cf k j db = inl refl
lookup-delete_lem meta_cf images_cf k j db = inl refl
lookup-delete_lem meta_cf meta_cf k j db = lookup-without_kept k j db.1.0

-- A database whose operations all succeed, and whose tasks all start.
abbrev pub toy_rocks : RocksDb
toy_rocks = record {
  Db = Table × Table;
  Error = Unit {0};
  JoinError = Unit {0};
  put_cf = λ c k v db. (ok tt, change c (put k v) db);
  delete_cf = λ c k db. (ok tt, change c (delete k) db);
  get_cf = λ c k db. ok (lookup k (at c db).0);
  iterator_cf = λ c db. (at c db).0;
  cancelled = λ db. none;
  iterator-Distinct = λ c db. (at c db).1;
  get-iterator = λ c k db h. sym (ok_value h);
  lookup-put = λ c d k j v db h. rw (after_ok h) (lookup-put_lem c d k j v db);
  iterator-delete = λ c d k db h. rw (after_ok h) (iterator-delete_lem c d k db);
  lookup-put_any = λ c d k j v db h. rw (after_ok h) (lookup-put_any_lem c d k j v db);
  lookup-delete = λ c d k j db h. rw (after_ok h) (lookup-delete_lem c d k j db);
}
