-- ===== src/Cache/Rocks/Store.antt =====
-- src/cache/rocks.rs: the state of the engine, and the operations on single entries. The blocking
-- tasks of one call run one after the other, in an order that is a parameter; a call that returns
-- at the first error leaves the put of its other task in flight.
pub mod RoundTrip
pub mod Frame
use scalpel.Common.{
  ℕ, ◌+◌, ◌%◌, Bytes, Bool, true, false, List, [], ◌∷◌, ◌++◌, Result, ok, err, map_ok, map_err,
  and_then, Option, none, some, if◌then◌else◌,
}
use scalpel.Common.Exec.{Exec, continue, ◌>>=◌, ◌>>◌, pure, raise, modify}
use scalpel.Utils.{u64_mod}
use scalpel.Cache.Key.{ImageKey, Sha256, as_bkey}
use scalpel.Cache.Entry.{ImageEntry, Bincode}
use scalpel.Cache.Rocks.Db.{Cf, images_cf, meta_cf, RocksDb}

-- A put of a blocking task.
pub record Put : Type 0 where
  pub cf : Cf
  pub key : Bytes
  pub val : Bytes

module _ (rocks : RocksDb) (bincode : Bincode) where
  pub data CacheError : Type 0 where
    rocks_error : RocksDb.Error rocks → CacheError
    bincode_error : Bincode.Error bincode → CacheError
    tokio_join : RocksDb.JoinError rocks → CacheError

  pub record RocksCache : Type 0 where
    pub db : RocksDb.Db rocks
    pub db_size : ℕ
    pub last_fetch : ℕ
    -- the puts of calls that have returned, which can still run
    pub in_flight : List Put

  abbrev pub Method : Type 0 → Type 0
  Method A = Exec RocksCache CacheError A

  -- An operation of the database, with its error as a `CacheError::Rocks`.
  abbrev pub db_op :
      {A : Type 0}
      → (RocksDb.Db rocks → Result A (RocksDb.Error rocks) × RocksDb.Db rocks)
      → Method A
  db_op op s = let (r, db') = op s.db in (map_err rocks_error r, record s { db = db' })

  unfoldable pub drop_entry : Bytes → Method (Unit {0})
  drop_entry key = do
    db_op (RocksDb.delete_cf rocks images_cf key)
    db_op (RocksDb.delete_cf rocks meta_cf key)

  -- A blocking task that is cancelled does nothing.
  unfoldable pub spawn_blocking :
      {A : Type 0} → Option (RocksDb.JoinError rocks) → Method A → Method A
  spawn_blocking (some e) op s = (err (tokio_join e), s)
  spawn_blocking none op s = op s

  unfoldable pub db_op_async : {A : Type 0} → Method A → Method A
  unfolding spawn_blocking
  db_op_async op s = spawn_blocking (RocksDb.cancelled rocks s.db) op s

  unfoldable pub put_cf_async : Cf → Bytes → Bytes → Method (Unit {0})
  unfolding db_op_async
  put_cf_async cf key val = db_op_async (db_op (RocksDb.put_cf rocks cf key val))

  unfoldable pub get_cf_async : Cf → Bytes → Method (Option Bytes)
  unfolding db_op_async
  get_cf_async cf key = db_op_async (db_op (λ db. (RocksDb.get_cf rocks cf key db, db)))

  -- A future under `try_join!`: its blocking task, and the puts that the task makes.
  pub record Future (A : Type 0) : Type 0 where
    pub task : Method A
    pub writes : List Put

  abbrev pub put_future : Cf → Bytes → Bytes → Future (Unit {0})
  put_future cf key val = record {
    task = put_cf_async cf key val;
    writes = record { cf = cf; key = key; val = val } ∷ [];
  }

  abbrev pub get_future : Cf → Bytes → Future (Option Bytes)
  get_future cf key = record { task = get_cf_async cf key; writes = [] }

  -- If the task that is done first fails, its error is the result at once, and the other task stays
  -- in flight.
  unfoldable pub after_first :
      {A B : Type 0}
      → Result A CacheError × RocksCache
      → Future B
      → Result (A × B) CacheError × RocksCache
  after_first (err e, s) second = (err e, record s { in_flight = second.writes ++ s.in_flight })
  after_first (ok a, s) second = let (b, s') = second.task s in (map_ok (λ y. (a, y)) b, s')

  unfoldable pub run_both : {A B : Type 0} → Future A → Future B → Method (A × B)
  unfolding after_first
  run_both first second s = after_first (first.task s) second

  unfoldable pub swap : {A B : Type 0} → Result (A × B) CacheError → Result (B × A) CacheError
  swap r = map_ok (λ p. (p.1, p.0)) r

  -- `tokio::try_join!`
  unfoldable pub try_join : {A B : Type 0} → Bool → Future A → Future B → Method (A × B)
  unfolding run_both swap
  try_join left_first left right s =
      if left_first
      then run_both left right s
      else (let (r, s') = run_both right left s in (swap r, s'))

  -- The entry of the metadata with the bytes of the image.
  unfoldable pub integrate : Option Bytes × Option Bytes → Result (Option ImageEntry) CacheError
  integrate (some bytes, some meta) =
      map_ok (λ entry. some (record entry { bytes = bytes }))
        (map_err bincode_error (bincode.deserialize meta))
  integrate (none, _) = ok none
  integrate (some bytes, none) = ok none

  module _ (sha : Sha256) (images_first : Bool) where
    unfoldable pub save_entry : ImageKey → ImageEntry → Method (Unit {0})
    save_entry key entry s =
        let bkey = as_bkey sha key in
        elim (bincode.serialize (record entry { bytes = [] })) [
          | err e ↦ (err (bincode_error e), s)
          | ok meta ↦
              let s₁ = record s { db_size = (s.db_size + entry.bytes_len) % u64_mod } in
              let (r, s₂) =
                try_join images_first (put_future images_cf bkey entry.bytes)
                  (put_future meta_cf bkey meta) s₁ in
              (map_ok (λ _. tt) r, s₂)
        ]

    unfoldable pub load_entry : ImageKey → Method (Option ImageEntry)
    unfolding integrate
    load_entry key s =
        let bkey = as_bkey sha key in
        let (r, s') =
          try_join images_first (get_future images_cf bkey) (get_future meta_cf bkey) s in
        (and_then r integrate, s')
