-- ===== src/Cache/Rocks/Flight.antt =====
-- src/cache/rocks.rs: a save that returns at the first error leaves its other put in flight, on a
-- blocking thread. The put lands later, between any two calls, or is lost.
pub mod Puts
pub mod Found
pub mod Late
mod Tests
use scalpel.Common.{
  ℕ, zero, suc, Bool, List, [], ◌∷◌, Result, Option, none, some, ◌≡◌, ◌⊎◌, inl, inr, All, refl,
  Option-cases, Bytes,
}
use scalpel.Utils.{SystemTime}
use scalpel.Cache.Key.{ImageKey, Sha256}
use scalpel.Cache.Entry.{ImageEntry, Bincode}
use scalpel.Cache.Contract.{Call, load, save, report, shrink}
use scalpel.Cache.Rocks.Db.{RocksDb}
use scalpel.Cache.Rocks.Store.{RocksCache, Put, put_cf_async}
use scalpel.Cache.Rocks.Engine

-- A put of the list, and the others.
unfoldable pub take_put : ℕ → List Put → Option (Put × List Put)
take_put n [] = none
take_put zero (put ∷ puts) = some (put, puts)
take_put (suc n) (put ∷ puts) = elim (take_put n puts) [
  | none ↦ none
  | some (taken, rest) ↦ some (taken, put ∷ rest)
]

-- A call on the engine, or a put in flight that lands or is lost.
pub data Event : Type 0 where
  called : Call → Event
  landed lost : ℕ → Event

module _ (rocks : RocksDb) (bincode : Bincode) where
  unfoldable pub land :
      Option (Put × List Put) → RocksCache rocks bincode → RocksCache rocks bincode
  land none s = s
  land (some (put, rest)) s =
      (put_cf_async rocks bincode put.cf put.key put.val (record s { in_flight = rest })).1

  unfoldable pub lose :
      Option (Put × List Put) → RocksCache rocks bincode → RocksCache rocks bincode
  lose none s = s
  lose (some (put, rest)) s = record s { in_flight = rest }

  module _ (sha : Sha256) (save_order load_order : Bool) where
    unfoldable pub shrunk :
        Option (Result ℕ (Unit {0}) × RocksCache rocks bincode) → Option (RocksCache rocks bincode)
    shrunk none = none
    shrunk (some (r, s)) = some s

    -- What an event leaves, whatever a call gives; `none` is a call that does not end.
    unfoldable pub happen : Event → RocksCache rocks bincode → Option (RocksCache rocks bincode)
    unfolding land lose shrunk
    happen (called (load key)) s =
        some (Engine.load rocks bincode sha save_order load_order key s).1
    happen (called (save now key mime_type bytes)) s =
        some (Engine.save rocks bincode sha save_order load_order now key mime_type bytes s).1
    happen (called (report clock)) s =
        some (Engine.report rocks bincode sha save_order load_order clock s).1
    happen (called (shrink clock min)) s =
        shrunk (Engine.shrink rocks bincode sha save_order load_order clock min s)
    happen (landed n) s = some (land (take_put n s.in_flight) s)
    happen (lost n) s = some (lose (take_put n s.in_flight) s)

    unfoldable pub and_happen :
        (RocksCache rocks bincode → Option (RocksCache rocks bincode))
        → Option (RocksCache rocks bincode)
        → Option (RocksCache rocks bincode)
    and_happen rest none = none
    and_happen rest (some s) = rest s

    unfoldable pub happen_all :
        List Event → RocksCache rocks bincode → Option (RocksCache rocks bincode)
    unfolding happen and_happen
    happen_all [] s = some s
    happen_all (event ∷ events) s = and_happen (happen_all events) (happen event s)
