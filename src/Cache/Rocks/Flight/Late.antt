-- ===== src/Cache/Rocks/Flight/Late.antt =====
-- src/cache/rocks.rs: a put that is in flight after its save failed can land on the entry of a later
-- save that succeeded.
use scalpel.Common.{
  zero, ◌+◌, ◌%◌, Bytes, Bool, false, List, [], ◌∷◌, Result, ok, err, some, ◌≡◌, refl, sym, ap, ◌∙◌,
  bytes_eq_refl,
}
use scalpel.Common.Assoc.{lookup}
use scalpel.Utils.{u64_mod}
use scalpel.Cache.Key.{ImageKey, Sha256, as_bkey}
use scalpel.Cache.Entry.{ImageEntry, Bincode}
use scalpel.Cache.Rocks.Db.{images_cf, meta_cf, RocksDb}
use scalpel.Cache.Rocks.Store.{
  RocksCache, CacheError, Put, put_cf_async, put_future, after_first, run_both, try_join,
  save_entry, integrate,
}
use scalpel.Cache.Rocks.Store.RoundTrip.{entries_of, lookup-put_cf_async, save_entry-Stored}
use scalpel.Cache.Rocks.Contract.{content}
use scalpel.Cache.Rocks.Flight.{take_put, land}
use scalpel.Cache.Rocks.Flight.Puts.{put_cf_async-in_flight, save_entry-in_flight}

module _ (rocks : RocksDb) (bincode : Bincode) (sha : Sha256) (save_order load_order : Bool) where
  -- The state when the puts of a save begin.
  abbrev pub counted : ImageEntry → RocksCache rocks bincode → RocksCache rocks bincode
  counted entry s = record s { db_size = (s.db_size + entry.bytes_len) % u64_mod }

  -- A save that writes its metadata first, and fails there, leaves the put of the bytes in flight.
  failed-in_flight :
      (key : ImageKey) (entry : ImageEntry) (meta : Bytes) (s : RocksCache rocks bincode)
      {e : CacheError rocks bincode}
      → bincode.serialize (record entry { bytes = [] }) ≡ ok meta
      → (put_cf_async rocks bincode meta_cf (as_bkey sha key) meta (counted entry s)).0 ≡ err e
      → (save_entry rocks bincode sha false key entry s).1.in_flight
        ≡ record { cf = images_cf; key = as_bkey sha key; val = entry.bytes } ∷ s.in_flight
  unfolding save_entry try_join run_both after_first
  failed-in_flight key entry meta s {e} written failed =
      let k = as_bkey sha key in
      rw (written, save_entry)
        (go (put_cf_async rocks bincode meta_cf k meta (counted entry s)) failed
          (put_cf_async-in_flight rocks bincode meta_cf k meta (counted entry s)))
    where
      go :
          (r : Result (Unit {0}) (CacheError rocks bincode) × RocksCache rocks bincode)
          → r.0 ≡ err e
          → r.1.in_flight ≡ s.in_flight
          → (after_first rocks bincode r
              (put_future rocks bincode images_cf (as_bkey sha key) entry.bytes)).1.in_flight
            ≡ record { cf = images_cf; key = as_bkey sha key; val = entry.bytes } ∷ s.in_flight
      go (ok _, t) h same = absurd (cc h)
      go (err f, t) h same =
          ap (λ puts. record { cf = images_cf; key = as_bkey sha key; val = entry.bytes } ∷ puts)
            same

  -- The newest put in flight lands after a save under its key.
  land-save_entry :
      (key : ImageKey) (entry : ImageEntry) (image : Bytes) (puts : List Put)
      (s s' : RocksCache rocks bincode)
      → s.in_flight ≡ record { cf = images_cf; key = as_bkey sha key; val = image } ∷ puts
      → save_entry rocks bincode sha save_order key entry s ≡ (ok tt, s')
      → (put_cf_async rocks bincode images_cf
          (as_bkey sha key)
          image
          (record s' { in_flight = puts })).0
        ≡ ok tt
      → content rocks bincode sha save_order load_order
          (land rocks bincode (take_put zero s'.in_flight) s')
          (as_bkey sha key)
        ≡ some (record entry { bytes = image })
  unfolding land take_put integrate
  land-save_entry key entry image puts s s' flying saved lands =
      let k = as_bkey sha key in
      let done : (save_entry rocks bincode sha save_order key entry s).0 ≡ ok tt =
        ap (λ r. r.0) saved in
      let after : (save_entry rocks bincode sha save_order key entry s).1 ≡ s' =
        ap (λ r. r.1) saved in
      let (meta, written, (stored, described)) =
        save_entry-Stored rocks bincode sha save_order key entry s done in
      let still : s'.in_flight ≡ record { cf = images_cf; key = k; val = image } ∷ puts =
        sym (ap (λ (t : RocksCache rocks bincode). t.in_flight) after)
        ∙ (save_entry-in_flight rocks bincode sha save_order load_order key entry s done
            ∙ flying) in
      let t : RocksCache rocks bincode = record s' { in_flight = puts } in
      let now = put_cf_async rocks bincode images_cf k image t in
      let bytes : lookup k (entries_of rocks bincode images_cf now.1) ≡ some image =
        lookup-put_cf_async rocks bincode images_cf images_cf k k image t lands
        ∙ rw (bytes_eq_refl k) refl in
      let metadata : lookup k (entries_of rocks bincode meta_cf now.1) ≡ some meta =
        lookup-put_cf_async rocks bincode images_cf meta_cf k k image t lands
        ∙ (ap (λ u. lookup k (entries_of rocks bincode meta_cf u)) (sym after) ∙ described) in
      rw still (rw (bytes, metadata, bincode.round_trip (record entry { bytes = [] }) written) refl)

  -- A save whose metadata cannot be written, with its other put still in flight, a save of another
  -- image under the same key that succeeds, and the landing of that put without an error leave the
  -- key with the metadata of the save that succeeded and the bytes of the one that failed.
  pub late_put-mixed :
      (key : ImageKey) (a b : ImageEntry) (meta : Bytes) (s s₁ s₂ : RocksCache rocks bincode)
      {e : CacheError rocks bincode}
      → bincode.serialize (record a { bytes = [] }) ≡ ok meta
      → (put_cf_async rocks bincode meta_cf (as_bkey sha key) meta (counted a s)).0 ≡ err e
      → (save_entry rocks bincode sha false key a s).1 ≡ s₁
      → save_entry rocks bincode sha save_order key b s₁ ≡ (ok tt, s₂)
      → (put_cf_async rocks bincode images_cf
          (as_bkey sha key)
          a.bytes
          (record s₂ { in_flight = s.in_flight })).0
        ≡ ok tt
      → content rocks bincode sha save_order load_order
          (land rocks bincode (take_put zero s₂.in_flight) s₂)
          (as_bkey sha key)
        ≡ some (record b { bytes = a.bytes })
  late_put-mixed key a b meta s s₁ s₂ written failed first second lands =
      let flying =
        ap (λ (t : RocksCache rocks bincode). t.in_flight) (sym first)
        ∙ failed-in_flight key a meta s written failed in
      land-save_entry key b a.bytes s.in_flight s₁ s₂ flying second lands
