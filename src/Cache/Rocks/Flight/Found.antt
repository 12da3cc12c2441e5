-- ===== src/Cache/Rocks/Flight/Found.antt =====
-- src/cache/rocks.rs: what is found after a save, when puts of other saves may still be in flight.
use scalpel.Common.{
  ℕ, Str, Bytes, Bool, true, false, List, [], ◌∷◌, Result, Option, none, some, ◌≡◌, refl, sym, ◌∙◌,
  subst, ◌⊎◌, inl, inr, bytes_eq, bytes_eq_refl, All, Option-cases,
}
use mathlib.Core.Option
use scalpel.Utils.{SystemTime}
use scalpel.Cache.Key.{ImageKey, Sha256, as_bkey}
use scalpel.Cache.Entry.{ImageEntry, Bincode}
use scalpel.Cache.Entry
use scalpel.Cache.Contract.{load, save, report, shrink}
use scalpel.Cache.Rocks.Db.{images_cf, meta_cf, RocksDb}
use scalpel.Cache.Rocks.Store.{RocksCache, CacheError, Put}
use scalpel.Cache.Rocks.Store.Frame.{put_cf_async-Agrees}
use scalpel.Cache.Rocks.Size.{get_db_size}
use scalpel.Cache.Rocks.Evict.{evict_entries_fifo}
use scalpel.Cache.Rocks.Loses.{
  IsLess, IsLess-refl, get_db_size-IsLess, EndsLess, evict_entries_fifo-EndsLess,
}
use scalpel.Cache.Rocks.Engine
use scalpel.Cache.Rocks.Engine.{is_ok-true, forget}
use scalpel.Cache.Rocks.Contract.{
  content, load_entry-same, IsLess-Kept, content-save_lem, content-save_other_lem, load-content_lem,
}
use scalpel.Cache.Rocks.Flight.{
  take_put, Event, called, landed, lost, land, lose, shrunk, happen, and_happen, happen_all,
}
use scalpel.Cache.Rocks.Flight.Puts.{
  IsOther, TakesOther, take_put-TakesOther, put_cf_async-in_flight, save_entry-IsOther,
  save_entry-in_flight,
}

module _ (rocks : RocksDb) (bincode : Bincode) (sha : Sha256) (save_order load_order : Bool) where
  abbrev Cache : Type 0
  Cache = RocksCache rocks bincode

  abbrev held : Cache → Bytes → Option ImageEntry
  held = content rocks bincode sha save_order load_order

  -- Under `k` stands the entry or nothing, and no put in flight is under `k`.
  abbrev Holds : Bytes → ImageEntry → Cache → Type 0
  Holds k entry s = ((held s k ≡ none) ⊎ (held s k ≡ some entry)) × IsOther k s.in_flight

  -- The event is not a save under the bytes `k`.
  abbrev pub Spares : Bytes → Event → Type 0
  Spares k (called (save now key mime_type bytes)) = bytes_eq (as_bkey sha key) k ≡ false
  Spares k (called (load key)) = Unit
  Spares k (called (report clock)) = Unit
  Spares k (called (shrink clock min)) = Unit
  Spares k (landed n) = Unit
  Spares k (lost n) = Unit

  EndsHolding : Bytes → ImageEntry → Option Cache → Type 0
  EndsHolding k entry none = Unit
  EndsHolding k entry (some s) = Holds k entry s

  same-Holds :
      (k : Bytes) (entry : ImageEntry) (s s' : Cache)
      → held s' k ≡ held s k
      → IsOther k s'.in_flight
      → Holds k entry s
      → Holds k entry s'
  same-Holds k entry s s' same others (inl gone, _) = (inl (same ∙ gone), others)
  same-Holds k entry s s' same others (inr there, _) = (inr (same ∙ there), others)

  IsLess-Holds :
      (k : Bytes) (entry : ImageEntry) (s s' : Cache)
      → IsLess rocks bincode s s'
      → Holds k entry s
      → Holds k entry s'
  IsLess-Holds k entry s s' less h =
      let others = subst (IsOther k) (sym less.1) h.1 in
      elim (IsLess-Kept rocks bincode sha save_order load_order s s' k less) [
        | inl same ↦ same-Holds k entry s s' same others h
        | inr gone ↦ (inl gone, others)
      ]

  land-Holds :
      (k : Bytes) (entry : ImageEntry) (s : Cache) (o : Option (Put × List Put))
      → TakesOther k o
      → Holds k entry s
      → Holds k entry (land rocks bincode o s)
  unfolding land
  land-Holds k entry s none taken h = h
  land-Holds k entry s (some (put, rest)) (other, others) h =
      let t : Cache = record s { in_flight = rest } in
      let agrees = put_cf_async-Agrees rocks bincode put.cf put.key k put.val t other in
      same-Holds k entry s (land rocks bincode (some (put, rest)) s)
        (rw (agrees images_cf, agrees meta_cf) refl)
        (subst (IsOther k) (sym (put_cf_async-in_flight rocks bincode put.cf put.key put.val t))
          others)
        h

  lose-Holds :
      (k : Bytes) (entry : ImageEntry) (s : Cache) (o : Option (Put × List Put))
      → TakesOther k o
      → Holds k entry s
      → Holds k entry (lose rocks bincode o s)
  unfolding lose
  lose-Holds k entry s none taken h = h
  lose-Holds k entry s (some (put, rest)) (other, others) (there, _) = (there, others)

  save-Holds :
      (k : Bytes) (entry : ImageEntry) (now : SystemTime) (key : ImageKey) (mime_type : Str)
      (bytes : Bytes) (s : Cache)
      → bytes_eq (as_bkey sha key) k ≡ false
      → Holds k entry s
      → Holds k entry
          (Engine.save rocks bincode sha save_order load_order now key mime_type bytes s).1
  unfolding Engine.save
  save-Holds k entry now key mime_type bytes s differ h =
      same-Holds k entry s
        (Engine.save rocks bincode sha save_order load_order now key mime_type bytes s).1
        (content-save_other_lem rocks bincode sha save_order load_order now key mime_type bytes s k
          differ)
        (save_entry-IsOther rocks bincode sha save_order load_order key
          (Entry.new sha bytes mime_type now) k s differ h.1)
        h

  shrink-EndsHolding :
      (k : Bytes) (entry : ImageEntry) (clock : ℕ → SystemTime) (min : ℕ) (s : Cache)
      → Holds k entry s
      → EndsHolding k entry (
          shrunk rocks bincode sha save_order load_order
            (Engine.shrink rocks bincode sha save_order load_order clock min s))
  unfolding Engine.shrink shrunk EndsHolding
  shrink-EndsHolding k entry clock min s h =
      go (evict_entries_fifo rocks bincode clock min s)
        (evict_entries_fifo-EndsLess rocks bincode clock min s)
    where
      go :
          (o : Option (Result ℕ (CacheError rocks bincode) × Cache))
          → EndsLess rocks bincode s o
          → EndsHolding k entry (
              shrunk rocks bincode sha save_order load_order
                (Option.map (forget rocks bincode sha save_order load_order) o))
      go none less = tt
      go (some (r, t)) less = IsLess-Holds k entry s t less h

  happen-EndsHolding :
      (k : Bytes) (entry : ImageEntry) (event : Event) (s : Cache)
      → Spares k event
      → Holds k entry s
      → EndsHolding k entry (happen rocks bincode sha save_order load_order event s)
  unfolding happen EndsHolding Engine.load Engine.report
  happen-EndsHolding k entry (called (load key)) s spares h =
      subst (Holds k entry) (sym (load_entry-same rocks bincode sha save_order load_order key s)) h
  happen-EndsHolding k entry (called (save now key mime_type bytes)) s differ h =
      save-Holds k entry now key mime_type bytes s differ h
  happen-EndsHolding k entry (called (report clock)) s spares h =
      IsLess-Holds k entry s (get_db_size rocks bincode (clock 0) (clock 1) s).1
        (get_db_size-IsLess rocks bincode (clock 0) (clock 1) s s (IsLess-refl rocks bincode s)) h
  happen-EndsHolding k entry (called (shrink clock min)) s spares h =
      shrink-EndsHolding k entry clock min s h
  happen-EndsHolding k entry (landed n) s spares h =
      land-Holds k entry s (take_put n s.in_flight) (take_put-TakesOther k n s.in_flight h.1) h
  happen-EndsHolding k entry (lost n) s spares h =
      lose-Holds k entry s (take_put n s.in_flight) (take_put-TakesOther k n s.in_flight h.1) h

  happen_all-Holds :
      (k : Bytes) (entry : ImageEntry) (events : List Event) (s s' : Cache)
      → All (Spares k) events
      → Holds k entry s
      → happen_all rocks bincode sha save_order load_order events s ≡ some s'
      → Holds k entry s'
  unfolding happen_all and_happen EndsHolding
  happen_all-Holds k entry [] s s' spares h ran =
      let same : s ≡ s' = cc ran in subst (Holds k entry) same h
  happen_all-Holds k entry (event ∷ events) s s' (spare, spares) h ran =
      elim (Option-cases (happen rocks bincode sha save_order load_order event s)) [
        | inl stuck ↦ absurd (cc (rw (stuck, happen_all) at ran))
        | inr (t, went) ↦
            happen_all-Holds k entry events t s' spares
              (subst (EndsHolding k entry) went (happen-EndsHolding k entry event s spare h))
              (rw (went, happen_all) at ran)
      ]

  -- After a save that succeeded while no put of another save under the bytes of its key was in
  -- flight, and after any calls, and landings and losses of puts in flight, that came later, none of
  -- them a save under those bytes, and however the calls ended: an image found under the key is the
  -- one that the save stored.
  pub rocks_found_after_calls :
      (now : SystemTime) (key : ImageKey) (mime_type : Str) (bytes : Bytes)
      (s s' : RocksCache rocks bincode) (events : List Event) (found : ImageEntry)
      → IsOther (as_bkey sha key) s.in_flight
      → (Engine.save rocks bincode sha save_order load_order now key mime_type bytes s).0 ≡ true
      → All (Spares (as_bkey sha key)) events
      → happen_all rocks bincode sha save_order load_order events
          (Engine.save rocks bincode sha save_order load_order now key mime_type bytes s).1
        ≡ some s'
      → (Engine.load rocks bincode sha save_order load_order key s').0 ≡ some found
      → found ≡ Entry.new sha bytes mime_type now
  unfolding Engine.save
  rocks_found_after_calls now key mime_type bytes s s' events found others saved spares ran read =
      let k = as_bkey sha key in
      let entry = Entry.new sha bytes mime_type now in
      let stored =
        content-save_lem rocks bincode sha save_order load_order now key mime_type bytes s k
          saved in
      let same =
        save_entry-in_flight rocks bincode sha save_order load_order key entry s
          (is_ok-true rocks bincode sha save_order load_order _ saved) in
      let after =
        happen_all-Holds k entry events _ s' spares
          (inr (rw (bytes_eq_refl k) at stored), subst (IsOther k) (sym same) others) ran in
      let there = load-content_lem rocks bincode sha save_order load_order key s' read in
      elim after.0 [ inl gone ↦ absurd (cc (gone, there)) | inr held ↦ cc (held, there) ]
