-- ===== src/Cache/Rocks/Concurrent/Mixed.antt =====
-- src/cache/rocks.rs: two saves under one key that run at the same time can leave the metadata of
-- one with the bytes of the other.
use scalpel.Common.{Bytes, Bool, true, List, [], ◌∷◌, map, ok, some, ◌≡◌, refl, ◌∙◌, bytes_eq_refl}
use scalpel.Common.Assoc.{lookup}
use scalpel.Cache.Key.{ImageKey, Sha256, as_bkey}
use scalpel.Cache.Entry.{ImageEntry, Bincode}
use scalpel.Cache.Rocks.Db.{images_cf, meta_cf, RocksDb}
use scalpel.Cache.Rocks.Store.{RocksCache, put_cf_async, integrate}
use scalpel.Cache.Rocks.Store.RoundTrip.{entries_of, lookup-put_cf_async}
use scalpel.Cache.Rocks.Contract.{content}
use scalpel.Cache.Rocks.Concurrent.{
  Action, store, remove, saving, Merge, finished, step, act, act_all, puts, steps,
}

module _ (rocks : RocksDb) (bincode : Bincode) where
  -- Every put of these succeeds.
  abbrev pub Succeed : List Action → RocksCache rocks bincode → Type 0
  Succeed [] s = Unit
  Succeed (store c k v ∷ acts) s =
      ((put_cf_async rocks bincode c k v s).0 ≡ ok tt)
      × Succeed acts (put_cf_async rocks bincode c k v s).1
  Succeed (remove c k ∷ acts) s = ⊥

  -- The image of the first, both writes of the second, and the metadata of the first.
  abbrev pub crossed : Bytes → Bytes → Bytes → Bytes → Bytes → List Action
  crossed k image image' meta meta' =
      store images_cf k image
      ∷ store images_cf k image'
      ∷ store meta_cf k meta'
      ∷ store meta_cf k meta
      ∷ []

  crossed-Merge :
      (k image image' meta meta' : Bytes)
      → Merge
          ((store images_cf k image ∷ store meta_cf k meta ∷ [])
            ∷ (store images_cf k image' ∷ store meta_cf k meta' ∷ [])
            ∷ [])
          (crossed k image image' meta meta')
  crossed-Merge k image image' meta meta' =
      let ia = store images_cf k image in
      let ib = store images_cf k image' in
      let ma = store meta_cf k meta in
      let mb = store meta_cf k meta' in
      step _ [] ((ib ∷ mb ∷ []) ∷ []) ia (ma ∷ []) (ib ∷ mb ∷ ma ∷ []) refl (
        step _ ((ma ∷ []) ∷ []) [] ib (mb ∷ []) (mb ∷ ma ∷ []) refl (
          step _ ((ma ∷ []) ∷ []) [] mb [] (ma ∷ []) refl
            (step _ [] ([] ∷ []) ma [] [] refl (finished _ (refl, (refl, tt))))))

  crossed-lookup :
      (k image image' meta meta' : Bytes) (s : RocksCache rocks bincode)
      → Succeed (crossed k image image' meta meta') s
      → let s' = act_all rocks bincode (crossed k image image' meta meta') s in
        (lookup k (entries_of rocks bincode images_cf s') ≡ some image')
        × (lookup k (entries_of rocks bincode meta_cf s') ≡ some meta)
  unfolding act_all act
  crossed-lookup k image image' meta meta' s (one, (two, (three, (four, _)))) =
      let s₁ = (put_cf_async rocks bincode images_cf k image s).1 in
      let s₂ = (put_cf_async rocks bincode images_cf k image' s₁).1 in
      let s₃ = (put_cf_async rocks bincode meta_cf k meta' s₂).1 in
      let put = lookup-put_cf_async rocks bincode in
      (
        put meta_cf images_cf k k meta s₃ four
            ∙ (put meta_cf images_cf k k meta' s₂ three
                ∙ (put images_cf images_cf k k image' s₁ two ∙ rw (bytes_eq_refl k))),
        put meta_cf meta_cf k k meta s₃ four ∙ rw (bytes_eq_refl k),
      )

  module _ (sha : Sha256) (save_order load_order : Bool) where
    -- Two saves under one key can interleave so that, if all their writes succeed, the key is left
    -- with the metadata of the first and the bytes of the second.
    pub crossed-mixed :
        (key : ImageKey) (a b : ImageEntry) (meta meta' : Bytes) (s : RocksCache rocks bincode)
        → bincode.serialize (record a { bytes = [] }) ≡ ok meta
        → bincode.serialize (record b { bytes = [] }) ≡ ok meta'
        → Succeed (crossed (as_bkey sha key) a.bytes b.bytes meta meta') s
        → Merge
            (map (steps rocks bincode sha) (saving true key a ∷ saving true key b ∷ []))
            (crossed (as_bkey sha key) a.bytes b.bytes meta meta')
          × (content rocks bincode sha save_order load_order
                (act_all rocks bincode (crossed (as_bkey sha key) a.bytes b.bytes meta meta') s)
                (as_bkey sha key)
              ≡ some (record a { bytes = b.bytes }))
    unfolding steps puts integrate
    crossed-mixed key a b meta meta' s first second all =
        let k = as_bkey sha key in
        let (image, described) = crossed-lookup k a.bytes b.bytes meta meta' s all in
        let read = bincode.round_trip (record a { bytes = [] }) first in
        (
          rw (first, second, steps) (crossed-Merge k a.bytes b.bytes meta meta'),
          rw (image, described, read) refl,
        )
