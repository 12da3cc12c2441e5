-- ===== src/Cache/Rocks/Concurrent/Tests.antt =====
-- Interleavings at a database of lists.
use scalpel.Common.{Bytes, true, false, List, [], ◌∷◌, map, codes, none, some, ◌≡◌, refl, ◌⊎◌, inl}
use scalpel.Common.Assoc.{lookup}
use scalpel.Cache.Key.{ImageKey, as_bkey}
use scalpel.Cache.Entry.{ImageEntry}
use scalpel.Cache.Rocks.Db.{images_cf, meta_cf}
use scalpel.Cache.Rocks.Toy.{toy_sha, toy_bincode, toy_rocks, to_bytes}
use scalpel.Cache.Rocks.Store.{RocksCache, put_cf_async, db_op_async, spawn_blocking}
use scalpel.Cache.Rocks.Contract.{content}
use scalpel.Cache.Rocks.Concurrent.{
  Action, store, remove, Task, saving, dropping, Merge, finished, step, act_all, puts, steps,
}
use scalpel.Cache.Rocks.Concurrent.Whole.{Only, merge-whole}
use scalpel.Cache.Rocks.Concurrent.Mixed.{Succeed, crossed, crossed-mixed}

abbrev key : ImageKey
key = record { chapter = codes "ab"; image = codes "1.png"; data_saver = false }

abbrev k : Bytes
k = as_bkey toy_sha key

abbrev first : ImageEntry
first = record {
  save_time = 7;
  checksum = 1 ∷ [];
  mime_type = codes "png";
  bytes_len = 2;
  bytes = 1 ∷ 2 ∷ [];
}

abbrev second : ImageEntry
second = record first { save_time = 8; bytes_len = 1; bytes = 3 ∷ [] }

abbrev meta_of : ImageEntry → Bytes
meta_of entry = to_bytes (record entry { bytes = [] })

abbrev empty : RocksCache toy_rocks toy_bincode
empty = record { db = (([], tt), ([], tt)); db_size = 0; last_fetch = 0; in_flight = [] }

crossed-ok :
    Succeed toy_rocks toy_bincode
      (crossed toy_rocks toy_bincode k first.bytes second.bytes (meta_of first) (meta_of second))
      empty
unfolding put_cf_async db_op_async spawn_blocking
crossed-ok = (refl, (refl, (refl, (refl, tt))))

crossed-mixed_example :
    Merge
      (map
        (steps toy_rocks toy_bincode toy_sha)
        (saving true key first ∷ saving true key second ∷ []))
      (crossed toy_rocks toy_bincode k first.bytes second.bytes (meta_of first) (meta_of second))
    × (content toy_rocks toy_bincode toy_sha true true
          (act_all toy_rocks toy_bincode
            (crossed toy_rocks toy_bincode k first.bytes second.bytes
              (meta_of first)
              (meta_of second))
            empty)
          k
        ≡ some (record first { bytes = second.bytes }))
crossed-mixed_example =
    crossed-mixed toy_rocks toy_bincode toy_sha true true key first second (meta_of first)
      (meta_of second) empty refl refl crossed-ok

-- A save whose writes fall before and after the removal of the image.
abbrev tasks : List Task
tasks = saving true key first ∷ dropping k ∷ []

abbrev acts : List Action
acts =
    store images_cf k first.bytes
    ∷ remove images_cf k
    ∷ store meta_cf k (meta_of first)
    ∷ remove meta_cf k
    ∷ []

merges : Merge (map (steps toy_rocks toy_bincode toy_sha) tasks) acts
unfolding steps puts
merges =
    step _ [] ((remove images_cf k ∷ remove meta_cf k ∷ []) ∷ []) (store images_cf k first.bytes)
      (store meta_cf k (meta_of first) ∷ [])
      (remove images_cf k ∷ store meta_cf k (meta_of first) ∷ remove meta_cf k ∷ []) refl
      (step _ ((store meta_cf k (meta_of first) ∷ []) ∷ []) [] (remove images_cf k)
        (remove meta_cf k ∷ []) (store meta_cf k (meta_of first) ∷ remove meta_cf k ∷ []) refl
        (step _ [] ((remove meta_cf k ∷ []) ∷ []) (store meta_cf k (meta_of first)) []
          (remove meta_cf k ∷ []) refl
          (step _ ([] ∷ []) [] (remove meta_cf k) [] [] refl (finished _ (refl, (refl, tt))))))

nothing_before : Only toy_rocks toy_bincode k first.bytes (meta_of first) empty
unfolding lookup
nothing_before images_cf = inl refl
nothing_before meta_cf = inl refl

merge-whole_example :
    (content toy_rocks toy_bincode toy_sha true true (act_all toy_rocks toy_bincode acts empty) k
      ≡ none)
    ⊎ (content toy_rocks toy_bincode toy_sha true true (act_all toy_rocks toy_bincode acts empty) k
        ≡ some first)
merge-whole_example =
    merge-whole toy_rocks toy_bincode toy_sha true true k first (meta_of first) tasks acts empty
      refl ((λ _. refl), (tt, tt)) merges nothing_before
