-- ===== src/Cache/Keys.antt =====
-- src/cache/mod.rs, `ImageKey::as_bkey`: what of a key its bytes depend on.
use scalpel.Common.{[], ◌∷◌, ◌++◌, ◌≡◌, sym, ap, ◌∙◌}
use scalpel.Cache.Key.{ImageKey, Sha256, as_bkey, bool_as_u8}

module _ (sha : Sha256) where
  open sha use {update, finalize}

  -- The digest of the flag, the chapter and the image, with nothing between them.
  as_bkey-digest :
      (key : ImageKey)
      → as_bkey sha key
        ≡ finalize (update sha.new (bool_as_u8 key.data_saver ∷ (key.chapter ++ key.image)))
  unfolding as_bkey
  as_bkey-digest key = ap finalize (
      ap (λ ctx. update ctx key.image)
        (sha.update_update sha.new (bool_as_u8 key.data_saver ∷ []) key.chapter)
      ∙ sha.update_update sha.new (bool_as_u8 key.data_saver ∷ key.chapter) key.image)

  -- Two keys have the same bytes as soon as they agree in `data_saver` and in the chapter followed
  -- by the image, wherever either key ends its chapter.
  pub as_bkey_merges :
      (j k : ImageKey)
      → j.data_saver ≡ k.data_saver
      → j.chapter ++ j.image ≡ k.chapter ++ k.image
      → as_bkey sha j ≡ as_bkey sha k
  as_bkey_merges j k flag path =
      as_bkey-digest j
      ∙ (ap (λ l. finalize (update sha.new l)) (λ i. bool_as_u8 (flag i) ∷ path i)
          ∙ sym (as_bkey-digest k))
