-- ===== src/Cache/Key.antt =====
-- src/cache/mod.rs: the key of an image. The `Arc` around the fields is shared and never written,
-- so a key is its fields.
use scalpel.Common.{Bool, Str, Bytes, [], ◌∷◌, ◌++◌, codes, if◌then◌else◌, ℕ, ◌≡◌}

-- The `sha2` crate: a digest is fed piece by piece.
pub record Sha256 : Type 1 where
  pub State : Type 0
  pub new : State
  pub update : State → Bytes → State
  pub finalize : State → Bytes
  -- feeding two pieces is feeding their concatenation
  pub update_update : (s : State) (a b : Bytes) → update (update s a) b ≡ update s (a ++ b)

pub record ImageKey : Type 0 where
  pub chapter : Str
  pub image : Str
  pub data_saver : Bool

unfoldable pub new : Str → Str → Bool → ImageKey
new chapter image data_saver = record { chapter = chapter; image = image; data_saver = data_saver }

unfoldable pub archive_name : ImageKey → Str
archive_name key = if key.data_saver then codes "data-saver" else codes "data"

-- `bool as u8`
abbrev pub bool_as_u8 : Bool → ℕ
bool_as_u8 b = if b then 1 else 0

-- `impl Display`
unfoldable pub to_string : ImageKey → Str
to_string key = codes "/" ++ archive_name key ++ codes "/" ++ key.chapter ++ codes "/" ++ key.image

module _ (sha : Sha256) where
  open sha use {update, finalize}

  unfoldable pub as_bkey : ImageKey → Bytes
  as_bkey key =
      let ctx = sha.new in
      let ctx = update ctx (bool_as_u8 key.data_saver ∷ []) in
      let ctx = update ctx key.chapter in let ctx = update ctx key.image in finalize ctx
