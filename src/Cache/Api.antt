-- ===== src/Cache/Api.antt =====
-- src/cache/mod.rs, `trait ImageCache`: what the HTTP handlers use of a cache engine.
-- A method takes the readings of the clock that it makes, and returns the cache that it leaves;
-- `none` is a `shrink` that does not end.
use scalpel.Common.{ℕ, Str, Bytes, Bool, true, Result, Option, some, ◌≡◌}
use scalpel.Utils.{SystemTime}
use scalpel.Cache.Key.{ImageKey, Sha256}
use scalpel.Cache.Entry.{ImageEntry}
use scalpel.Cache.Entry

pub record ImageCache : Type 1 where
  pub Cache : Type 0
  pub load : ImageKey → Cache → Option ImageEntry × Cache
  pub save : SystemTime → ImageKey → Str → Bytes → Cache → Bool × Cache
  pub report : (ℕ → SystemTime) → Cache → ℕ × Cache
  pub shrink : (ℕ → SystemTime) → ℕ → Cache → Option (Result ℕ (Unit {0}) × Cache)

-- The promise of the two methods that requests use: an image that was saved successfully, if it
-- is found, is found as it was saved.
pub record IsStore (sha : Sha256) (cache : ImageCache) : Type 0 where
  pub load-save :
      (t : SystemTime) (key : ImageKey) (mime_type : Str) (bytes : Bytes)
      {c c' : ImageCache.Cache cache} {entry : ImageEntry}
      → cache.save t key mime_type bytes c ≡ (true, c')
      → (cache.load key c').0 ≡ some entry
      → entry ≡ Entry.new sha bytes mime_type t
