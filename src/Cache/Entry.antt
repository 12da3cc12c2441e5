-- ===== src/Cache/Entry.antt =====
-- src/cache/mod.rs: a cached image with what an HTTP response needs, and its serialised form.
use scalpel.Common.{ℕ, ◌%◌, Str, Bytes, length, Result, ok, err, ◌≡◌}
use scalpel.Utils.{SystemTime, u64_mod}
use scalpel.Cache.Key.{Sha256}

pub record ImageEntry : Type 0 where
  pub save_time : ℕ
  pub checksum : Bytes
  pub mime_type : Str
  pub bytes_len : ℕ
  pub bytes : Bytes

-- The `bincode` crate at `ImageEntry`: what it writes it reads back.
pub record Bincode : Type 1 where
  pub Error : Type 0
  pub serialize : ImageEntry → Result Bytes Error
  pub deserialize : Bytes → Result ImageEntry Error
  pub round_trip :
      (entry : ImageEntry) {bytes : Bytes}
      → serialize entry ≡ ok bytes
      → deserialize bytes ≡ ok entry

-- The `mime` crate: a type that is printed is parsed back.
pub record MimeApi : Type 1 where
  pub Mime : Type 0
  pub from_str : Str → Result Mime (Unit {0})
  pub to_string : Mime → Str
  pub image_png : Mime
  pub round_trip : (m : Mime) → from_str (to_string m) ≡ ok m

-- `u128` milliseconds, 0 for a clock before the epoch.
abbrev as_millis : SystemTime → ℕ
as_millis (ok millis) = millis
as_millis (err _) = 0

module _ (sha : Sha256) where
  open sha use {update, finalize}

  -- `ImageEntry::new`; `new_assume` passes it the current time
  unfoldable pub new : Bytes → Str → SystemTime → ImageEntry
  new bytes mime_type save_time = record {
    save_time = as_millis save_time;
    checksum = finalize (update sha.new bytes);
    mime_type = mime_type;
    bytes_len = length bytes % u64_mod;
    bytes = bytes;
  }

abbrev pub unwrap_or {ℓ} : {A E : Type ℓ} → Result A E → A → A
unwrap_or (ok a) d = a
unwrap_or (err e) d = d

-- `hex::encode` of the checksum
unfoldable pub get_checksum_hex : (Bytes → Str) → ImageEntry → Str
get_checksum_hex hex_encode entry = hex_encode entry.checksum

module _ (mime : MimeApi) where
  open mime use {Mime, from_str, image_png}

  unfoldable pub get_mime : ImageEntry → Mime
  get_mime entry = unwrap_or (from_str entry.mime_type) image_png
