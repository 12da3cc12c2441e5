-- ===== src/Tokens.antt =====
-- src/tokens.rs: the verifier of the tokens in request paths.
pub mod Accepts
pub mod Rejects
pub mod Issue
pub mod Tests
use scalpel.Common.{
  ℕ, Str, codes, ◌++◌, Bytes, Bool, true, false, not, List, length, take, drop, Result, ok, err,
  map_err, ok_or, to_option, Option, none, some, ◌≡◌, leb, bytes_eq, if◌then◌else◌, and_then, refl,
}

pub data TokenError : Type 0 where
  invalid_base64 no_key key_malformed token_malformed nonce_malformed decrypt_failed : TokenError
  invalid_payload invalid_chapter_hash token_expired : TokenError

pub data Variant : Type 0 where
  original url_safe_no_padding : Variant

-- The JSON payload inside a token.
pub record TokenPayload : Type 0 where
  pub expires : Str
  pub hash : Str
  pub client_id : Str

-- The crates that the verifier calls: `sodiumoxide` (base64 and boxes), `serde_json` behind
-- `str::from_utf8`, and `chrono`. A date is compared with the local time, in one unit.
pub record Crypto : Type 1 where
  pub PrecomputedKey : Type 0
  pub Nonce : Type 0
  pub decode : Str → Variant → Result Bytes (Unit {0})
  pub key_from_slice : Bytes → Option PrecomputedKey
  pub nonce_from_slice : Bytes → Option Nonce
  pub open_precomputed : Bytes → Nonce → PrecomputedKey → Result Bytes (Unit {0})
  pub from_utf8 : Bytes → Result Str (Unit {0})
  pub from_json : Str → Result TokenPayload (Unit {0})
  pub parse_from_rfc3339 : Str → Result ℕ (Unit {0})

abbrev pub nonce_size : ℕ
nonce_size = 24

infixl 10 ◌>>=◌
abbrev ◌>>=◌ :
    {A B : Type 0} → Result A TokenError → (A → Result B TokenError) → Result B TokenError
m >>= f = and_then m f

-- `ResponseError::status_code`: 403 FORBIDDEN or 400 BAD_REQUEST
unfoldable pub status_code : TokenError → ℕ
status_code token_expired = 403
status_code invalid_chapter_hash = 403
status_code decrypt_failed = 403
status_code invalid_base64 = 403
status_code _ = 400

-- `Debug`, and the body of `ResponseError::error_response`.
unfoldable pub debug : TokenError → Str
debug invalid_base64 = codes "InvalidBase64"
debug no_key = codes "NoKey"
debug key_malformed = codes "KeyMalformed"
debug token_malformed = codes "TokenMalformed"
debug nonce_malformed = codes "NonceMalformed"
debug decrypt_failed = codes "DecryptFailed"
debug invalid_payload = codes "InvalidPayload"
debug invalid_chapter_hash = codes "InvalidChapterHash"
debug token_expired = codes "TokenExpired"

unfoldable pub error_body : TokenError → Str
unfolding debug
error_body e = codes "error validating provided token (TokenError::" ++ debug e ++ codes ")"

module _ (crypto : Crypto) where
  open crypto use {PrecomputedKey, Nonce, key_from_slice, nonce_from_slice, open_precomputed}
  open crypto use {from_utf8, from_json, parse_from_rfc3339}

  abbrev pub TokenVerifier : Type 0
  TokenVerifier = Option PrecomputedKey

  unfoldable pub new : TokenVerifier
  new = none

  unfoldable pub decode_b64 : Str → Bool → Result Bytes TokenError
  decode_b64 b64 is_url_variant =
      let variant = if is_url_variant then url_safe_no_padding else original in
      map_err (λ _. invalid_base64) (crypto.decode b64 variant)

  unfoldable pub key_from_bytes : Bytes → Result PrecomputedKey TokenError
  key_from_bytes bytes = ok_or key_malformed (key_from_slice bytes)

  -- A refused key leaves the verifier as it was.
  unfoldable pub push_key : Bytes → TokenVerifier → Result (Unit {0}) TokenError × TokenVerifier
  unfolding key_from_bytes
  push_key key_bytes verifier = elim (key_from_bytes key_bytes) [
    | ok key ↦ (ok tt, some key)
    | err e ↦ (err e, verifier)
  ]

  unfoldable pub push_key_b64 : Str → TokenVerifier → Result (Unit {0}) TokenError × TokenVerifier
  unfolding decode_b64 push_key
  push_key_b64 key_str verifier = elim (decode_b64 key_str false) [
    | ok bytes ↦ push_key bytes verifier
    | err e ↦ (err e, verifier)
  ]

  unfoldable pub token_to_cipher : Bytes → Result (Nonce × Bytes) TokenError
  token_to_cipher token = if leb (length token) nonce_size then err token_malformed else do
    nonce ← ok_or nonce_malformed (nonce_from_slice (take nonce_size token))
    ok (nonce, drop nonce_size token)

  unfoldable pub decrypt_token : TokenVerifier → Nonce → Bytes → Result Bytes TokenError
  decrypt_token verifier nonce cipher = do
    key ← ok_or no_key verifier
    map_err (λ _. decrypt_failed) (open_precomputed cipher nonce key)

  -- The bytes as UTF-8, then as JSON; any failure is `None`.
  unfoldable pub parse_payload : Bytes → Option TokenPayload
  parse_payload payload = elim (from_utf8 payload) [ ok s ↦ to_option (from_json s) | err _ ↦ none ]

  -- The checks on a payload that could be read; `now` is the local time.
  unfoldable pub check_payload : ℕ → Str → Option TokenPayload → Result (Unit {0}) TokenError
  check_payload now chap_hash none = err invalid_payload
  check_payload now chap_hash (some payload) =
      if bytes_eq payload.hash chap_hash
      then (do
        date ← map_err (λ _. invalid_payload) (parse_from_rfc3339 payload.expires)
        if leb date now then err token_expired else ok tt)
      else err invalid_chapter_hash

  unfoldable verify_token : ℕ → TokenVerifier → Bytes → Str → Result (Unit {0}) TokenError
  unfolding token_to_cipher decrypt_token parse_payload check_payload
  verify_token now verifier token chap_hash = do
    (nonce, cipher) ← token_to_cipher token
    payload ← decrypt_token verifier nonce cipher
    check_payload now chap_hash (parse_payload payload)

  unfoldable pub verify_url_token : ℕ → TokenVerifier → Str → Str → Result (Unit {0}) TokenError
  unfolding decode_b64 verify_token
  verify_url_token now verifier token_str chap_hash = do
    token ← decode_b64 token_str true
    verify_token now verifier token chap_hash
