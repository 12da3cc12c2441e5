-- ===== src/Tokens/Accepts.antt =====
-- src/tokens.rs: which tokens are accepted, and in which order the checks are made.
use scalpel.Common.{
  ℕ, ◌<◌, Str, Bytes, true, length, take, drop, ok, err, Option, none, some, ◌≡◌, bytes_eq,
  bytes_eq→eq, bytes_eq_refl, refl, arith, and_then-eq-ok, map_err-eq-ok, Bool-cases, inl, inr, ◌↔◌,
  subst,
}
use scalpel.Tokens.{
  no_key, url_safe_no_padding, TokenPayload, Crypto, nonce_size, TokenVerifier, decode_b64,
  token_to_cipher, decrypt_token, parse_payload, check_payload, verify_url_token,
}

module _ (crypto : Crypto) where
  open crypto use {PrecomputedKey, Nonce, nonce_from_slice, open_precomputed}
  open crypto use {from_utf8, from_json, parse_from_rfc3339}

  -- What a token must be: base64 of a nonce and a box that the stored key opens, with a payload for
  -- this chapter that expires after `now`.
  pub record IsAccepted (now : ℕ) (verifier : TokenVerifier crypto) (token_str chap_hash : Str)
      : Type 0 where
    pub token : Bytes
    pub nonce : Nonce
    pub key : PrecomputedKey
    pub plain : Bytes
    pub text : Str
    pub payload : TokenPayload
    pub date : ℕ
    pub decoded : crypto.decode token_str url_safe_no_padding ≡ ok token
    pub long : nonce_size < length token
    pub nonce_ok : nonce_from_slice (take nonce_size token) ≡ some nonce
    pub key_ok : verifier ≡ some key
    pub opened : open_precomputed (drop nonce_size token) nonce key ≡ ok plain
    pub is_utf8 : from_utf8 plain ≡ ok text
    pub is_json : from_json text ≡ ok payload
    pub same_chapter : payload.hash ≡ chap_hash
    pub dated : parse_from_rfc3339 payload.expires ≡ ok date
    pub fresh : now < date

  parse_payload-eq-some :
      (plain : Bytes) {payload : TokenPayload}
      → parse_payload crypto plain ≡ some payload
      → (text : Str) × (from_utf8 plain ≡ ok text) × (from_json text ≡ ok payload)
  unfolding parse_payload
  parse_payload-eq-some plain h = ground arith

  token_to_cipher-eq-ok :
      (token : Bytes) {r : Nonce × Bytes}
      → token_to_cipher crypto token ≡ ok r
      → (nonce_size < length token)
        × (nonce_from_slice (take nonce_size token) ≡ some r.0)
        × (r.1 ≡ drop nonce_size token)
  unfolding token_to_cipher
  token_to_cipher-eq-ok token h = ground arith

  decrypt_token-eq-ok :
      (verifier : TokenVerifier crypto) (nonce : Nonce) (cipher : Bytes) {plain : Bytes}
      → decrypt_token crypto verifier nonce cipher ≡ ok plain
      → (key : PrecomputedKey) × (verifier ≡ some key)
        × (open_precomputed cipher nonce key ≡ ok plain)
  unfolding decrypt_token
  decrypt_token-eq-ok none nonce cipher h = cc
  decrypt_token-eq-ok (some key) nonce cipher h = (key, refl, map_err-eq-ok _ _ h)

  check_payload-eq-ok :
      (now : ℕ) (chap_hash : Str) (parsed : Option TokenPayload)
      → check_payload crypto now chap_hash parsed ≡ ok tt
      → (payload : TokenPayload) × (date : ℕ) × (parsed ≡ some payload)
        × (payload.hash ≡ chap_hash)
        × (parse_from_rfc3339 payload.expires ≡ ok date)
        × (now < date)
  unfolding check_payload
  check_payload-eq-ok now chap_hash none h = cc
  check_payload-eq-ok now chap_hash (some payload) h =
      elim (Bool-cases (bytes_eq payload.hash chap_hash)) [
        | inl same ↦
            let (date, dated, rest) = and_then-eq-ok _ _ (rw same at h) in
            (payload, date, refl, bytes_eq→eq _ _ same, map_err-eq-ok _ _ dated, ground arith)
        | inr differ ↦ absurd (ground arith)
      ]

  sound :
      {now : ℕ} {verifier : TokenVerifier crypto} {token_str chap_hash : Str}
      → verify_url_token crypto now verifier token_str chap_hash ≡ ok tt
      → IsAccepted now verifier token_str chap_hash
  unfolding verify_url_token
  sound {now} {verifier} {token_str} {chap_hash} h =
      let (token, decoded, h₁) = and_then-eq-ok (decode_b64 crypto token_str true) _ h in
      let (nc, cut, h₂) = and_then-eq-ok (token_to_cipher crypto token) _ h₁ in
      let (plain, decrypted, h₃) = and_then-eq-ok (decrypt_token crypto verifier nc.0 nc.1) _ h₂ in
      let (long, nonce_ok, rest) = token_to_cipher-eq-ok token cut in
      let (key, key_ok, opened) = decrypt_token-eq-ok verifier nc.0 nc.1 decrypted in
      let (payload, date, parsed, same, dated, fresh) = check_payload-eq-ok now chap_hash _ h₃ in
      let (text, utf8, json) = parse_payload-eq-some plain parsed in
      record {
        token = token;
        nonce = nc.0;
        key = key;
        plain = plain;
        text = text;
        payload = payload;
        date = date;
        decoded = map_err-eq-ok _ _ decoded;
        long = long;
        nonce_ok = nonce_ok;
        key_ok = key_ok;
        opened = subst (λ c. open_precomputed c nc.0 key ≡ ok plain) rest opened;
        is_utf8 = utf8;
        is_json = json;
        same_chapter = same;
        dated = dated;
        fresh = fresh;
      }

  complete :
      {now : ℕ} {verifier : TokenVerifier crypto} {token_str chap_hash : Str}
      → IsAccepted now verifier token_str chap_hash
      → verify_url_token crypto now verifier token_str chap_hash ≡ ok tt
  unfolding verify_url_token
  complete {chap_hash = chap_hash} a = ground (arith, bytes_eq_refl chap_hash)

  -- A token is verified for a chapter exactly when it decodes to more than a nonce, the stored key
  -- opens it, and it carries a readable payload for that chapter which expires after now.
  pub verify_url_token-eq-ok_iff :
      (now : ℕ) (verifier : TokenVerifier crypto) (token_str chap_hash : Str)
      → (verify_url_token crypto now verifier token_str chap_hash ≡ ok tt)
        ↔ IsAccepted now verifier token_str chap_hash
  verify_url_token-eq-ok_iff now verifier token_str chap_hash = (sound, complete)

  -- Decryption fails with `no_key` exactly when no key was ever pushed, whatever the token is.
  pub decrypt_token-no_key_iff :
      (verifier : TokenVerifier crypto) (nonce : Nonce) (cipher : Bytes)
      → (decrypt_token crypto verifier nonce cipher ≡ err no_key) ↔ (verifier ≡ none)
  unfolding decrypt_token
  decrypt_token-no_key_iff none nonce cipher = (λ _. refl, λ _. refl)
  decrypt_token-no_key_iff (some key) nonce cipher = (λ h. ground arith, λ h. cc)
