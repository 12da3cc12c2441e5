-- ===== src/Tokens/Rejects.antt =====
-- src/tokens.rs: which error a refused token is reported with.
use scalpel.Common.{
  ℕ, ◌≤◌, ◌<◌, Str, Bytes, length, take, drop, ok, err, none, some, ◌≡◌, ◌≢◌, leb, bytes_eq,
  bytes_eq_iff, arith, Bool-cases, Result-cases, Option-cases, inl, inr, ◌↔◌, subst, leb→le,
}
use scalpel.Tokens.{
  TokenError, invalid_base64, no_key, token_malformed, nonce_malformed, decrypt_failed,
  invalid_payload, invalid_chapter_hash, token_expired, url_safe_no_padding, TokenPayload, Crypto,
  nonce_size, TokenVerifier, parse_payload, check_payload, verify_url_token,
}

module _ (crypto : Crypto) (now : ℕ) (verifier : TokenVerifier crypto)
    (token_str chap_hash : Str) where
  open crypto use {PrecomputedKey, Nonce, nonce_from_slice, open_precomputed, parse_from_rfc3339}

  -- The token decodes, and splits into a nonce and a box.
  pub record IsCut (token : Bytes) (nonce : Nonce) : Type 0 where
    pub decoded : crypto.decode token_str url_safe_no_padding ≡ ok token
    pub long : nonce_size < length token
    pub nonce_ok : nonce_from_slice (take nonce_size token) ≡ some nonce

  -- The stored key opens the box.
  pub record IsOpened (plain : Bytes) : Type 0 where
    pub token : Bytes
    pub nonce : Nonce
    pub key : PrecomputedKey
    pub cut : IsCut token nonce
    pub key_ok : verifier ≡ some key
    pub opened : open_precomputed (drop nonce_size token) nonce key ≡ ok plain

  -- Each error with all that went well before it.
  pub data IsRejected : TokenError → Type 0 where
    not_base64 : crypto.decode token_str url_safe_no_padding ≡ err tt → IsRejected invalid_base64
    short :
        (token : Bytes)
        → crypto.decode token_str url_safe_no_padding ≡ ok token
        → length token ≤ nonce_size
        → IsRejected token_malformed
    bad_nonce :
        (token : Bytes)
        → crypto.decode token_str url_safe_no_padding ≡ ok token
        → nonce_size < length token
        → nonce_from_slice (take nonce_size token) ≡ none
        → IsRejected nonce_malformed
    keyless :
        (token : Bytes) (nonce : Nonce) → IsCut token nonce → verifier ≡ none → IsRejected no_key
    unopened :
        (token : Bytes) (nonce : Nonce) (key : PrecomputedKey)
        → IsCut token nonce
        → verifier ≡ some key
        → open_precomputed (drop nonce_size token) nonce key ≡ err tt
        → IsRejected decrypt_failed
    unreadable :
        (plain : Bytes)
        → IsOpened plain
        → parse_payload crypto plain ≡ none
        → IsRejected invalid_payload
    other_chapter :
        (plain : Bytes) (payload : TokenPayload)
        → IsOpened plain
        → parse_payload crypto plain ≡ some payload
        → payload.hash ≢ chap_hash
        → IsRejected invalid_chapter_hash
    undated :
        (plain : Bytes) (payload : TokenPayload)
        → IsOpened plain
        → parse_payload crypto plain ≡ some payload
        → payload.hash ≡ chap_hash
        → parse_from_rfc3339 payload.expires ≡ err tt
        → IsRejected invalid_payload
    expired :
        (plain : Bytes) (payload : TokenPayload) (date : ℕ)
        → IsOpened plain
        → parse_payload crypto plain ≡ some payload
        → payload.hash ≡ chap_hash
        → parse_from_rfc3339 payload.expires ≡ ok date
        → date ≤ now
        → IsRejected token_expired

  -- What is left to check once the box is open.
  opened-run :
      (plain : Bytes)
      → IsOpened plain
      → verify_url_token crypto now verifier token_str chap_hash
        ≡ check_payload crypto now chap_hash (parse_payload crypto plain)
  unfolding verify_url_token
  opened-run plain o = ground (arith, o.cut.decoded, o.cut.long, o.cut.nonce_ok, o.key_ok, o.opened)

  complete :
      {e : TokenError}
      → IsRejected e
      → verify_url_token crypto now verifier token_str chap_hash ≡ err e
  unfolding verify_url_token check_payload
  complete (not_base64 h) = ground arith
  complete (short token h l) = ground arith
  complete (bad_nonce token h l n) = ground arith
  complete (keyless token nonce c k) = ground (arith, c.decoded, c.long, c.nonce_ok)
  complete (unopened token nonce key c k o) = ground (arith, c.decoded, c.long, c.nonce_ok)
  complete (unreadable plain o p) = ground (arith, opened-run plain o)
  complete (other_chapter plain payload o p h) =
      ground (arith, opened-run plain o, bytes_eq_iff payload.hash chap_hash)
  complete (undated plain payload o p h d) =
      ground (arith, opened-run plain o, bytes_eq_iff payload.hash chap_hash)
  complete (expired plain payload date o p h d l) =
      ground (arith, opened-run plain o, bytes_eq_iff payload.hash chap_hash)

  reported :
      {e₀ e : TokenError}
      → IsRejected e₀
      → verify_url_token crypto now verifier token_str chap_hash ≡ err e
      → IsRejected e
  reported {e₀} {e} r h = let same : e₀ ≡ e = cc (complete r, h) in subst IsRejected same r

  -- The box is open.
  sound_opened :
      (plain : Bytes) {e : TokenError}
      → IsOpened plain
      → verify_url_token crypto now verifier token_str chap_hash ≡ err e
      → IsRejected e
  unfolding check_payload
  sound_opened plain o h = elim (Option-cases (parse_payload crypto plain)) [
    | inl none_left ↦ reported (unreadable plain o none_left) h
    | inr (payload, parsed) ↦ elim (Bool-cases (bytes_eq payload.hash chap_hash)) [
      | inr differ ↦
          reported
            (other_chapter plain payload o parsed
              (ground (arith, bytes_eq_iff payload.hash chap_hash)))
            h
      | inl same ↦
          let hash = (bytes_eq_iff payload.hash chap_hash).0 same in
          elim (Result-cases (parse_from_rfc3339 payload.expires)) [
            | inr (_, bad) ↦ reported (undated plain payload o parsed hash bad) h
            | inl (date, dated) ↦ elim (Bool-cases (leb date now)) [
              | inl old ↦
                  reported (expired plain payload date o parsed hash dated (leb→le _ _ old)) h
              | inr fresh ↦ absurd (ground (arith, opened-run plain o))
            ]
          ]
    ]
  ]

  sound_cut :
      (token : Bytes) (nonce : Nonce) {e : TokenError}
      → IsCut token nonce
      → verify_url_token crypto now verifier token_str chap_hash ≡ err e
      → IsRejected e
  sound_cut token nonce c h = elim (Option-cases verifier) [
    | inl unset ↦ reported (keyless token nonce c unset) h
    | inr (key, key_ok) ↦ elim (Result-cases (open_precomputed (drop nonce_size token) nonce key)) [
      | inr (_, failed) ↦ reported (unopened token nonce key c key_ok failed) h
      | inl (plain, opened) ↦
          sound_opened plain
            (record {
              token = token;
              nonce = nonce;
              key = key;
              cut = c;
              key_ok = key_ok;
              opened = opened;
            })
            h
    ]
  ]

  sound :
      {e : TokenError}
      → verify_url_token crypto now verifier token_str chap_hash ≡ err e
      → IsRejected e
  sound h = elim (Result-cases (crypto.decode token_str url_safe_no_padding)) [
    | inr (_, bad) ↦ reported (not_base64 bad) h
    | inl (token, decoded) ↦ elim (Bool-cases (leb (length token) nonce_size)) [
      | inl few ↦ reported (short token decoded (leb→le _ _ few)) h
      | inr many ↦ elim (Option-cases (nonce_from_slice (take nonce_size token))) [
        | inl bad ↦ reported (bad_nonce token decoded (ground arith) bad) h
        | inr (nonce, cut) ↦
            sound_cut token nonce
              (record { decoded = decoded; long = ground arith; nonce_ok = cut }) h
      ]
    ]
  ]

  -- A token is refused with an error exactly when the first check that fails is the one this error
  -- stands for: the checks run in the order base64, length, nonce, stored key, box, payload,
  -- chapter, date, expiry, and a date that does not parse counts as an unreadable payload.
  pub verify_url_token-eq-err_iff :
      (e : TokenError)
      → (verify_url_token crypto now verifier token_str chap_hash ≡ err e) ↔ IsRejected e
  verify_url_token-eq-err_iff e = (sound, complete)
