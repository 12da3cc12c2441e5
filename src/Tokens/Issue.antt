-- ===== src/Tokens/Issue.antt =====
-- The other side of src/tokens.rs: tokens as the API makes them (and as the tests of that file do).
use scalpel.Common.{
  ℕ, ◌<◌, Str, Bytes, ◌++◌, length, take, drop, ok, some, ◌≡◌, refl, arith, subst, take-append,
  drop-append, length-append,
}
use scalpel.Tokens.{
  Variant, original, url_safe_no_padding, TokenPayload, Crypto, nonce_size, TokenVerifier,
  push_key_b64, verify_url_token,
}
use scalpel.Tokens.Accepts.{IsAccepted, verify_url_token-eq-ok_iff}

-- What the issuer calls of the same crates, and what they promise together.
pub record Issuer (crypto : Crypto) : Type 0 where
  pub encode : Bytes → Variant → Str
  pub nonce_bytes : Crypto.Nonce crypto → Bytes
  pub key_bytes : Crypto.PrecomputedKey crypto → Bytes
  pub seal_precomputed : Bytes → Crypto.Nonce crypto → Crypto.PrecomputedKey crypto → Bytes
  pub to_json : TokenPayload → Str
  pub decode-encode : (b : Bytes) (v : Variant) → crypto.decode (encode b v) v ≡ ok b
  pub length-nonce_bytes : (n : Crypto.Nonce crypto) → length (nonce_bytes n) ≡ nonce_size
  pub nonce_from_slice-nonce_bytes :
      (n : Crypto.Nonce crypto) → crypto.nonce_from_slice (nonce_bytes n) ≡ some n
  pub key_from_slice-key_bytes :
      (k : Crypto.PrecomputedKey crypto) → crypto.key_from_slice (key_bytes k) ≡ some k
  -- a box holds its authenticator, so it is never empty
  pub seal_pos :
      (m : Bytes) (n : Crypto.Nonce crypto) (k : Crypto.PrecomputedKey crypto)
      → 0 < length (seal_precomputed m n k)
  pub open-seal :
      (m : Bytes) (n : Crypto.Nonce crypto) (k : Crypto.PrecomputedKey crypto)
      → crypto.open_precomputed (seal_precomputed m n k) n k ≡ ok m
  pub from_utf8-to_json : (p : TokenPayload) → crypto.from_utf8 (to_json p) ≡ ok (to_json p)
  pub from_json-to_json : (p : TokenPayload) → crypto.from_json (to_json p) ≡ ok p

module _ (crypto : Crypto) (issuer : Issuer crypto) where
  open crypto use {PrecomputedKey, Nonce, parse_from_rfc3339}
  open issuer use {encode, nonce_bytes, key_bytes, seal_precomputed, to_json}

  unfoldable pub issue : TokenPayload → Nonce → PrecomputedKey → Str
  issue p n k = encode (nonce_bytes n ++ seal_precomputed (to_json p) n k) url_safe_no_padding

  issue-IsAccepted :
      (now : ℕ) (p : TokenPayload) (n : Nonce) (k : PrecomputedKey) {date : ℕ}
      → parse_from_rfc3339 p.expires ≡ ok date
      → now < date
      → IsAccepted crypto now (some k) (issue p n k) p.hash
  unfolding issue
  issue-IsAccepted now p n k {date} dated fresh =
      let box = seal_precomputed (to_json p) n k in
      let head : take nonce_size (nonce_bytes n ++ box) ≡ nonce_bytes n =
        subst (λ (i : ℕ). take i (nonce_bytes n ++ box) ≡ nonce_bytes n)
          (issuer.length-nonce_bytes n) (take-append _ _) in
      let rest : drop nonce_size (nonce_bytes n ++ box) ≡ box =
        subst (λ (i : ℕ). drop i (nonce_bytes n ++ box) ≡ box) (issuer.length-nonce_bytes n)
          (drop-append (nonce_bytes n) _) in
      record {
        token = nonce_bytes n ++ box;
        nonce = n;
        key = k;
        plain = to_json p;
        text = to_json p;
        payload = p;
        date = date;
        decoded = issuer.decode-encode _ _;
        long = omega (
          arith,
          length-append (nonce_bytes n) box,
          issuer.length-nonce_bytes n,
          issuer.seal_pos (to_json p) n k,
        );
        nonce_ok = rw head (issuer.nonce_from_slice-nonce_bytes n);
        key_ok = refl;
        opened = rw rest (issuer.open-seal (to_json p) n k);
        is_utf8 = issuer.from_utf8-to_json p;
        is_json = issuer.from_json-to_json p;
        same_chapter = refl;
        dated = dated;
        fresh = fresh;
      }

  -- Whatever verifier is told the base64 of a key accepts the tokens that the issuer makes with that
  -- key, for their own chapter, until they expire.
  pub verify_url_token-issue :
      (now : ℕ) (old : TokenVerifier crypto) (p : TokenPayload) (n : Nonce) (k : PrecomputedKey)
      {date : ℕ}
      → parse_from_rfc3339 p.expires ≡ ok date
      → now < date
      → (push_key_b64 crypto (encode (key_bytes k) original) old ≡ (ok tt, some k))
        × (verify_url_token crypto now
              (push_key_b64 crypto (encode (key_bytes k) original) old).1
              (issue p n k)
              p.hash
            ≡ ok tt)
  unfolding push_key_b64
  verify_url_token-issue now old p n k dated fresh =
      let pushed : push_key_b64 crypto (encode (key_bytes k) original) old ≡ (ok tt, some k) =
        ground
          (arith, issuer.decode-encode (key_bytes k) original, issuer.key_from_slice-key_bytes k) in
      (
        pushed,
        rw pushed (
            (verify_url_token-eq-ok_iff crypto _ _ _ _).1 (issue-IsAccepted now p n k dated fresh)),
      )
