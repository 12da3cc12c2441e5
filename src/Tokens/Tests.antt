-- ===== src/Tokens/Tests.antt =====
-- A toy issuer that meets the interface, and the theorems of src/tokens.rs at it.
use scalpel.Common.{
  ℕ, Str, Bytes, [], ◌∷◌, ◌++◌, length, take, drop, Result, ok, err, Option, none, some, ◌≡◌, refl,
  arith, ◌==◌, if◌then◌else◌, take-append, drop-append, ◌↔◌, bytes_eq, codes,
}
use scalpel.Tokens.{
  TokenPayload, Crypto, verify_url_token, push_key_b64, decrypt_token, no_key, token_expired,
  verify_url_token, invalid_chapter_hash,
}
use scalpel.Tokens.Accepts.{IsAccepted, verify_url_token-eq-ok_iff, decrypt_token-no_key_iff}
use scalpel.Tokens.Rejects.{IsRejected, verify_url_token-eq-err_iff}
use scalpel.Tokens.Issue.{Issuer, issue, verify_url_token-issue}

abbrev to_json : TokenPayload → Str
to_json p = length p.expires ∷ (p.expires ++ (length p.hash ∷ (p.hash ++ p.client_id)))

abbrev pub read_rest : Str → Str → Result TokenPayload (Unit {0})
read_rest expires [] = err tt
read_rest expires (n ∷ s) = ok (record { expires = expires; hash = take n s; client_id = drop n s })

abbrev pub from_json : Str → Result TokenPayload (Unit {0})
from_json [] = err tt
from_json (n ∷ s) = read_rest (take n s) (drop n s)

from_json-to_json : (p : TokenPayload) → from_json (to_json p) ≡ ok p
from_json-to_json p =
    rw (take-append p.expires, drop-append p.expires, take-append p.hash, drop-append p.hash)

abbrev pub key_from_slice : Bytes → Option ℕ
key_from_slice [] = none
key_from_slice (k ∷ []) = some k
key_from_slice (k ∷ _ ∷ _) = none

abbrev pub open_box : Bytes → ℕ → Result Bytes (Unit {0})
open_box [] k = err tt
open_box (c ∷ m) k = if c == k then ok m else err tt

abbrev pub first : Str → Result ℕ (Unit {0})
first [] = err tt
first (d ∷ _) = ok d

open-seal : (m : Bytes) (k : ℕ) → open_box (k ∷ m) k ≡ ok m
open-seal m k = ground arith

abbrev nonce : Bytes
nonce = codes "123456789012345678901234"

-- Base64 is the identity, a box is its key and its text, a date its first byte.
abbrev pub toy : Crypto
toy = record {
  PrecomputedKey = ℕ;
  Nonce = Unit {0};
  decode = λ s _. ok s;
  key_from_slice = key_from_slice;
  nonce_from_slice = λ _. some tt;
  open_precomputed = λ c _ k. open_box c k;
  from_utf8 = λ b. ok b;
  from_json = from_json;
  parse_from_rfc3339 = first;
}

abbrev toy_issuer : Issuer toy
toy_issuer = record {
  encode = λ b _. b;
  nonce_bytes = λ _. nonce;
  key_bytes = λ k. k ∷ [];
  seal_precomputed = λ m _ k. k ∷ m;
  to_json = to_json;
  decode-encode = λ b v. refl;
  length-nonce_bytes = λ n. refl;
  nonce_from_slice-nonce_bytes = λ n. refl;
  key_from_slice-key_bytes = λ k. refl;
  seal_pos = λ m n k. omega arith;
  open-seal = λ m n k. open-seal m k;
  from_utf8-to_json = λ p. refl;
  from_json-to_json = from_json-to_json;
}

abbrev payload : TokenPayload
payload = record { expires = 9 ∷ []; hash = codes "abc"; client_id = codes "1" }

abbrev token : Str
token = nonce ++ (7 ∷ to_json payload)

token_is_issued : issue toy toy_issuer payload tt 7 ≡ token
unfolding issue
token_is_issued = refl

expired : verify_url_token toy 9 (some 7) token (codes "abc") ≡ err token_expired
unfolding verify_url_token bytes_eq
expired = refl

other_chapter : verify_url_token toy 8 (some 7) token (codes "abd") ≡ err invalid_chapter_hash
unfolding verify_url_token bytes_eq
other_chapter = refl

verify_url_token-issue_example :
    (push_key_b64 toy (7 ∷ []) none ≡ (ok tt, some 7))
    × (verify_url_token toy 8
          (push_key_b64 toy (7 ∷ []) none).1
          (issue toy toy_issuer payload tt 7)
          (codes "abc")
        ≡ ok tt)
verify_url_token-issue_example =
    verify_url_token-issue toy toy_issuer 8 none payload tt 7 refl (omega arith)

verify_url_token-eq-ok_iff_example :
    (verify_url_token toy 8 (some 7) token (codes "abc") ≡ ok tt)
    ↔ IsAccepted toy 8 (some 7) token (codes "abc")
verify_url_token-eq-ok_iff_example = verify_url_token-eq-ok_iff toy 8 (some 7) token (codes "abc")

verify_url_token-eq-err_iff_example :
    (verify_url_token toy 9 (some 7) token (codes "abc") ≡ err token_expired)
    ↔ IsRejected toy 9 (some 7) token (codes "abc") token_expired
verify_url_token-eq-err_iff_example =
    verify_url_token-eq-err_iff toy 9 (some 7) token (codes "abc") token_expired

decrypt_token-no_key_iff_test :
    (decrypt_token toy none tt nonce ≡ err no_key) ↔ (◌≡◌ {A = Option ℕ} none none)
decrypt_token-no_key_iff_test = decrypt_token-no_key_iff toy none tt nonce
