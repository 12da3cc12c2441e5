-- ===== src/Http/Acceptor.antt =====
-- src/http/mod.rs, `create_openssl_acceptor`: how the certificate of a ping and the settings become
-- the acceptor of TLS connections.
pub mod Configured
use scalpel.Common.{
  ℕ, ◌*◌, Str, Bool, true, false, List, [], ◌∷◌, ◌++◌, Result, ok, err, and_then, and_then-eq-ok,
  Option, none, some, codes, if◌then◌else◌, ◌≡◌, refl, sym, ap, ◌∙◌, subst, Bool-cases, inl, inr,
}
use scalpel.Config.{AppConfig}
use scalpel.Backend.{TlsPayload}

pub data TlsVersion : Type 0 where
  tls1 : TlsVersion

-- The `openssl` crate: what parses, and which of the calls on a builder fail.
pub record OpenSsl : Type 1 where
  pub Error : Type 0
  pub X509 : Type 0
  pub Rsa : Type 0
  pub PKey : Type 0
  pub mozilla_intermediate_v5 : Result (Unit {0}) Error
  pub stack_from_pem : Str → Result (List X509) Error
  pub private_key_from_pem : Str → Result Rsa Error
  pub from_rsa : Rsa → Result PKey Error
  pub set_certificate : X509 → Result (Unit {0}) Error
  pub add_extra_chain_cert : X509 → Result (Unit {0}) Error
  pub set_private_key : PKey → Result (Unit {0}) Error
  -- whether the key is that of the certificate that was set
  pub check_private_key : Option X509 → PKey → Result (Unit {0}) Error
  pub set_cipher_list : Str → Result (Unit {0}) Error
  pub set_min_proto_version : Option TlsVersion → Result (Unit {0}) Error

-- The ciphers of Mozilla's old configuration.
abbrev pub old_ciphers : Str
old_ciphers =
    codes "ECDHE-ECDSA-AES128-GCM-SHA256:ECDHE-RSA-AES128-GCM-SHA256:"
    ++ codes "ECDHE-ECDSA-AES256-GCM-SHA384:ECDHE-RSA-AES256-GCM-SHA384:"
    ++ codes "ECDHE-ECDSA-CHACHA20-POLY1305:ECDHE-RSA-CHACHA20-POLY1305:"
    ++ codes "DHE-RSA-AES128-GCM-SHA256:DHE-RSA-AES256-GCM-SHA384:DHE-RSA-CHACHA20-POLY1305:"
    ++ codes "ECDHE-ECDSA-AES128-SHA256:ECDHE-RSA-AES128-SHA256:ECDHE-ECDSA-AES128-SHA:"
    ++ codes "ECDHE-RSA-AES128-SHA:ECDHE-ECDSA-AES256-SHA384:ECDHE-RSA-AES256-SHA384:"
    ++ codes "ECDHE-ECDSA-AES256-SHA:ECDHE-RSA-AES256-SHA:DHE-RSA-AES128-SHA256:"
    ++ codes "DHE-RSA-AES256-SHA256:AES128-GCM-SHA256:AES256-GCM-SHA384:"
    ++ codes "AES128-SHA256:AES256-SHA256:AES128-SHA:AES256-SHA:DES-CBC3-SHA"

module _ (ssl : OpenSsl) where
  -- What the calls of `create_openssl_acceptor` set; `none` and `false` are the preset.
  pub record AcceptorBuilder : Type 0 where
    pub certificate : Option (OpenSsl.X509 ssl)
    pub extra_chain : List (OpenSsl.X509 ssl)
    pub private_key : Option (OpenSsl.PKey ssl)
    pub cipher_list : Option Str
    -- `clear_options(NO_TLSV1 | NO_TLSV1_1)`
    pub tlsv1_cleared : Bool
    pub min_proto_version : Option TlsVersion
    -- `CIPHER_SERVER_PREFERENCE`, `SslSessionCacheMode::SERVER`, `SslVerifyMode::NONE`
    pub server_preference : Bool
    pub session_cache_server : Bool
    pub session_cache_size : Option ℕ
    pub verify_none : Bool
    pub servername_callback : Bool

  abbrev Built : Type 0
  Built = Result AcceptorBuilder (OpenSsl.Error ssl)

  abbrev pub preset : AcceptorBuilder
  preset = record {
    certificate = none;
    extra_chain = [];
    private_key = none;
    cipher_list = none;
    tlsv1_cleared = false;
    min_proto_version = none;
    server_preference = false;
    session_cache_server = false;
    session_cache_size = none;
    verify_none = false;
    servername_callback = false;
  }

  -- The loop over the rest of the chain.
  unfoldable pub add_chain : List (OpenSsl.X509 ssl) → AcceptorBuilder → Built
  add_chain [] b = ok b
  add_chain (x509 ∷ chain) b =
      and_then (ssl.add_extra_chain_cert x509)
        (λ _. add_chain chain (record b { extra_chain = b.extra_chain ++ x509 ∷ [] }))

  unfoldable pub push_chain : List (OpenSsl.X509 ssl) → AcceptorBuilder → Built
  unfolding add_chain
  push_chain [] b = ok b
  push_chain (x509 ∷ chain) b =
      and_then (ssl.set_certificate x509)
        (λ _. add_chain chain (record b { certificate = some x509 }))

  unfoldable pub push_key : Str → AcceptorBuilder → Built
  push_key pem b = and_then (ssl.private_key_from_pem pem) (λ priv_key.
      and_then (ssl.from_rsa priv_key) (λ pkey. and_then (ssl.set_private_key pkey) (λ _.
        and_then (ssl.check_private_key b.certificate pkey)
          (λ _. ok (record b { private_key = some pkey })))))

  -- The old standard, if secure TLS is not enforced.
  unfoldable pub revert_tls : AppConfig → AcceptorBuilder → Built
  revert_tls config b =
      let relaxed = and_then (ssl.set_cipher_list old_ciphers) (λ _.
        and_then (ssl.set_min_proto_version (some tls1)) (λ _. ok (record b {
          cipher_list = some old_ciphers;
          tlsv1_cleared = true;
          min_proto_version = some tls1;
        }))) in
      if config.enforce_secure_tls then ok b else relaxed

  unfoldable pub finish_builder : AppConfig → AcceptorBuilder → AcceptorBuilder
  finish_builder config b = record b {
    server_preference = true;
    session_cache_server = true;
    session_cache_size = some (1024 * 4);
    verify_none = true;
    servername_callback = config.reject_invalid_sni;
  }

  unfoldable pub create_openssl_acceptor : AppConfig → TlsPayload → Built
  unfolding push_chain push_key revert_tls finish_builder
  create_openssl_acceptor config cert = and_then ssl.mozilla_intermediate_v5 (λ _.
      and_then (ssl.stack_from_pem cert.certificate) (λ full_chain.
        and_then (push_chain full_chain preset) (λ b.
          and_then (push_key cert.private_key b)
            (λ b. and_then (revert_tls config b) (λ b. ok (finish_builder config b))))))
