-- ===== src/Http/Acceptor/Configured.antt =====
-- src/http/mod.rs: what an acceptor that was created is set to.
use scalpel.Common.{
  Str, Bool, true, false, not, List, [], ◌∷◌, ◌++◌, append_assoc, append-nil, ok, and_then-eq-ok,
  Option, none, some, if◌then◌else◌, ◌≡◌, refl, sym, ap, ◌∙◌, subst, Bool-cases, inl, inr,
}
use scalpel.Config.{AppConfig}
use scalpel.Backend.{TlsPayload}
use scalpel.Http.Acceptor.{
  OpenSsl, tls1, old_ciphers, AcceptorBuilder, preset, add_chain, push_chain, push_key, revert_tls,
  finish_builder, create_openssl_acceptor,
}

module _ (ssl : OpenSsl) where
  abbrev Builder : Type 0
  Builder = AcceptorBuilder ssl

  abbrev first : List (OpenSsl.X509 ssl) → Option (OpenSsl.X509 ssl)
  first [] = none
  first (x509 ∷ chain) = some x509

  abbrev rest : List (OpenSsl.X509 ssl) → List (OpenSsl.X509 ssl)
  rest [] = []
  rest (x509 ∷ chain) = chain

  add_chain-eq-ok :
      (chain : List (OpenSsl.X509 ssl)) (b : Builder) {b' : Builder}
      → add_chain ssl chain b ≡ ok b'
      → b' ≡ record b { extra_chain = b.extra_chain ++ chain }
  unfolding add_chain
  add_chain-eq-ok [] b {b'} h =
      let same : b ≡ b' = cc h in
      sym same ∙ ap (λ l. record b { extra_chain = l }) (sym (append-nil b.extra_chain))
  add_chain-eq-ok (x509 ∷ chain) b h =
      let (_, added, more) = and_then-eq-ok (ssl.add_extra_chain_cert x509) _ h in
      add_chain-eq-ok chain (record b { extra_chain = b.extra_chain ++ x509 ∷ [] }) more
      ∙ ap (λ l. record b { extra_chain = l }) (append_assoc b.extra_chain (x509 ∷ []) chain)

  push_chain-eq-ok :
      (chain : List (OpenSsl.X509 ssl)) {b : Builder}
      → push_chain ssl chain (preset ssl) ≡ ok b
      → b ≡ record (preset ssl) { certificate = first chain; extra_chain = rest chain }
  unfolding push_chain
  push_chain-eq-ok [] {b} h = let same : preset ssl ≡ b = cc h in sym same
  push_chain-eq-ok (x509 ∷ chain) h =
      let (_, set, more) = and_then-eq-ok (ssl.set_certificate x509) _ h in
      add_chain-eq-ok chain (record (preset ssl) { certificate = some x509 }) more

  -- The key of the certificate, in the text `pem`.
  pub record IsKey (pem : Str) (certificate : Option (OpenSsl.X509 ssl))
      (private_key : Option (OpenSsl.PKey ssl)) : Type 0 where
    pub rsa : OpenSsl.Rsa ssl
    pub key : OpenSsl.PKey ssl
    pub read : ssl.private_key_from_pem pem ≡ ok rsa
    pub made : ssl.from_rsa rsa ≡ ok key
    pub stored : private_key ≡ some key
    pub checked : ssl.check_private_key certificate key ≡ ok tt

  push_key-eq-ok :
      (pem : Str) (b : Builder) {b' : Builder}
      → push_key ssl pem b ≡ ok b'
      → IsKey pem b'.certificate b'.private_key × (b' ≡ record b { private_key = b'.private_key })
  unfolding push_key
  push_key-eq-ok pem b {b'} h =
      let (rsa, read, h₁) = and_then-eq-ok (ssl.private_key_from_pem pem) _ h in
      let (key, made, h₂) = and_then-eq-ok (ssl.from_rsa rsa) _ h₁ in
      let (_, set, h₃) = and_then-eq-ok (ssl.set_private_key key) _ h₂ in
      let (_, checked, h₄) = and_then-eq-ok (ssl.check_private_key b.certificate key) _ h₃ in
      let same : record b { private_key = some key } ≡ b' = cc h₄ in
      subst
        (λ x.
          IsKey pem (AcceptorBuilder.certificate x) (AcceptorBuilder.private_key x)
          × (x ≡ record b { private_key = AcceptorBuilder.private_key x }))
        same
        (
          record {
            rsa = rsa;
            key = key;
            read = read;
            made = made;
            stored = refl;
            checked = checked;
          },
          refl,
        )

  -- What the settings decide of the standard: TLS 1.0 and the old ciphers only if not enforced.
  abbrev relaxed : Bool → Builder → Builder
  relaxed enforced b = if enforced then b else record b {
    cipher_list = some old_ciphers;
    tlsv1_cleared = true;
    min_proto_version = some tls1;
  }

  revert_tls-eq-ok :
      (config : AppConfig) (b : Builder) {b' : Builder}
      → revert_tls ssl config b ≡ ok b'
      → b' ≡ relaxed config.enforce_secure_tls b
  unfolding revert_tls
  revert_tls-eq-ok config b {b'} h = elim (Bool-cases config.enforce_secure_tls) [
    | inl on ↦ let same : b ≡ b' = cc (rw (on, revert_tls) at h) in rw on (sym same)
    | inr off ↦
        let (_, set, h₁) =
          and_then-eq-ok (ssl.set_cipher_list old_ciphers) _ (rw (off, revert_tls) at h) in
        let (_, bounded, h₂) = and_then-eq-ok (ssl.set_min_proto_version (some tls1)) _ h₁ in
        let same : relaxed false b ≡ b' = cc h₂ in rw off (sym same)
  ]

  -- The acceptor serves the whole chain of the certificate with its key, under the settings.
  pub record IsConfigured (config : AppConfig) (cert : TlsPayload) (b : AcceptorBuilder ssl)
      : Type 0 where
    pub chain : List (OpenSsl.X509 ssl)
    pub parsed : ssl.stack_from_pem cert.certificate ≡ ok chain
    pub key : IsKey cert.private_key b.certificate b.private_key
    pub leaf : b.certificate ≡ first chain
    pub others : b.extra_chain ≡ rest chain
    -- TLS 1.0 and 1.1, with the old ciphers, exactly if secure TLS is not enforced
    pub old_tls : b.tlsv1_cleared ≡ not config.enforce_secure_tls
    pub ciphers : b.cipher_list ≡ (if config.enforce_secure_tls then none else some old_ciphers)
    pub min_proto : b.min_proto_version ≡ (if config.enforce_secure_tls then none else some tls1)
    -- names are checked exactly if invalid ones are rejected
    pub names : b.servername_callback ≡ config.reject_invalid_sni
    pub server : (b.server_preference ≡ true) × (b.session_cache_size ≡ some 4096)

  IsConfigured-finish :
      (config : AppConfig) (cert : TlsPayload) (chain : List (OpenSsl.X509 ssl)) (keyed b : Builder)
      → ssl.stack_from_pem cert.certificate ≡ ok chain
      → IsKey cert.private_key keyed.certificate keyed.private_key
      → keyed ≡ record (preset ssl) {
        certificate = first chain;
        extra_chain = rest chain;
        private_key = keyed.private_key;
      }
      → b ≡ relaxed config.enforce_secure_tls keyed
      → IsConfigured config cert (finish_builder ssl config b)
  unfolding finish_builder
  IsConfigured-finish config cert chain keyed b parsed key built same =
      subst (λ x. IsConfigured config cert (finish_builder ssl config x)) (sym same)
        (go config.enforce_secure_tls refl)
    where
      go :
          (enforced : Bool)
          → config.enforce_secure_tls ≡ enforced
          → IsConfigured config cert (finish_builder ssl config (relaxed enforced keyed))
      go true e = record {
        chain = chain;
        parsed = parsed;
        key = key;
        leaf = ap (λ x. AcceptorBuilder.certificate x) built;
        others = ap (λ x. AcceptorBuilder.extra_chain x) built;
        old_tls = ap (λ x. AcceptorBuilder.tlsv1_cleared x) built ∙ rw e refl;
        ciphers = ap (λ x. AcceptorBuilder.cipher_list x) built ∙ rw e refl;
        min_proto = ap (λ x. AcceptorBuilder.min_proto_version x) built ∙ rw e refl;
        names = refl;
        server = (refl, refl);
      }
      go false e = record {
        chain = chain;
        parsed = parsed;
        key = key;
        leaf = ap (λ x. AcceptorBuilder.certificate x) built;
        others = ap (λ x. AcceptorBuilder.extra_chain x) built;
        old_tls = rw e refl;
        ciphers = rw e refl;
        min_proto = rw e refl;
        names = refl;
        server = (refl, refl);
      }

  -- An acceptor that is created serves the first certificate of the ping's chain, with the others as
  -- its chain and a key that fits it; TLS below 1.2 and the old ciphers are allowed exactly if the
  -- settings do not enforce secure TLS, and server names are checked exactly if they say so.
  pub create_openssl_acceptor-eq-ok :
      (config : AppConfig) (cert : TlsPayload) {b : AcceptorBuilder ssl}
      → create_openssl_acceptor ssl config cert ≡ ok b
      → IsConfigured config cert b
  unfolding create_openssl_acceptor
  create_openssl_acceptor-eq-ok config cert {b} h =
      let (_, base, h₁) = and_then-eq-ok ssl.mozilla_intermediate_v5 _ h in
      let (chain, parsed, h₂) = and_then-eq-ok (ssl.stack_from_pem cert.certificate) _ h₁ in
      let (chained, pushed, h₃) = and_then-eq-ok (push_chain ssl chain (preset ssl)) _ h₂ in
      let (keyed, with_key, h₄) = and_then-eq-ok (push_key ssl cert.private_key chained) _ h₃ in
      let (reverted, done, h₅) = and_then-eq-ok (revert_tls ssl config keyed) _ h₄ in
      let same : finish_builder ssl config reverted ≡ b = cc h₅ in
      let (key, kept) = push_key-eq-ok cert.private_key chained with_key in
      let built =
        kept
        ∙ ap (λ (x : Builder). record x { private_key = AcceptorBuilder.private_key keyed })
            (push_chain-eq-ok chain pushed) in
      subst (IsConfigured config cert) same (
        IsConfigured-finish config cert chain keyed reverted parsed key built
          (revert_tls-eq-ok config keyed done))
