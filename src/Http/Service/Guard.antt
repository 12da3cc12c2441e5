-- ===== src/Http/Service/Guard.antt =====
-- src/http/mod.rs: who gets past the checks.
use scalpel.Common.{
  ℕ, Str, true, [], Result, ok, map_err-eq-ok, Option, none, some, bytes_eq, bytes_eq_refl,
  bytes_eq_iff, codes, ◌≡◌, ◌↔◌, ◌⊎◌, inl, inr, refl, arith, Bool-cases, Option-cases, Result-cases,
}
use scalpel.Cache.Key.{ImageKey}
use scalpel.Cache.Key
use scalpel.Tokens.Accepts.{IsAccepted, verify_url_token-eq-ok_iff}
use scalpel.Backend.{UrlApi, PingStore}
use scalpel.State.{Env, GlobalState}
use scalpel.Http.Api.{HttpRequest}
use scalpel.Http.Handler.{HttpResponse, World, response_from_cache}
use scalpel.Http.Handler.Count.{response_from_cache-settled}
use scalpel.Http.Service.{
  MdPathArgs, ServiceError, is_archive, check_names, check_sni, check_token, counted_request,
  md_service, option_and_then,
}

module _ (env : Env) where
  pub response_from_cache-answers :
      (req : HttpRequest env.http) (key : ImageKey) (worlds : ℕ → World env) (gs : GlobalState env)
      → (res : HttpResponse env) × (gs' : GlobalState env) × (response_from_cache env req key worlds
            gs
          ≡ some (res, gs'))
  response_from_cache-answers req key worlds gs =
      let (res, gs', run, _) =
        response_from_cache-settled env {E = Unit {0}} [] req key worlds gs in
      (res, gs', run)

  -- A request may be served: its archive exists, and its token is accepted unless tokens are skipped.
  pub record IsAllowed (now : ℕ) (path : MdPathArgs) (gs : GlobalState env) : Type 0 where
    pub archive : (path.archive_type ≡ codes "data") ⊎ (path.archive_type ≡ codes "data-saver")
    pub token :
        (gs.config.skip_tokens ≡ true)
        ⊎ ((token : Str) × (path.token ≡ some token)
            × IsAccepted env.crypto now gs.verifier token path.chap_hash)

  check_token-eq-ok :
      (now : ℕ) (path : MdPathArgs) (gs : GlobalState env)
      → check_token env now path gs ≡ ok tt
      → (gs.config.skip_tokens ≡ true)
        ⊎ ((token : Str) × (path.token ≡ some token)
            × IsAccepted env.crypto now gs.verifier token path.chap_hash)
  unfolding check_token
  check_token-eq-ok now path gs h = elim (Bool-cases gs.config.skip_tokens) [
    | inl skip ↦ inl skip
    | inr verify ↦ elim (Option-cases path.token) [
      | inl absent ↦ absurd (cc (rw (verify, absent, check_token) at h))
      | inr (token, given) ↦
          let verified = map_err-eq-ok _ _ (rw (verify, given, check_token) at h) in
          inr (
            token,
            given,
            (verify_url_token-eq-ok_iff env.crypto now gs.verifier token path.chap_hash).0 verified,
          )
    ]
  ]

  ok_of_allowed :
      (now : ℕ) (path : MdPathArgs) (gs : GlobalState env)
      → (gs.config.skip_tokens ≡ true)
        ⊎ ((token : Str) × (path.token ≡ some token)
            × IsAccepted env.crypto now gs.verifier token path.chap_hash)
      → check_token env now path gs ≡ ok tt
  unfolding check_token
  ok_of_allowed now path gs (inl skip) = rw skip refl
  ok_of_allowed now path gs (inr (token, given, accepted)) =
      let verified =
        (verify_url_token-eq-ok_iff env.crypto now gs.verifier token path.chap_hash).1 accepted in
      ground (arith, verified, given)

  archive-cases :
      (archive_type : Str)
      → is_archive archive_type ≡ true
      → (archive_type ≡ codes "data") ⊎ (archive_type ≡ codes "data-saver")
  unfolding is_archive
  archive-cases archive_type h = elim (Bool-cases (bytes_eq archive_type (codes "data"))) [
    | inl same ↦ inl ((bytes_eq_iff archive_type (codes "data")).0 same)
    | inr other ↦ inr ((bytes_eq_iff archive_type (codes "data-saver")).0 (rw other at h))
  ]

  archive_of_name :
      (archive_type : Str)
      → (archive_type ≡ codes "data") ⊎ (archive_type ≡ codes "data-saver")
      → is_archive archive_type ≡ true
  unfolding is_archive
  archive_of_name archive_type (inl e) = rw e (rw (bytes_eq_refl (codes "data")) refl)
  archive_of_name archive_type (inr e) = rw e (ground (arith, bytes_eq_refl (codes "data-saver")))

  -- A result of the service that is a response.
  abbrev pub Responds : Option (Result (HttpResponse env) ServiceError × GlobalState env) → Type 0
  Responds r = (res : HttpResponse env) × (gs' : GlobalState env) × (r ≡ some (ok res, gs'))

  Responds-IsAllowed :
      (now : ℕ) (req : HttpRequest env.http) (path : MdPathArgs) (worlds : ℕ → World env)
      (gs : GlobalState env)
      → Responds (md_service env now req path worlds gs)
      → IsAllowed now path gs
  unfolding md_service
  Responds-IsAllowed now req path worlds gs (res, gs', h) =
      elim (Bool-cases (is_archive path.archive_type)) [
        | inr other ↦ absurd (cc (rw (other, md_service) at h))
        | inl archive ↦ elim (Result-cases (check_token env now path gs)) [
          | inl (_, checked) ↦ record {
            archive = archive-cases path.archive_type archive;
            token = check_token-eq-ok now path gs checked;
          }
          | inr (e, refused) ↦ absurd (cc (rw (archive, refused, md_service) at h))
        ]
      ]

  IsAllowed-Responds :
      (now : ℕ) (req : HttpRequest env.http) (path : MdPathArgs) (worlds : ℕ → World env)
      (gs : GlobalState env)
      → IsAllowed now path gs
      → Responds (md_service env now req path worlds gs)
  unfolding md_service
  IsAllowed-Responds now req path worlds gs a =
      let key =
        Key.new path.chap_hash path.image (bytes_eq path.archive_type (codes "data-saver")) in
      let (res, gs', run) = response_from_cache-answers req key worlds (counted_request env gs) in
      (
        res,
        gs',
        rw (archive_of_name path.archive_type a.archive, ok_of_allowed now path gs a.token, run)
            refl,
      )

  -- The service answers a request with a response of the cache handlers exactly when the archive
  -- is `data` or `data-saver`, and tokens are skipped or the path has one that the verifier accepts.
  pub md_service-allows_iff :
      (now : ℕ) (req : HttpRequest env.http) (path : MdPathArgs) (worlds : ℕ → World env)
      (gs : GlobalState env)
      → Responds (md_service env now req path worlds gs) ↔ IsAllowed now path gs
  md_service-allows_iff now req path worlds gs =
      (Responds-IsAllowed now req path worlds gs, IsAllowed-Responds now req path worlds gs)

  -- The names that a TLS client may ask for.
  abbrev pub IsServed : Str → Option Str → Type 0
  IsServed name client_hostname =
      (name ≡ codes "localhost") ⊎ (name ≡ codes "scalpel") ⊎ (client_hostname ≡ some name)

  check_names_iff :
      (name : Str) (client_hostname : Option Str)
      → (check_names (some name) client_hostname ≡ ok tt) ↔ IsServed name client_hostname
  unfolding check_names
  check_names_iff name none = (
    λ h. ground (arith, bytes_eq_iff name (codes "localhost"), bytes_eq_iff name (codes "scalpel")),
    λ h. ground (arith, bytes_eq_iff name (codes "localhost"), bytes_eq_iff name (codes "scalpel")),
  )
  check_names_iff name (some host) = (
    λ h. ground (
      arith,
      bytes_eq_iff name (codes "localhost"),
      bytes_eq_iff name (codes "scalpel"),
      bytes_eq_iff name host,
    ),
    λ h. ground (
      arith,
      bytes_eq_iff name (codes "localhost"),
      bytes_eq_iff name (codes "scalpel"),
      bytes_eq_iff name host,
    ),
  )

  -- A server name passes exactly when it is `localhost` or `scalpel`, or the host of the address
  -- that the API gave for this client.
  pub check_sni_iff :
      (name : Str) (gs : GlobalState env)
      → (check_sni env (some name) gs ≡ ok tt)
        ↔ IsServed name
            (option_and_then gs.ping_info (λ x. UrlApi.host_str env.url (PingStore.client_url x)))
  unfolding check_sni
  check_sni_iff name gs = check_names_iff name _
