-- ===== src/Backend/Laws.antt =====
-- src/backend.rs: what a ping sends, reports and stores.
use scalpel.Common.{
  ℕ, ◌*◌, ◌<◌, Str, Bool, true, false, Result, ok, err, Outcome, returns, panics, Option, none,
  some, bytes_eq_iff, if◌then◌else◌, ◌≡◌, ◌↔◌, ◌⊎◌, inl, inr, arith, refl, codes, Result-cases,
}
use mathlib.Core.Option
use scalpel.Config.{AppConfig}
use scalpel.Backend.{
  PingRequest, TlsPayload, PingResponse, BackendError, UrlApi, Reply, ping_request, or_else,
  PingStore, update_from_response, updated, handle_body, store_of, is_new_token_key, handle_reply,
  ping,
}

-- For sizes and speeds that fit a `u32` no product wraps: a ping announces the cache size in bytes,
-- and the speed in bytes per second (0 if it is not set).
pub ping_request_exact :
    (config : AppConfig) (last : Option TlsPayload)
    → config.cache_size_mebibytes < 4294967296
    → (speed : ℕ) → config.external_max_speed ≡ some speed
    → speed < 4294967296
    → ((ping_request config last).disk_space ≡ config.cache_size_mebibytes * 1048576)
      × ((ping_request config last).network_speed ≡ speed * 125)
unfolding ping_request
ping_request_exact config last size speed set fits = (omega arith, rw set (omega arith))

module _ (url : UrlApi) where
  open url use {Url, parse}

  -- What `update_from_response` stores and reports, if it returns.
  pub record IsUpdate (last : Option (PingStore url)) (res : PingResponse) (key : Option Str)
      (info : PingStore url) : Type 0 where
    pub tls : or_else res.tls (Option.map (λ x. PingStore.tls x) last) ≡ some info.tls
    pub token_key : info.token_key ≡ res.token_key
    pub upstream_url : parse res.image_server ≡ ok info.upstream_url
    pub client_url : parse res.url ≡ ok info.client_url
    pub reported : (key ≡ some res.token_key) ⊎ (key ≡ none)
    pub old_key : (key ≡ none) ↔ (Option.map (λ x. PingStore.token_key x) last ≡ some res.token_key)

  store_of-eq-returns :
      (tls : Option TlsPayload) (res : PingResponse) {info : PingStore url}
      → store_of url tls res ≡ returns info
      → (tls ≡ some info.tls)
        × (info.token_key ≡ res.token_key)
        × (parse res.image_server ≡ ok info.upstream_url)
        × (parse res.url ≡ ok info.client_url)
  unfolding store_of
  store_of-eq-returns none res h = cc
  store_of-eq-returns (some tls) res h = ground arith

  is_new_token_key-cases :
      (last : Option (PingStore url)) (res : PingResponse)
      → (is_new_token_key url last res ≡ false)
        ↔ (Option.map (λ x. PingStore.token_key x) last ≡ some res.token_key)
  unfolding is_new_token_key
  is_new_token_key-cases none res = (λ h. cc, λ h. cc)
  is_new_token_key-cases (some x) res = (
    λ h. ground (arith, bytes_eq_iff x.token_key res.token_key),
    λ h. ground (arith, bytes_eq_iff x.token_key res.token_key),
  )

  update_from_response-eq-returns :
      (last : Option (PingStore url)) (res : PingResponse) {key : Option Str} {info : PingStore url}
      → update_from_response url last res ≡ returns (key, info)
      → (store_of url (or_else res.tls (Option.map (λ x. PingStore.tls x) last)) res ≡ returns info)
        × (key ≡ (if is_new_token_key url last res then some res.token_key else none))
  unfolding update_from_response
  update_from_response-eq-returns last res h = ground arith

  key-cases :
      (b : Bool) (res : PingResponse) {key : Option Str}
      → key ≡ (if b then some res.token_key else none)
      → ((key ≡ some res.token_key) ⊎ (key ≡ none)) × ((key ≡ none) ↔ (b ≡ false))
  key-cases true res e = (inl e, (λ h. cc, λ h. cc))
  key-cases false res e = (inr e, (λ _. refl, λ _. e))

  -- An update keeps the newest certificate, stores the response's token key and addresses, and
  -- reports the token key exactly when it is not the stored one.
  pub update_from_response-IsUpdate :
      (last : Option (PingStore url)) (res : PingResponse) {key : Option Str} {info : PingStore url}
      → update_from_response url last res ≡ returns (key, info)
      → IsUpdate last res key info
  update_from_response-IsUpdate last res h =
      let (stored, reports) = update_from_response-eq-returns last res h in
      let (tls, token_key, upstream, client) = store_of-eq-returns _ res stored in
      let (reported, fresh) = key-cases (is_new_token_key url last res) res reports in
      let same = is_new_token_key-cases last res in
      record {
        tls = tls;
        token_key = token_key;
        upstream_url = upstream;
        client_url = client;
        reported = reported;
        old_key = (λ e. same.0 (fresh.0 e), λ e. fresh.1 (same.1 e));
      }

  -- An update panics exactly when neither the response nor the store has a certificate, or an
  -- address of the response does not parse.
  pub update_from_response-panics_iff :
      (last : Option (PingStore url)) (res : PingResponse)
      → (update_from_response url last res ≡ panics) ↔ (
          ((res.tls ≡ none) × (last ≡ none))
          ⊎ (parse res.image_server ≡ err tt)
          ⊎ (parse res.url ≡ err tt))
  unfolding update_from_response store_of
  update_from_response-panics_iff last res = (λ h. ground arith, λ h. ground arith)

  module _ (config : AppConfig)
      (send : Url → PingRequest → Result (Reply PingResponse) (Unit {0})) where
    -- The exchange behind a successful ping.
    pub record IsAnswered (last next : Option (PingStore url)) (tls : Option TlsPayload)
        (key : Option Str) : Type 0 where
      pub address : Url
      pub reply : Reply PingResponse
      pub res : PingResponse
      pub info : PingStore url
      pub sent :
          send address (ping_request config (Option.map (λ x. PingStore.tls x) last)) ≡ ok reply
      pub status : reply.status ≡ 200
      pub body : reply.json ≡ ok res
      pub certificate : tls ≡ res.tls
      pub stored : next ≡ some info
      pub update : IsUpdate last res key info

    updated-eq-ok :
        (tls t : Option TlsPayload) (o : Outcome (Option Str × PingStore url)) {key : Option Str}
        {next : Option (PingStore url)}
        → updated url t o ≡ returns (ok (tls, key), next)
        → (info : PingStore url) × (tls ≡ t) × (next ≡ some info) × (o ≡ returns (key, info))
    unfolding updated
    updated-eq-ok tls t panics h = cc
    updated-eq-ok tls t (returns (key, info)) h = (info, ground arith, ground arith, ground arith)

    handle_body-eq-ok :
        (last : Option (PingStore url)) (body : Result PingResponse (Unit {0}))
        (tls : Option TlsPayload) {key : Option Str} {next : Option (PingStore url)}
        → handle_body url last body ≡ returns (ok (tls, key), next)
        → (res : PingResponse) × (info : PingStore url) × (body ≡ ok res)
          × (tls ≡ res.tls)
          × (next ≡ some info)
          × (update_from_response url last res ≡ returns (key, info))
    unfolding handle_body
    handle_body-eq-ok last (err e) tls h = ground arith
    handle_body-eq-ok last (ok res) tls h =
        let (info, certificate, stored, update) = updated-eq-ok tls res.tls _ h in
        (res, info, refl, certificate, stored, update)

    handle_reply-eq-ok :
        (last : Option (PingStore url)) (reply : Reply PingResponse)
        {r : Option TlsPayload × Option Str} {next : Option (PingStore url)}
        → handle_reply url last reply ≡ returns (ok r, next)
        → (reply.status ≡ 200) × (handle_body url last reply.json ≡ returns (ok r, next))
    unfolding handle_reply
    handle_reply-eq-ok last reply h = ground arith

    ping-eq-ok :
        (last : Option (PingStore url)) {r : Option TlsPayload × Option Str}
        {next : Option (PingStore url)}
        → ping url config send last ≡ returns (ok r, next)
        → (address : Url) × (reply : Reply PingResponse) × (send address
              (ping_request config (Option.map (λ x. PingStore.tls x) last))
            ≡ ok reply)
          × (handle_reply url last reply ≡ returns (ok r, next))
    unfolding ping
    ping-eq-ok last h = elim (Result-cases (url.parse_with_base url.base (codes "/ping"))) [
      | inl (address, found) ↦
          elim (Result-cases
            (send address (ping_request config (Option.map (λ x. PingStore.tls x) last)))) [
              | inl (reply, sent) ↦ (address, reply, sent, rw (found, ping, sent) at h)
              | inr (e, failed) ↦ absurd (cc (rw (found, ping, failed) at h))
            ]
      | inr (e, bad) ↦ absurd (cc (rw (bad, ping) at h))
    ]

    -- A ping that fails leaves the stored information as it was.
    pub ping-returns-err :
        (last next : Option (PingStore url)) (e : BackendError)
        → ping url config send last ≡ returns (err e, next)
        → next ≡ last
    unfolding ping handle_reply handle_body updated
    ping-returns-err last next e h = ground arith

    -- A ping that succeeds was answered with 200 and a readable body, returns that body's
    -- certificate, and has updated the store from it.
    pub ping-returns-ok :
        (last next : Option (PingStore url)) (tls : Option TlsPayload) (key : Option Str)
        → ping url config send last ≡ returns (ok (tls, key), next)
        → IsAnswered last next tls key
    ping-returns-ok last next tls key h =
        let (address, reply, sent, handled) = ping-eq-ok last h in
        let (status, parsed) = handle_reply-eq-ok last reply handled in
        let (res, info, body, certificate, stored, update) =
          handle_body-eq-ok last reply.json tls parsed in
        record {
          address = address;
          reply = reply;
          res = res;
          info = info;
          sent = sent;
          status = status;
          body = body;
          certificate = certificate;
          stored = stored;
          update = update_from_response-IsUpdate last res update;
        }
