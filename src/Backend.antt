-- ===== src/Backend.antt =====
-- src/backend.rs: the pings to the MD@Home API and what is remembered of the last one.
-- The `ArcSwap` around the stored information is its current value.
pub mod Laws
pub mod Tests
use scalpel.Common.{
  ℕ, ◌*◌, ◌/◌, ◌%◌, Str, Bool, true, false, not, List, [], ◌∷◌, Result, ok, err, map_err, Outcome,
  returns, panics, Option, none, some, ◌==◌, bytes_eq, if◌then◌else◌, codes,
}
use mathlib.Core.Option
use scalpel.Utils.{u64_mod}
use scalpel.Config.{AppConfig}

-- `constants::SPEC`
abbrev pub spec : ℕ
spec = 31

pub record PingRequest : Type 0 where
  pub secret : Str
  pub port : ℕ
  pub disk_space : ℕ
  pub network_speed : ℕ
  pub build_version : ℕ
  pub ip_address : Option Str
  pub tls_created_at : Option Str

pub record TlsPayload : Type 0 where
  pub created_at : Str
  pub private_key : Str
  pub certificate : Str

pub record PingResponse : Type 0 where
  pub image_server : Str
  pub latest_build : ℕ
  pub url : Str
  pub token_key : Str
  pub compromised : Bool
  pub paused : Bool
  pub client_id : Str
  pub tls : Option TlsPayload

-- The errors that are boxed: of `url`, of sending a request, of reading its body, and the program's.
pub data BackendError : Type 0 where
  url_error send_error json_error invalid_secret : BackendError
  unexpected_response : ℕ → Str → BackendError

-- The `url` crate. `base` is the parsed address of the API.
pub record UrlApi : Type 1 where
  pub Url : Type 0
  pub base : Url
  pub parse : Str → Result Url (Unit {0})
  pub parse_with_base : Url → Str → Result Url (Unit {0})
  pub host_str : Url → Option Str

-- What `reqwest` has of a response: its status, and its body read as `T` or as text.
pub record Reply (T : Type 0) : Type 0 where
  pub status : ℕ
  pub json : Result T (Unit {0})
  pub text : Result Str (Unit {0})

abbrev text_or_no_body : Result Str (Unit {0}) → Str
text_or_no_body (ok body) = body
text_or_no_body (err _) = codes "NO BODY"

-- The payload of a ping, from the settings and the certificate that is stored.
unfoldable pub ping_request : AppConfig → Option TlsPayload → PingRequest
ping_request config last = record {
  secret = config.client_secret;
  port = Option.get_or config.external_port config.port;
  disk_space = config.cache_size_mebibytes * 1024 % u64_mod * 1024 % u64_mod;
  network_speed =
      Option.get_or (Option.map (λ x. x * 1000 % u64_mod / 8) config.external_max_speed) 0;
  build_version = spec;
  ip_address = config.external_ip;
  tls_created_at = Option.map (λ tls. TlsPayload.created_at tls) last;
}

-- `Option::or_else`
abbrev pub or_else {ℓ} : {A : Type ℓ} → Option A → Option A → Option A
or_else (some a) other = some a
or_else none other = other

module _ (url : UrlApi) where
  open url use {Url, parse, parse_with_base}

  pub record PingStore : Type 0 where
    pub tls : TlsPayload
    pub token_key : Str
    pub upstream_url : Url
    pub client_url : Url

  -- Whether a response has another token key than the stored one.
  unfoldable pub is_new_token_key : Option PingStore → PingResponse → Bool
  is_new_token_key none res = true
  is_new_token_key (some x) res = not (bytes_eq x.token_key res.token_key)

  -- The information to store; `unwrap` and `expect` panic.
  unfoldable pub store_of : Option TlsPayload → PingResponse → Outcome PingStore
  store_of none res = panics
  store_of (some tls) res = elim (parse res.image_server) [
    | err _ ↦ panics
    | ok upstream_url ↦ elim (parse res.url) [
      | err _ ↦ panics
      | ok client_url ↦ returns (record {
        tls = tls;
        token_key = res.token_key;
        upstream_url = upstream_url;
        client_url = client_url;
      })
    ]
  ]

  -- The token key, if it is new, and the information that is stored from now on.
  unfoldable pub update_from_response :
      Option PingStore → PingResponse → Outcome (Option Str × PingStore)
  update_from_response last_info res =
      elim (store_of (or_else res.tls (Option.map (λ x. PingStore.tls x) last_info)) res) [
        | panics ↦ panics
        | returns info ↦
            returns (if is_new_token_key last_info res then some res.token_key else none, info)
      ]

  abbrev pub PingResult : Type 0
  PingResult = Result (Option TlsPayload × Option Str) BackendError × Option PingStore

  -- What `ping` returns after an update, with the certificate of the response.
  unfoldable pub updated : Option TlsPayload → Outcome (Option Str × PingStore) → Outcome PingResult
  updated tls panics = panics
  updated tls (returns (new_token_key, info)) = returns (ok (tls, new_token_key), some info)

  unfoldable pub handle_body :
      Option PingStore → Result PingResponse (Unit {0}) → Outcome PingResult
  handle_body info (err _) = returns (err json_error, info)
  handle_body info (ok client_setup) =
      updated client_setup.tls (update_from_response info client_setup)

  -- The answer to a ping by its status.
  unfoldable pub handle_reply : Option PingStore → Reply PingResponse → Outcome PingResult
  handle_reply info res =
      if res.status == 200
      then handle_body info res.json
      else if res.status == 401
      then returns (err invalid_secret, info)
      else returns (err (unexpected_response res.status (text_or_no_body res.text)), info)

  -- `ping`: `send` is the exchange with the API.
  unfoldable pub ping :
      AppConfig
      → (Url → PingRequest → Result (Reply PingResponse) (Unit {0}))
      → Option PingStore
      → Outcome PingResult
  ping config send info =
      let payload = ping_request config (Option.map (λ x. PingStore.tls x) info) in
      elim (parse_with_base url.base (codes "/ping")) [
        | err _ ↦ returns (err url_error, info)
        | ok address ↦ elim (send address payload) [
          | err _ ↦ returns (err send_error, info)
          | ok res ↦ handle_reply info res
        ]
      ]

  -- `stop`: the request holds only the secret, and nothing is stored.
  unfoldable pub stop :
      AppConfig
      → (Url → Str → Result (Reply (Unit {0})) (Unit {0}))
      → Result (Unit {0}) BackendError
  stop config send = elim (parse_with_base url.base (codes "/stop")) [
    | err _ ↦ err url_error
    | ok address ↦ elim (send address config.client_secret) [
      | err _ ↦ err send_error
      | ok res ↦
          if res.status == 200
          then ok tt
          else if res.status == 401
          then err invalid_secret
          else err (unexpected_response res.status (text_or_no_body res.text))
    ]
  ]
