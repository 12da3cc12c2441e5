-- ===== src/Http/Service.antt =====
-- src/http/mod.rs: the services behind the routes, and the check of a TLS server name.
pub mod Guard
pub mod Counts
mod Tests
use scalpel.Common.{
  ℕ, ◌+◌, ◌%◌, ◌++◌, Str, Bool, true, false, ◌||◌, List, [], ◌∷◌, Result, ok, err, map_err, Option,
  none, some, bytes_eq, if◌then◌else◌, codes,
}
use mathlib.Core.Option
use scalpel.Metrics.{Metrics}
use scalpel.Config.{AppConfig}
use scalpel.Utils.{u64_mod}
use scalpel.Cache.Key
use scalpel.Tokens.{TokenError, verify_url_token}
use scalpel.Tokens
use scalpel.Backend.{UrlApi, PingStore}
use scalpel.State.{Env, GlobalState}
use scalpel.Http.Api.{HttpRequest}
use scalpel.Http.Handler.{HttpResponse, text, World, response_from_cache}

pub record MdPathArgs : Type 0 where
  pub token : Option Str
  -- either data or data-saver
  pub archive_type : Str
  pub chap_hash : Str
  pub image : Str

-- What `md_service` fails with, before the cache is asked.
pub data ServiceError : Type 0 where
  invalid_archive no_token : ServiceError
  invalid_token : TokenError → ServiceError

-- The status of the response that an error becomes.
unfoldable pub status_code : ServiceError → ℕ
status_code invalid_archive = 404
status_code no_token = 401
status_code (invalid_token e) = Tokens.status_code e

-- Its text.
unfoldable pub error_body : ServiceError → Str
error_body invalid_archive = codes "invalid archive type. must be one of [\"data\", \"data-saver\"]"
error_body no_token = codes "no token provided"
error_body (invalid_token e) = Tokens.error_body e

unfoldable pub is_archive : Str → Bool
is_archive archive_type =
    bytes_eq archive_type (codes "data") || bytes_eq archive_type (codes "data-saver")

-- `ssl::SniError::ALERT_FATAL`
pub data SniError : Type 0 where
  alert_fatal : SniError

-- The name that the client asks for, and the host of the address that the API gave.
unfoldable pub check_names : Option Str → Option Str → Result (Unit {0}) SniError
check_names none client_hostname = err alert_fatal
check_names (some servername) client_hostname =
    if bytes_eq servername (codes "localhost") || bytes_eq servername (codes "scalpel")
    then ok tt
    else elim client_hostname [
      | none ↦ err alert_fatal
      | some client_servername ↦
          if bytes_eq servername client_servername then ok tt else err alert_fatal
    ]

-- `Option::and_then`
abbrev pub option_and_then {ℓ} : {A B : Type ℓ} → Option A → (A → Option B) → Option B
option_and_then none f = none
option_and_then (some a) f = f a

module _ (env : Env) where
  abbrev pub dropped : GlobalState env → GlobalState env
  dropped gs = record gs {
    metrics = record gs.metrics { dropped_requests_total = gs.metrics.dropped_requests_total + 1 };
  }

  -- The check of the token in a path; `now` is the local time.
  unfoldable pub check_token : ℕ → MdPathArgs → GlobalState env → Result (Unit {0}) ServiceError
  check_token now path gs = if gs.config.skip_tokens then ok tt else elim path.token [
    | none ↦ err no_token
    | some token ↦
        map_err invalid_token (verify_url_token env.crypto now gs.verifier token path.chap_hash)
  ]

  abbrev pub counted_request : GlobalState env → GlobalState env
  counted_request gs = record gs { request_counter = (gs.request_counter + 1) % u64_mod }

  -- A response as the result of the service.
  abbrev pub responds :
      HttpResponse env × GlobalState env → Result (HttpResponse env) ServiceError × GlobalState env
  responds (res, gs) = (ok res, gs)

  -- The service once the token was checked.
  unfoldable pub serve :
      Result (Unit {0}) ServiceError
      → HttpRequest env.http
      → MdPathArgs
      → (ℕ → World env)
      → GlobalState env
      → Option (Result (HttpResponse env) ServiceError × GlobalState env)
  serve (err e) req path worlds gs = some (err e, dropped gs)
  serve (ok _) req path worlds gs =
      let saver = bytes_eq path.archive_type (codes "data-saver") in
      Option.map responds (
        response_from_cache env req (Key.new path.chap_hash path.image saver) worlds
          (counted_request gs))

  unfoldable pub md_service :
      ℕ
      → HttpRequest env.http
      → MdPathArgs
      → (ℕ → World env)
      → GlobalState env
      → Option (Result (HttpResponse env) ServiceError × GlobalState env)
  unfolding serve
  md_service now req path worlds gs =
      let served = serve (check_token now path gs) req path worlds gs in
      if is_archive path.archive_type then served else some (err invalid_archive, dropped gs)

  -- What the client gets of a result: `ResponseError::error_response` for an error.
  unfoldable pub answer : Result (HttpResponse env) ServiceError → HttpResponse env
  unfolding status_code error_body
  answer (ok res) = res
  answer (err e) = record { status = status_code e; headers = []; body = text (error_body e) }

  -- `metrics` is what encoding the metrics gave.
  unfoldable pub prom_service : Result Str Str → HttpResponse env
  prom_service (ok metrics) = record { status = 200; headers = []; body = text metrics }
  prom_service (err e) = record {
    status = 500;
    headers = [];
    body = text (codes "error encoding metrics: " ++ e);
  }

  unfoldable pub not_found_service : GlobalState env → HttpResponse env × GlobalState env
  not_found_service gs = (
    record { status = 404; headers = []; body = text (codes "no valid route found") },
    dropped gs,
  )

  unfoldable pub check_sni : Option Str → GlobalState env → Result (Unit {0}) SniError
  unfolding check_names
  check_sni servername gs =
      check_names servername
        (option_and_then gs.ping_info (λ x. UrlApi.host_str env.url (PingStore.client_url x)))
