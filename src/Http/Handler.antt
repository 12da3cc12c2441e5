-- ===== src/Http/Handler.antt =====
-- src/http/handler.rs: a request for an image is answered from the cache (HIT) or from the upstream
-- (MISS). `Option` around a result is the fuel of the retry loop.
pub mod Retry
pub mod Hit
pub mod Miss
pub mod Count
pub mod Cycle
use scalpel.Common.{
  ℕ, zero, suc, ◌+◌, ◌++◌, Str, Bytes, Bool, true, false, ◌||◌, List, [], ◌∷◌, length, Result, ok,
  err, to_option, Option, none, some, leb, ◌==◌, if◌then◌else◌, codes,
}
use mathlib.Core.Option
use scalpel.Utils.{SystemTime}
use scalpel.Metrics.{Metrics}
use scalpel.Cache.Key.{ImageKey}
use scalpel.Cache.Key
use scalpel.Cache.Entry.{ImageEntry, MimeApi, get_checksum_hex, get_mime}
use scalpel.Cache.Api.{ImageCache}
use scalpel.Backend.{UrlApi, PingStore}
use scalpel.Http.Api.{HttpApi, IfNoneMatch, any, items, HttpRequest, RawResponse}
use scalpel.State.{Env, GlobalState}
use scalpel.Http.Chunked
use scalpel.Http.Chunked.{ChunkedUpstreamPoll}

pub data PollError : Type 0 where
  no_upstream bad_url request_failed : PollError

abbrev pub is_ok {ℓ} : {A E : Type ℓ} → Result A E → Bool
is_ok (ok a) = true
is_ok (err e) = false

-- `map_or` of a header: its value if it is there, is text and parses
abbrev pub header_value :
    {A : Type 0} → (Str → Result A (Unit {0})) → Option (Result Str (Unit {0})) → Option A
header_value parse none = none
header_value parse (some (err _)) = none
header_value parse (some (ok s)) = to_option (parse s)

-- `start_poll_upstream_retry`: `attempt n` is the outcome of the try after `n` others.
unfoldable pub retry_loop {ℓ} :
    {A E : Type ℓ} → (ℕ → Result A E) → ℕ → ℕ → ℕ → Option (Result A E × ℕ)
retry_loop attempt retry zero count = none
retry_loop attempt retry (suc fuel) count =
    let res = attempt count in
    let count' = count + 1 in
    let rest = retry_loop attempt retry fuel count' in
    if is_ok res || leb retry count' then some (res, count') else rest

unfoldable pub start_poll_upstream_retry {ℓ} :
    {A E : Type ℓ} → (ℕ → Result A E) → ℕ → Option (Result A E × ℕ)
start_poll_upstream_retry attempt retry = retry_loop attempt retry (suc retry) 0

module _ (env : Env) where
  abbrev Mime : Type 0
  Mime = MimeApi.Mime env.mime

  abbrev EntityTag : Type 0
  EntityTag = HttpApi.EntityTag env.http

  pub data Header : Type 0 where
    content_type : MimeApi.Mime env.mime → Header
    etag : HttpApi.EntityTag env.http → Header
    last_modified : HttpApi.HttpDate env.http → Header
    other : Str → Str → Header

  pub data Body : Type 0 where
    empty : Body
    bytes : Bytes → Body
    text : Str → Body
    streaming : ChunkedUpstreamPoll env → Body

  pub record HttpResponse : Type 0 where
    pub status : ℕ
    pub headers : List Header
    pub body : Body

  -- The response of a successful poll; its stream of bytes is the environment's.
  pub record UpstreamResponse : Type 0 where
    pub size_hint : Option ℕ
    pub status : ℕ
    pub content_type : MimeApi.Mime env.mime
    pub last_modified : HttpApi.HttpDate env.http

  -- What one attempt finds outside: the stored information, the upstream, and the time.
  pub record World : Type 0 where
    pub ping_info : Option (PingStore env.url)
    pub get : UrlApi.Url env.url → Result RawResponse (Unit {0})
    pub now : SystemTime

  unfoldable pub any_strong_eq : EntityTag → List EntityTag → Bool
  any_strong_eq tag [] = false
  any_strong_eq tag (x ∷ xs) = HttpApi.strong_eq env.http tag x || any_strong_eq tag xs

  unfoldable pub is_browser_cached : Option (IfNoneMatch env.http) → EntityTag → Bool
  is_browser_cached (some (items xs)) tag = any_strong_eq tag xs
  is_browser_cached _ tag = false

  unfoldable pub handle_cache_hit :
      HttpRequest env.http → ImageEntry → GlobalState env → HttpResponse × GlobalState env
  handle_cache_hit req image gs =
      let tag = HttpApi.strong env.http (get_checksum_hex env.hex_encode image) in
      let headers : List Header =
        content_type (get_mime env.mime image)
        ∷ etag tag
        ∷ other (codes "Vary") (codes "Accept-Encoding")
        ∷ [] in
      if is_browser_cached req.if_none_match tag
      then (record { status = 304; headers = headers; body = empty }, gs)
      else (
        record { status = 200; headers = headers; body = bytes image.bytes },
        record gs {
          metrics = record gs.metrics { bytes_up = gs.metrics.bytes_up + length image.bytes };
        },
      )

  unfoldable upstream_response : SystemTime → RawResponse → UpstreamResponse
  upstream_response now res = record {
    size_hint = res.content_length;
    status = res.status;
    content_type =
        Option.get_or (header_value (MimeApi.from_str env.mime) res.content_type)
          (MimeApi.image_png env.mime);
    last_modified =
        Option.get_or (header_value (HttpApi.date_from_str env.http) res.last_modified)
          (HttpApi.date_from_time env.http now);
  }

  unfoldable pub start_poll_upstream : ImageKey → World → Result UpstreamResponse PollError
  unfolding upstream_response
  start_poll_upstream key world = elim world.ping_info [
    | none ↦ err no_upstream
    | some info ↦ elim (UrlApi.parse_with_base env.url info.upstream_url (Key.to_string key)) [
      | err _ ↦ err bad_url
      | ok url ↦ elim (world.get url) [
        | err _ ↦ err request_failed
        | ok res ↦ ok (upstream_response world.now res)
      ]
    ]
  ]

  abbrev pub failed : GlobalState env → GlobalState env
  failed gs = record gs {
    metrics = record gs.metrics { failed_requests_total = gs.metrics.failed_requests_total + 1 };
  }

  -- The part of `handle_cache_miss` after the upstream was polled.
  unfoldable pub respond :
      ImageKey
      → Result UpstreamResponse PollError
      → GlobalState env
      → HttpResponse × GlobalState env
  respond key (err e) gs = (
    record { status = 502; headers = []; body = text (codes "unexpected upstream response") },
    failed gs,
  )
  respond key (ok res) gs =
      if res.status == 200
      then (
        record {
          status = 200;
          headers = content_type res.content_type ∷ last_modified res.last_modified ∷ [];
          body = streaming (Chunked.new env key res.content_type (Option.get_or res.size_hint 0));
        },
        gs,
      )
      else if res.status == 404
      then (record { status = 404; headers = []; body = empty }, gs)
      else (
        record {
          status = 502;
          headers = [];
          body =
              text
                (codes "invalid upstream status code: " ++ HttpApi.show_status env.http res.status);
        },
        failed gs,
      )

  abbrev pub observed_ttfb : GlobalState env → GlobalState env
  observed_ttfb gs = record gs {
    metrics = record gs.metrics { upstream_ttfb_seconds = gs.metrics.upstream_ttfb_seconds + 1 };
  }

  unfoldable pub handle_cache_miss :
      ImageKey → (ℕ → World) → GlobalState env → Option (HttpResponse × GlobalState env)
  unfolding respond
  handle_cache_miss key worlds gs =
      Option.map (λ r. respond key r.0 (observed_ttfb gs))
        (start_poll_upstream_retry (λ n. start_poll_upstream key (worlds n)) 3)

  abbrev pub observed_load : ImageCache.Cache env.engine → GlobalState env → GlobalState env
  observed_load cache gs = record gs {
    cache = cache;
    metrics = record gs.metrics { cache_load_seconds = gs.metrics.cache_load_seconds + 1 };
  }

  abbrev pub counted_hit : HttpResponse × GlobalState env → HttpResponse × GlobalState env
  counted_hit (res, gs) = (
    res,
    record gs {
      metrics = record gs.metrics {
        hit_request_process_seconds = gs.metrics.hit_request_process_seconds + 1;
        hit_requests_total = gs.metrics.hit_requests_total + 1;
      };
    },
  )

  -- What the lookup gave decides between HIT and MISS.
  unfoldable pub respond_lookup :
      HttpRequest env.http
      → ImageKey
      → (ℕ → World)
      → Option ImageEntry
      → GlobalState env
      → Option (HttpResponse × GlobalState env)
  respond_lookup req key worlds (some image) gs = some (counted_hit (handle_cache_hit req image gs))
  respond_lookup req key worlds none gs = handle_cache_miss key worlds gs

  unfoldable pub response_from_cache :
      HttpRequest env.http
      → ImageKey
      → (ℕ → World)
      → GlobalState env
      → Option (HttpResponse × GlobalState env)
  unfolding respond_lookup
  response_from_cache req key worlds gs =
      let (cache_hit, cache') = ImageCache.load env.engine key gs.cache in
      respond_lookup req key worlds cache_hit (observed_load cache' gs)
