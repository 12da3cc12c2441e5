-- ===== src/Http/Handler/Hit.antt =====
-- src/http/handler.rs: the answer to a HIT.
use scalpel.Common.{
  ℕ, ◌+◌, true, false, List, [], ◌∷◌, ◌++◌, length, Option, none, some, ◌≡◌, refl, ◌⊎◌, inl, inr,
  arith, Bool-cases, bytes_eq_refl, Any, Any-middle, codes, ◌∙◌,
}
use scalpel.Cache.Key.{ImageKey}
use scalpel.Cache.Entry.{ImageEntry, get_checksum_hex, get_mime}
use scalpel.Cache.Api.{ImageCache}
use scalpel.Http.Api.{HttpApi, IfNoneMatch, any, items, HttpRequest}
use scalpel.State.{Env, GlobalState}
use scalpel.Http.Handler.{
  HttpResponse, content_type, etag, other, empty, bytes, any_strong_eq, is_browser_cached,
  handle_cache_hit, counted_hit, observed_load, response_from_cache, World,
}

module _ (env : Env) where
  -- The strong entity tag of an image.
  abbrev pub tag_of : ImageEntry → HttpApi.EntityTag env.http
  tag_of image = HttpApi.strong env.http (get_checksum_hex env.hex_encode image)

  -- The request lists the image's tag.
  abbrev pub HasTag : HttpRequest env.http → ImageEntry → Type 0
  HasTag req image =
      (xs : List (HttpApi.EntityTag env.http)) × (req.if_none_match ≡ some (items xs))
      × Any (λ x. HttpApi.strong_eq env.http (tag_of image) x ≡ true) xs

  Any-any_strong_eq :
      (tag : HttpApi.EntityTag env.http) (xs : List (HttpApi.EntityTag env.http))
      → any_strong_eq env tag xs ≡ true
      → Any (λ x. HttpApi.strong_eq env.http tag x ≡ true) xs
  unfolding any_strong_eq
  Any-any_strong_eq tag [] h = cc
  Any-any_strong_eq tag (x ∷ xs) h = elim (Bool-cases (HttpApi.strong_eq env.http tag x)) [
    | inl same ↦ inl same
    | inr differ ↦ inr (Any-any_strong_eq tag xs (rw differ at h))
  ]

  any_strong_eq-Any :
      (tag : HttpApi.EntityTag env.http) (xs : List (HttpApi.EntityTag env.http))
      → Any (λ x. HttpApi.strong_eq env.http tag x ≡ true) xs
      → any_strong_eq env tag xs ≡ true
  unfolding any_strong_eq
  any_strong_eq-Any tag (x ∷ xs) (inl same) = rw same
  any_strong_eq-Any tag (x ∷ xs) (inr later) = ground (arith, any_strong_eq-Any tag xs later)
  any_strong_eq-Any tag [] h = absurd h

  cached_of_HasTag :
      (req : HttpRequest env.http) (image : ImageEntry)
      → HasTag req image
      → is_browser_cached env req.if_none_match (tag_of image) ≡ true
  unfolding is_browser_cached
  cached_of_HasTag req image (xs, listed, found) = rw listed (any_strong_eq-Any _ xs found)

  HasTag-is_browser_cached :
      (image : ImageEntry) (header : Option (IfNoneMatch env.http))
      → is_browser_cached env header (tag_of image) ≡ true
      → HasTag (record { if_none_match = header }) image
  unfolding is_browser_cached
  HasTag-is_browser_cached image (some (items xs)) h = (xs, refl, Any-any_strong_eq _ xs h)
  HasTag-is_browser_cached image (some any) h = cc
  HasTag-is_browser_cached image none h = cc

  pub HasTag-dec :
      (req : HttpRequest env.http) (image : ImageEntry) → HasTag req image ⊎ (¬ HasTag req image)
  HasTag-dec req image =
      elim (Bool-cases (is_browser_cached env req.if_none_match (tag_of image))) [
        | inl has ↦ inl (HasTag-is_browser_cached image req.if_none_match has)
        | inr lacks ↦ inr (λ has. cc (cached_of_HasTag req image has))
      ]

  uncached :
      (req : HttpRequest env.http) (image : ImageEntry)
      → ¬ HasTag req image
      → is_browser_cached env req.if_none_match (tag_of image) ≡ false
  uncached req image lacks =
      elim (Bool-cases (is_browser_cached env req.if_none_match (tag_of image))) [
        | inl has ↦ absurd (lacks (HasTag-is_browser_cached image req.if_none_match has))
        | inr no_tag ↦ no_tag
      ]

  -- The answer to a HIT: headers from the image; no body if the client has the tag, and the
  -- image's bytes, which are counted, if not. Nothing else of the shared state changes.
  pub record IsHit (req : HttpRequest env.http) (image : ImageEntry) (gs : GlobalState env)
      (cache : ImageCache.Cache env.engine) (res : HttpResponse env) (gs' : GlobalState env)
      : Type 0 where
    pub answered :
        (HasTag req image
          × (res.status ≡ 304)
          × (res.body ≡ empty)
          × (gs'.metrics.bytes_up ≡ gs.metrics.bytes_up))
        ⊎ ((¬ HasTag req image)
            × (res.status ≡ 200)
            × (res.body ≡ bytes image.bytes)
            × (gs'.metrics.bytes_up ≡ gs.metrics.bytes_up + length image.bytes))
    pub typed :
        res.headers
        ≡ content_type (get_mime env.mime image)
          ∷ etag (tag_of image)
          ∷ other (codes "Vary") (codes "Accept-Encoding")
          ∷ []
    pub shared : gs' ≡ record gs {
      cache = cache;
      metrics = record gs.metrics {
        bytes_up = gs'.metrics.bytes_up;
        cache_load_seconds = gs.metrics.cache_load_seconds + 1;
        hit_request_process_seconds = gs.metrics.hit_request_process_seconds + 1;
        hit_requests_total = gs.metrics.hit_requests_total + 1;
      };
    }

  pub not_modified :
      {req : HttpRequest env.http} {image : ImageEntry} {gs : GlobalState env}
      {cache : ImageCache.Cache env.engine} {res : HttpResponse env} {gs' : GlobalState env}
      → IsHit req image gs cache res gs'
      → HasTag req image
      → (res.status ≡ 304) × (res.body ≡ empty) × (gs'.metrics.bytes_up ≡ gs.metrics.bytes_up)
  not_modified hit has = elim hit.answered [
    | inl (_, a, b, c) ↦ (a, b, c)
    | inr (lacks, _, _, _) ↦ absurd (lacks has)
  ]

  pub sent :
      {req : HttpRequest env.http} {image : ImageEntry} {gs : GlobalState env}
      {cache : ImageCache.Cache env.engine} {res : HttpResponse env} {gs' : GlobalState env}
      → IsHit req image gs cache res gs'
      → ¬ HasTag req image
      → (res.status ≡ 200)
        × (res.body ≡ bytes image.bytes)
        × (gs'.metrics.bytes_up ≡ gs.metrics.bytes_up + length image.bytes)
  sent hit lacks = elim hit.answered [
    | inl (has, _, _, _) ↦ absurd (lacks has)
    | inr (_, a, b, c) ↦ (a, b, c)
  ]

  -- If the cache has the image, the request is answered as a HIT, whatever the upstream would do:
  -- with 304 and no body if `If-None-Match` lists the image's tag, and otherwise with 200 and the
  -- image's bytes, which are counted as sent; with the image's type and tag as headers; and the HIT,
  -- its duration and that of the lookup are all that is counted besides.
  pub response_from_cache-IsHit :
      (req : HttpRequest env.http) (key : ImageKey) (worlds : ℕ → World env) (gs : GlobalState env)
      {image : ImageEntry} {cache : ImageCache.Cache env.engine}
      → ImageCache.load env.engine key gs.cache ≡ (some image, cache)
      → (res : HttpResponse env) × (gs' : GlobalState env) × (response_from_cache env req key worlds
            gs
          ≡ some (res, gs'))
        × IsHit req image gs cache res gs'
  unfolding response_from_cache handle_cache_hit
  response_from_cache-IsHit req key worlds gs {image} {cache} h =
      let r = counted_hit env (handle_cache_hit env req image (observed_load env cache gs)) in
      (
        r.0,
        r.1,
        rw h,
        record {
          answered = elim (HasTag-dec req image) [
            | inl has ↦ rw (cached_of_HasTag req image has) (inl (has, refl, refl, refl))
            | inr lacks ↦ rw (uncached req image lacks) (inr (lacks, refl, refl, refl))
          ];
          typed = elim (Bool-cases (is_browser_cached env req.if_none_match (tag_of image))) [
            | inl has ↦ rw has
            | inr lacks ↦ rw lacks
          ];
          shared = elim (Bool-cases (is_browser_cached env req.if_none_match (tag_of image))) [
            | inl has ↦ rw has
            | inr lacks ↦ rw lacks
          ];
        },
      )

  -- A client that lists the tag of an earlier HIT of the same image anywhere in `If-None-Match` is
  -- told that nothing changed, and no byte of the image is sent or counted.
  pub response_from_cache_revalidated :
      (key : ImageKey) (worlds : ℕ → World env) (gs : GlobalState env)
      (xs ys : List (HttpApi.EntityTag env.http)) {image : ImageEntry}
      {cache : ImageCache.Cache env.engine}
      → ImageCache.load env.engine key gs.cache ≡ (some image, cache)
      → (res : HttpResponse env) × (gs' : GlobalState env) × (response_from_cache env
            (record { if_none_match = some (items (xs ++ tag_of image ∷ ys)) })
            key
            worlds
            gs
          ≡ some (res, gs'))
        × (res.status ≡ 304)
        × (res.body ≡ empty)
        × (gs'.metrics.bytes_up ≡ gs.metrics.bytes_up)
  response_from_cache_revalidated key worlds gs xs ys {image} h =
      let req : HttpRequest env.http = record {
        if_none_match = some (items (xs ++ tag_of image ∷ ys));
      } in
      let (res, gs', run, hit) = response_from_cache-IsHit req key worlds gs h in
      let tag = get_checksum_hex env.hex_encode image in
      let same = HttpApi.strong_eq-strong env.http tag tag ∙ bytes_eq_refl tag in
      let (status, body, sent) = not_modified hit (_, refl, Any-middle _ xs ys same) in
      (res, gs', run, status, body, sent)
