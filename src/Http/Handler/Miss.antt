-- ===== src/Http/Handler/Miss.antt =====
-- src/http/handler.rs: the answer to a MISS, and how requests are counted to their end.
use scalpel.Common.{
  ℕ, ◌+◌, [], ◌∷◌, ◌++◌, codes, Result, ok, err, none, some, ◌==◌, if◌then◌else◌, ◌≡◌, ◌≢◌, refl,
  inl, inr, arith, Bool-cases,
}
use mathlib.Core.Option
use scalpel.Cache.Key.{ImageKey}
use scalpel.Cache.Api.{ImageCache}
use scalpel.Http.Api.{HttpApi, HttpRequest}
use scalpel.State.{Env, GlobalState}
use scalpel.Http.Chunked
use scalpel.Http.Chunked.{ChunkedUpstreamPoll, Answer, poll_all, drop}
use scalpel.Http.Handler.{
  HttpResponse, content_type, last_modified, empty, text, streaming, UpstreamResponse, PollError,
  World, respond, start_poll_upstream, handle_cache_miss, response_from_cache, observed_load,
  observed_ttfb,
}
use scalpel.Http.Handler.Retry.{IsFirstSuccess, start_poll_upstream_retry-IsFirstSuccess}

module _ (env : Env) where
  -- The answer that the outcome of polling the upstream calls for.
  pub data Answers (key : ImageKey) (res : HttpResponse env)
      : Result (UpstreamResponse env) PollError → Type 0 where
    unreachable :
        (e : PollError)
        → res.status ≡ 502
        → res.body ≡ text (codes "unexpected upstream response")
        → Answers key res (err e)
    not_found :
        (up : UpstreamResponse env)
        → up.status ≡ 404
        → res.status ≡ 404
        → res.body ≡ empty
        → Answers key res (ok up)
    refused :
        (up : UpstreamResponse env)
        → up.status ≢ 200
        → up.status ≢ 404
        → res.status ≡ 502
        → res.body
          ≡ text (codes "invalid upstream status code: " ++ HttpApi.show_status env.http up.status)
        → Answers key res (ok up)
    proxied :
        (up : UpstreamResponse env)
        → up.status ≡ 200
        → res.status ≡ 200
        → res.headers ≡ content_type up.content_type ∷ last_modified up.last_modified ∷ []
        → res.body ≡ streaming (Chunked.new env key up.content_type (Option.get_or up.size_hint 0))
        → Answers key res (ok up)

  respond-Answers :
      (key : ImageKey) (outcome : Result (UpstreamResponse env) PollError) (gs : GlobalState env)
      → Answers key (respond env key outcome gs).0 outcome
  unfolding respond
  respond-Answers key (err e) gs = unreachable e refl refl
  respond-Answers key (ok up) gs = elim (Bool-cases (up.status == 200)) [
    | inl good ↦ proxied up (ground arith) (rw good refl) (rw good refl) (rw good refl)
    | inr bad ↦ elim (Bool-cases (up.status == 404)) [
      | inl missing ↦ not_found up (ground arith) (rw (bad, missing) refl) (rw (bad, missing) refl)
      | inr other ↦
          refused up (ground arith) (ground arith) (rw (bad, other) refl) (rw (bad, other) refl)
    ]
  ]

  -- `failed_requests_total` grows by one exactly at a 502; the time to the first byte is observed.
  abbrev pub after_miss :
      ImageCache.Cache env.engine → HttpResponse env → GlobalState env → GlobalState env
  after_miss cache res gs = record gs {
    cache = cache;
    metrics = record gs.metrics {
      cache_load_seconds = gs.metrics.cache_load_seconds + 1;
      upstream_ttfb_seconds = gs.metrics.upstream_ttfb_seconds + 1;
      failed_requests_total =
          gs.metrics.failed_requests_total + (if res.status == 502 then 1 else 0);
    };
  }

  respond-after_miss :
      (key : ImageKey) (outcome : Result (UpstreamResponse env) PollError) (gs : GlobalState env)
      (cache : ImageCache.Cache env.engine)
      → (respond env key outcome (observed_ttfb env (observed_load env cache gs))).1
        ≡ after_miss cache
            (respond env key outcome (observed_ttfb env (observed_load env cache gs))).0
            gs
  unfolding respond
  respond-after_miss key (err e) gs cache = refl
  respond-after_miss key (ok up) gs cache = ground arith

  -- A MISS: the first success among at most three polls, or the third failure, decides the answer.
  pub record IsMiss (key : ImageKey) (worlds : ℕ → World env) (gs : GlobalState env)
      (cache : ImageCache.Cache env.engine) (res : HttpResponse env) (gs' : GlobalState env)
      : Type 0 where
    pub outcome : Result (UpstreamResponse env) PollError
    pub polls : ℕ
    pub polled : IsFirstSuccess (λ n. start_poll_upstream env key (worlds n)) 3 outcome polls
    pub answered : Answers key res outcome
    pub counted : gs' ≡ after_miss cache res gs

  -- If the cache has no image the request is always answered, as a MISS: the first success among at
  -- most three polls of the upstream, or the third failure, decides. An upstream 200 is passed on
  -- with its type and date and a streamed body, a 404 is passed on without one, and everything else
  -- is a 502. The lookup, the time to the first byte, and a failure exactly at a 502 are counted.
  pub response_from_cache-IsMiss :
      (req : HttpRequest env.http) (key : ImageKey) (worlds : ℕ → World env) (gs : GlobalState env)
      {cache : ImageCache.Cache env.engine}
      → ImageCache.load env.engine key gs.cache ≡ (none, cache)
      → (res : HttpResponse env) × (gs' : GlobalState env) × (response_from_cache env req key worlds
            gs
          ≡ some (res, gs'))
        × IsMiss key worlds gs cache res gs'
  unfolding response_from_cache handle_cache_miss
  response_from_cache-IsMiss req key worlds gs {cache} h =
      let (outcome, polls, run, polled) =
        start_poll_upstream_retry-IsFirstSuccess (λ n. start_poll_upstream env key (worlds n)) 3 in
      let r = respond env key outcome (observed_ttfb env (observed_load env cache gs)) in
      (
        r.0,
        r.1,
        rw (h, run),
        record {
          outcome = outcome;
          polls = polls;
          polled = polled;
          answered = respond-Answers key outcome (observed_ttfb env (observed_load env cache gs));
          counted = respond-after_miss key outcome gs cache;
        },
      )
