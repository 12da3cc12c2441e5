-- ===== src/Http/Handler/Count.antt =====
-- src/http/handler.rs and src/http/chunked.rs: how requests are counted to their end.
use scalpel.Common.{
  ℕ, ◌+◌, List, Result, Option, none, some, ◌==◌, if◌then◌else◌, ◌≡◌, refl, inl, inr, arith,
  Bool-cases, ◌∙◌,
}
use mathlib.Core.Option
use scalpel.Cache.Key.{ImageKey}
use scalpel.Cache.Entry.{ImageEntry}
use scalpel.Cache.Api.{ImageCache}
use scalpel.Http.Api.{HttpRequest}
use scalpel.State.{Env, GlobalState}
use scalpel.Http.Chunked
use scalpel.Http.Chunked.{Answer, poll_all, drop}
use scalpel.Http.Chunked.Body.{drop-poll_all, has_error}
use scalpel.Http.Handler.{
  HttpResponse, Body, streaming, UpstreamResponse, PollError, World, response_from_cache,
}
use scalpel.Http.Handler.Hit.{not_modified, sent, HasTag-dec, IsHit, response_from_cache-IsHit}
use scalpel.Http.Handler.Miss.{
  Answers, unreachable, not_found, refused, proxied, after_miss, response_from_cache-IsMiss,
}

module _ (env : Env) where
  -- The end of a response: a streamed body is polled, as often as the server does, and dropped.
  unfoldable pub settle :
      {E : Type 0} → Body env → List (Answer E) → GlobalState env → GlobalState env
  settle (streaming body) answers gs = drop env (poll_all env answers body).1 gs
  settle _ answers gs = gs

  -- The requests that were answered so far, by the four counters of finished requests.
  abbrev pub settled : GlobalState env → ℕ
  settled gs =
      gs.metrics.hit_requests_total + gs.metrics.miss_requests_total
      + gs.metrics.failed_requests_total + gs.metrics.dropped_requests_total

  drop_counts :
      {E : Type 0} (answers : List (Answer E)) (up : UpstreamResponse env) (key : ImageKey)
      (gs : GlobalState env)
      → settled (
          drop env
            (poll_all env answers
              (Chunked.new env key up.content_type (Option.get_or up.size_hint 0))).1
            gs)
        ≡ settled gs + 1
  drop_counts answers up key gs =
      rw (drop-poll_all env answers key up.content_type (Option.get_or up.size_hint 0) gs)
        (elim (Bool-cases (has_error answers)) [
          | inl e ↦ rw e (omega arith)
          | inr e ↦ rw e (omega arith)
        ])

  settled-IsHit :
      {E : Type 0} (answers : List (Answer E)) (req : HttpRequest env.http) (image : ImageEntry)
      (gs : GlobalState env) (cache : ImageCache.Cache env.engine) (res : HttpResponse env)
      (gs' : GlobalState env)
      → IsHit env req image gs cache res gs'
      → settled (settle res.body answers gs') ≡ settled gs + (if res.status == 404 then 0 else 1)
  unfolding settle
  settled-IsHit answers req image gs cache res gs' hit = elim (HasTag-dec env req image) [
    | inl has ↦
        let (status, body, _) = not_modified env hit has in
        rw (body, status) (rw hit.shared (omega arith))
    | inr lacks ↦
        let (status, body, _) = sent env hit lacks in
        rw (body, status) (rw hit.shared (omega arith))
  ]

  settled-Answers :
      {E : Type 0} (answers : List (Answer E)) (key : ImageKey) (gs : GlobalState env)
      (cache : ImageCache.Cache env.engine) (res : HttpResponse env)
      (outcome : Result (UpstreamResponse env) PollError)
      → Answers env key res outcome
      → settled (settle res.body answers (after_miss env cache res gs))
        ≡ settled gs + (if res.status == 404 then 0 else 1)
  unfolding settle
  settled-Answers answers key gs cache res outcome (unreachable e status body) =
      rw (body, status) (omega arith)
  settled-Answers answers key gs cache res outcome (not_found up _ status body) =
      rw (body, status) (omega arith)
  settled-Answers answers key gs cache res outcome (refused up _ _ status body) =
      rw (body, status) (omega arith)
  settled-Answers answers key gs cache res outcome (proxied up _ status _ body) =
      rw (body, status) (drop_counts answers up key _ ∙ omega arith)

  -- Every request that reaches the cache is answered, and is counted exactly once by the time that
  -- its body is dropped, as a HIT, a MISS or a failure; only the upstream's 404 is not counted.
  pub response_from_cache-settled :
      {E : Type 0} (answers : List (Answer E)) (req : HttpRequest env.http) (key : ImageKey)
      (worlds : ℕ → World env) (gs : GlobalState env)
      → (res : HttpResponse env) × (gs' : GlobalState env) × (response_from_cache env req key worlds
            gs
          ≡ some (res, gs'))
        × (settled (settle res.body answers gs')
            ≡ settled gs + (if res.status == 404 then 0 else 1))
  response_from_cache-settled answers req key worlds gs =
      go (ImageCache.load env.engine key gs.cache) refl
    where
      go :
          (found : Option ImageEntry × ImageCache.Cache env.engine)
          → ImageCache.load env.engine key gs.cache ≡ found
          → (res : HttpResponse env) × (gs' : GlobalState env) × (response_from_cache env req key
                worlds gs
              ≡ some (res, gs'))
            × (settled (settle res.body answers gs')
                ≡ settled gs + (if res.status == 404 then 0 else 1))
      go (some image, cache) h =
          let (res, gs', run, hit) = response_from_cache-IsHit env req key worlds gs h in
          (res, gs', run, settled-IsHit answers req image gs cache res gs' hit)
      go (none, cache) h =
          let (res, gs', run, miss) = response_from_cache-IsMiss env req key worlds gs h in
          (
            res,
            gs',
            run,
            rw miss.counted (settled-Answers answers key gs cache res miss.outcome miss.answered),
          )
