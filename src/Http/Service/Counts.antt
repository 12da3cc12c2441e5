-- ===== src/Http/Service/Counts.antt =====
-- src/http/mod.rs: every request is answered and counted once.
use scalpel.Common.{
  ℕ, ◌+◌, ◌==◌, List, Result, ok, err, some, bytes_eq, if◌then◌else◌, codes, ◌≡◌, refl, inl, inr,
  arith, Bool-cases, Result-cases,
}
use scalpel.Cache.Key
use scalpel.State.{Env, GlobalState}
use scalpel.Http.Api.{HttpRequest}
use scalpel.Http.Chunked.{Answer}
use scalpel.Http.Handler.{HttpResponse, World}
use scalpel.Http.Handler.Count.{settle, settled, response_from_cache-settled}
use scalpel.Http.Service.Guard.{response_from_cache-answers}
use scalpel.Http.Service.{
  MdPathArgs, ServiceError, invalid_archive, is_archive, dropped, check_token, counted_request,
  md_service,
}

module _ (env : Env) where
  -- The end of a request: a response is settled, an error holds no body.
  abbrev pub settle_result :
      {E : Type 0}
      → Result (HttpResponse env) ServiceError
      → List (Answer E)
      → GlobalState env
      → GlobalState env
  settle_result (ok res) answers gs = settle env res.body answers gs
  settle_result (err e) answers gs = gs

  -- The upstream's 404 is the one answer that no counter counts.
  abbrev pub counts : Result (HttpResponse env) ServiceError → ℕ
  counts (ok res) = if res.status == 404 then 0 else 1
  counts (err e) = 1

  -- Whatever the request, the service answers it with a response or an error, and by the time that
  -- the body is dropped it is counted exactly once, as a HIT, a MISS, a failure or a dropped
  -- request; only a response with status 404 is not counted.
  pub md_service-counts :
      {E : Type 0} (answers : List (Answer E)) (now : ℕ) (req : HttpRequest env.http)
      (path : MdPathArgs) (worlds : ℕ → World env) (gs : GlobalState env)
      → (r : Result (HttpResponse env) ServiceError) × (gs' : GlobalState env) × (md_service env now
            req path worlds gs
          ≡ some (r, gs'))
        × (settled env (settle_result r answers gs') ≡ settled env gs + counts r)
  unfolding md_service
  md_service-counts answers now req path worlds gs =
      elim (Bool-cases (is_archive path.archive_type)) [
        | inr other ↦ (err invalid_archive, dropped env gs, rw other refl, omega arith)
        | inl archive ↦ elim (Result-cases (check_token env now path gs)) [
          | inr (e, refused) ↦ (err e, dropped env gs, rw (archive, refused) refl, omega arith)
          | inl (_, checked) ↦
              let key =
                Key.new path.chap_hash path.image
                  (bytes_eq path.archive_type (codes "data-saver")) in
              let (res, gs', run, counted) =
                response_from_cache-settled env answers req key worlds (counted_request env gs) in
              (ok res, gs', rw (archive, checked, run) refl, counted)
        ]
      ]

  -- A request that is refused is counted as dropped, and nothing else happens: neither the cache
  -- nor the counter of requests is touched.
  pub md_service-returns-err :
      (now : ℕ) (req : HttpRequest env.http) (path : MdPathArgs) (worlds : ℕ → World env)
      (gs : GlobalState env) {e : ServiceError} {gs' : GlobalState env}
      → md_service env now req path worlds gs ≡ some (err e, gs')
      → gs' ≡ dropped env gs
  unfolding md_service
  md_service-returns-err now req path worlds gs {e} {gs'} h =
      elim (Bool-cases (is_archive path.archive_type)) [
        | inr other ↦ cc (rw (other, md_service) at h)
        | inl archive ↦ elim (Result-cases (check_token env now path gs)) [
          | inr (e, refused) ↦ cc (rw (archive, refused, md_service) at h)
          | inl (_, checked) ↦
              let key =
                Key.new path.chap_hash path.image
                  (bytes_eq path.archive_type (codes "data-saver")) in
              let (res, gs₁, run) =
                response_from_cache-answers env req key worlds (counted_request env gs) in
              absurd (cc (rw (archive, checked, md_service, run) at h))
        ]
      ]
