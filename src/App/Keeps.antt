-- ===== src/App/Keeps.antt =====
-- src/http and src/main.rs, `try_shrink_db`: answering requests and shrinking the cache leave the
-- verifier and the stored ping as they are.
use scalpel.Common.{
  ℕ, Bytes, List, Result, ok, err, Option, none, some, bytes_eq, codes, ◌≡◌, refl, sym, subst,
  Bool-cases, inl, inr,
}
use scalpel.Utils.{SystemTime}
use scalpel.Cache.Key.{ImageKey}
use scalpel.Cache.Key
use scalpel.Cache.Entry.{ImageEntry}
use scalpel.Cache.Api.{ImageCache}
use scalpel.State.{Env, SaveTask, GlobalState}
use scalpel.Http.Api.{HttpRequest}
use scalpel.Http.Chunked.{
  Answer, ChunkedUpstreamPoll, poll_all, drop, run_task, finish, is_poisoned, BytesAgg, stable,
  taken, poisoned, take,
}
use scalpel.Http.Handler.{
  HttpResponse, Body, empty, bytes, text, streaming, World, response_from_cache,
}
use scalpel.Http.Handler.Hit.{response_from_cache-IsHit}
use scalpel.Http.Handler.Miss.{response_from_cache-IsMiss}
use scalpel.Http.Handler.Count.{settle}
use scalpel.Http.Service.Guard.{response_from_cache-answers}
use scalpel.Http.Service.{
  MdPathArgs, ServiceError, is_archive, check_token, counted_request, md_service, serve,
}
use scalpel.App.Run.{F64, after_shrink, try_shrink_db, gauged, max_size, max_mult}

module _ (env : Env) where
  -- The verifier and the stored ping are the same.
  abbrev pub IsSame : GlobalState env → GlobalState env → Type 0
  IsSame gs gs' = (gs'.verifier ≡ gs.verifier) × (gs'.ping_info ≡ gs.ping_info)

  IsSame-eq : (gs gs' gs'' : GlobalState env) → gs' ≡ gs'' → IsSame gs gs'' → IsSame gs gs'
  IsSame-eq gs gs' gs'' e s = subst (IsSame gs) (sym e) s

  response_from_cache-IsSame :
      (req : HttpRequest env.http) (key : ImageKey) (worlds : ℕ → World env) (gs : GlobalState env)
      {res : HttpResponse env} {gs' : GlobalState env}
      → response_from_cache env req key worlds gs ≡ some (res, gs')
      → IsSame gs gs'
  response_from_cache-IsSame req key worlds gs {res} {gs'} h =
      go (ImageCache.load env.engine key gs.cache) refl
    where
      as_run :
          {res₁ : HttpResponse env} {gs₁ : GlobalState env}
          → response_from_cache env req key worlds gs ≡ some (res₁, gs₁)
          → IsSame gs gs₁
          → IsSame gs gs'
      as_run {res₁} {gs₁} run same =
          let e : ◌≡◌ {A = HttpResponse env × GlobalState env} (res₁, gs₁) (res, gs') =
            cc (run, h) in
          subst (λ p. IsSame gs p.1) e same

      go :
          (found : Option ImageEntry × ImageCache.Cache env.engine)
          → ImageCache.load env.engine key gs.cache ≡ found
          → IsSame gs gs'
      go (some image, cache) e =
          let (res₁, gs₁, run, hit) = response_from_cache-IsHit env req key worlds gs e in
          as_run run (subst (IsSame gs) (sym hit.shared) (refl, refl))
      go (none, cache) e =
          let (res₁, gs₁, run, miss) = response_from_cache-IsMiss env req key worlds gs e in
          as_run run (subst (IsSame gs) (sym miss.counted) (refl, refl))

  second :
      (gs gs₁ gs' : GlobalState env) (r₁ r : Result (HttpResponse env) ServiceError)
      → ◌≡◌ {A = Option (Result (HttpResponse env) ServiceError × GlobalState env)}
          (some (r₁, gs₁))
          (some (r, gs'))
      → IsSame gs gs₁
      → IsSame gs gs'
  second gs gs₁ gs' r₁ r h same =
      let e : ◌≡◌ {A = Result (HttpResponse env) ServiceError × GlobalState env} (r₁, gs₁)
          (r, gs') =
        cc in
      subst (λ p. IsSame gs p.1) e same

  serve-IsSame :
      (checked : Result (Unit {0}) ServiceError) (req : HttpRequest env.http) (path : MdPathArgs)
      (worlds : ℕ → World env) (gs : GlobalState env) {r : Result (HttpResponse env) ServiceError}
      {gs' : GlobalState env}
      → serve env checked req path worlds gs ≡ some (r, gs')
      → IsSame gs gs'
  unfolding serve
  serve-IsSame (err e) req path worlds gs {r} {gs'} h = second gs _ gs' _ r h (refl, refl)
  serve-IsSame (ok _) req path worlds gs {r} {gs'} h =
      let key =
        Key.new path.chap_hash path.image (bytes_eq path.archive_type (codes "data-saver")) in
      let (res, gs₁, run) =
        response_from_cache-answers env req key worlds (counted_request env gs) in
      let same = response_from_cache-IsSame req key worlds (counted_request env gs) run in
      second gs _ gs' _ r (rw run at h) same

  pub md_service-IsSame :
      (now : ℕ) (req : HttpRequest env.http) (path : MdPathArgs) (worlds : ℕ → World env)
      (gs : GlobalState env) {r : Result (HttpResponse env) ServiceError} {gs' : GlobalState env}
      → md_service env now req path worlds gs ≡ some (r, gs')
      → IsSame gs gs'
  unfolding md_service
  md_service-IsSame now req path worlds gs {r} {gs'} h =
      elim (Bool-cases (is_archive path.archive_type)) [
        | inr other ↦ second gs _ gs' _ r (rw (other, md_service) at h) (refl, refl)
        | inl archive ↦
            serve-IsSame (check_token env now path gs) req path worlds gs {r = r} {gs' = gs'}
              (rw (archive, md_service) at h)
      ]

  finish-IsSame :
      (o : Option Bytes × BytesAgg) (self : ChunkedUpstreamPoll env) (gs : GlobalState env)
      → IsSame gs (finish env o self gs)
  unfolding finish is_poisoned
  finish-IsSame (none, stable b) self gs = (refl, refl)
  finish-IsSame (none, taken) self gs = (refl, refl)
  finish-IsSame (none, poisoned) self gs = (refl, refl)
  finish-IsSame (some b, agg) self gs = (refl, refl)

  pub settle-IsSame :
      {E : Type 0} (body : Body env) (answers : List (Answer E)) (gs : GlobalState env)
      → IsSame gs (settle env body answers gs)
  unfolding settle drop
  settle-IsSame empty answers gs = (refl, refl)
  settle-IsSame (bytes b) answers gs = (refl, refl)
  settle-IsSame (text t) answers gs = (refl, refl)
  settle-IsSame (streaming body) answers gs =
      let polled = (poll_all env answers body).1 in finish-IsSame (take polled.agg) polled gs

  pub run_task-IsSame :
      (now : SystemTime) (task : SaveTask env) (gs : GlobalState env)
      → IsSame gs (run_task env now task gs)
  unfolding run_task
  run_task-IsSame now task gs = (refl, refl)

  some_value : {A : Type 0} {a b : A} → ◌≡◌ {A = Option A} (some a) (some b) → a ≡ b
  some_value h = cc

  module _ (float : F64) where
    after_shrink-IsSame :
        (gs gs' : GlobalState env) (o : Option (Result ℕ (Unit {0}) × ImageCache.Cache env.engine))
        → after_shrink env float gs o ≡ some gs'
        → IsSame gs gs'
    unfolding after_shrink
    after_shrink-IsSame gs gs' none h = absurd (cc h)
    after_shrink-IsSame gs gs' (some (r, cache)) h = subst (IsSame gs) (some_value h) (refl, refl)

    pub try_shrink_db-IsSame :
        (report_clock shrink_clock : ℕ → SystemTime) (gs : GlobalState env) {gs' : GlobalState env}
        → try_shrink_db env float report_clock shrink_clock gs ≡ some gs'
        → IsSame gs gs'
    unfolding try_shrink_db
    try_shrink_db-IsSame report_clock shrink_clock gs {gs'} h =
        let (reported, cache) = ImageCache.report env.engine report_clock gs.cache in
        let db_sz = float.of_u64 reported in
        let max_sz = max_size env float gs.config in
        let large = float.gt db_sz (float.mul max_sz (max_mult env float)) in
        let gauges = gauged env float db_sz max_sz (record gs { cache = cache }) in
        elim (Bool-cases large) [
          | inl over ↦ after_shrink-IsSame gauges gs' _ (rw (over, try_shrink_db) at h)
          | inr under ↦ subst (IsSame gs) (some_value (rw (under, try_shrink_db) at h)) (refl, refl)
        ]
