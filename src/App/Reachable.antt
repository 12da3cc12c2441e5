-- ===== src/App/Reachable.antt =====
-- src/main.rs and src/http: the states that the running program can be in, by its steps.
use scalpel.Common.{
  ℕ, List, Result, err, Outcome, returns, panics, Option, none, some, ◌≡◌, ◌≢◌, refl, sym, subst,
  inl, inr, ltb, Bool-cases, ◌⊎◌,
}
use scalpel.Config.{AppConfig, FsConfig, RocksConfig}
use scalpel.Utils.{SystemTime}
use scalpel.Cache.Api.{ImageCache}
use scalpel.Tokens.{TokenError, TokenVerifier, push_key_b64, verify_url_token}
use scalpel.Tokens
use scalpel.Backend.{TlsPayload, PingRequest, PingResponse, UrlApi, Reply}
use scalpel.State.{Env, SaveTask, GlobalState}
use scalpel.Http.Api.{HttpRequest}
use scalpel.Http.Chunked.{Answer, run_task}
use scalpel.Http.Handler.{HttpResponse, Body, World}
use scalpel.Http.Handler.Count.{settle}
use scalpel.Http.Service.{MdPathArgs, ServiceError, md_service}
use scalpel.App.{AppError, key_error, ping_backend}
use scalpel.App.Verifier.{returns_value, Matches, InStep, ping_backend-Kept}
use scalpel.App.Run.{F64, try_shrink_db}
use scalpel.App.Keeps.{
  IsSame, md_service-IsSame, settle-IsSame, run_task-IsSame, try_shrink_db-IsSame,
}
use scalpel.App.Start
use scalpel.App.Start.{create_dyn_cache}

module _ (env : Env) where
  -- The steps of the main thread, of the workers that answer requests, and of spawned tasks, in any
  -- order. A ping whose token key is refused is left out.
  pub data Reachable : GlobalState env → Type 1 where
    started :
        {E F : Type 0} (open_fs : FsConfig → Result (ImageCache.Cache env.engine) E)
        (open_rocks : RocksConfig → Result (ImageCache.Cache env.engine) F)
        (config : Option AppConfig) (gs : GlobalState env)
        → Start.init env open_fs open_rocks config ≡ returns gs
        → Reachable gs
    pinged :
        (gs : GlobalState env)
        (send : UrlApi.Url env.url → PingRequest → Result (Reply PingResponse) (Unit {0}))
        (r : Result (Option TlsPayload) AppError) (gs' : GlobalState env)
        → Reachable gs
        → ping_backend env send gs ≡ returns (r, gs')
        → ((e : TokenError) → r ≢ err (key_error e))
        → Reachable gs'
    requested :
        (gs : GlobalState env) (now : ℕ) (req : HttpRequest env.http) (path : MdPathArgs)
        (worlds : ℕ → World env) (r : Result (HttpResponse env) ServiceError)
        (gs' : GlobalState env)
        → Reachable gs
        → md_service env now req path worlds gs ≡ some (r, gs')
        → Reachable gs'
    body_dropped :
        {E : Type 0} (gs : GlobalState env) (body : Body env) (answers : List (Answer E))
        → Reachable gs
        → Reachable (settle env body answers gs)
    task_run :
        (gs : GlobalState env) (now : SystemTime) (task : SaveTask env)
        → Reachable gs
        → Reachable (run_task env now task gs)
    shrunk :
        (gs : GlobalState env) (float : F64) (report_clock shrink_clock : ℕ → SystemTime)
        (gs' : GlobalState env)
        → Reachable gs
        → try_shrink_db env float report_clock shrink_clock gs ≡ some gs'
        → Reachable gs'

  InStep-new :
      {E F : Type 0} (open_fs : FsConfig → Result (ImageCache.Cache env.engine) E)
      (open_rocks : RocksConfig → Result (ImageCache.Cache env.engine) F) (config : AppConfig)
      (gs : GlobalState env)
      → Start.new env open_fs open_rocks config ≡ returns gs
      → InStep env gs
  unfolding Start.new Tokens.new
  InStep-new open_fs open_rocks config gs h =
      go (create_dyn_cache env open_fs open_rocks config) refl
    where
      go :
          (o : Outcome (ImageCache.Cache env.engine))
          → create_dyn_cache env open_fs open_rocks config ≡ o
          → InStep env gs
      go panics e = absurd (cc (rw (e, Start.new) at h))
      go (returns cache) e = subst (InStep env) (returns_value env (rw (e, Start.new) at h)) refl

  InStep-IsSame : (gs gs' : GlobalState env) → IsSame env gs gs' → InStep env gs → InStep env gs'
  InStep-IsSame gs gs' (v, p) m =
      subst (Matches env gs'.ping_info) (sym v) (subst (λ o. Matches env o gs.verifier) (sym p) m)

  InStep-init :
      {E F : Type 0} (open_fs : FsConfig → Result (ImageCache.Cache env.engine) E)
      (open_rocks : RocksConfig → Result (ImageCache.Cache env.engine) F)
      (config : Option AppConfig) (gs : GlobalState env)
      → Start.init env open_fs open_rocks config ≡ returns gs
      → InStep env gs
  unfolding Start.init
  InStep-init open_fs open_rocks none gs h = absurd (cc h)
  InStep-init open_fs open_rocks (some config) gs h =
      elim (Bool-cases (ltb config.cache_size_mebibytes 40960)) [
        | inl small ↦ absurd (cc (rw (small, Start.init) at h))
        | inr large ↦ InStep-new open_fs open_rocks config gs (rw (large, Start.init) at h)
      ]

  InStep-pinged :
      (r : Result (Option TlsPayload) AppError) (gs' : GlobalState env)
      → ((e : TokenError) → r ≢ err (key_error e))
      → (InStep env gs' ⊎ ((e : TokenError) × (r ≡ err (key_error e))))
      → InStep env gs'
  InStep-pinged r gs' fine (inl m) = m
  InStep-pinged r gs' fine (inr (e, refused)) = absurd (fine e refused)

  -- In every state that the program reaches, whatever the order of pings, requests, ends of
  -- bodies, saves and evictions, the verifier has exactly the token key of the last ping that was
  -- stored, or none before the first ping; pings whose key is refused are left out.
  pub Reachable-InStep : (gs : GlobalState env) → Reachable gs → InStep env gs
  Reachable-InStep gs (started open_fs open_rocks config _ h) =
      InStep-init open_fs open_rocks config gs h
  Reachable-InStep gs' (pinged gs send r _ before h fine) =
      InStep-pinged r gs' fine (ping_backend-Kept env send gs (Reachable-InStep gs before) h)
  Reachable-InStep gs' (requested gs now req path worlds r _ before h) =
      InStep-IsSame gs gs' (md_service-IsSame env now req path worlds gs h)
        (Reachable-InStep gs before)
  Reachable-InStep _ (body_dropped gs body answers before) =
      InStep-IsSame gs (settle env body answers gs) (settle-IsSame env body answers gs)
        (Reachable-InStep gs before)
  Reachable-InStep _ (task_run gs now task before) =
      InStep-IsSame gs (run_task env now task gs) (run_task-IsSame env now task gs)
        (Reachable-InStep gs before)
  Reachable-InStep gs' (shrunk gs float report_clock shrink_clock _ before h) =
      InStep-IsSame gs gs' (try_shrink_db-IsSame env float report_clock shrink_clock gs h)
        (Reachable-InStep gs before)
