-- ===== src/App/Run.antt =====
-- src/main.rs, `Application::run`: the main thread pings the API, restarts the server, shrinks the
-- cache, and stops. An instant is its distance in nanoseconds from one before the program's start.
pub mod Loop
pub mod Panics
pub mod Paced
pub mod Turns
pub mod Serves
pub mod Kill
pub mod Keys
pub mod Reaches
pub mod Hangs
pub mod Program
pub mod Tests
use Prim.Native.Nat.{◌/◌}
use scalpel.Common.{
  ℕ, zero, suc, ◌+◌, ◌-◌, ◌*◌, ◌%◌, Str, Bool, true, false, List, [], ◌∷◌, ◌++◌, codes, Result, ok,
  err, Outcome, returns, panics, Option, none, some, leb, if◌then◌else◌,
}
use mathlib.Core.Option
use scalpel.Metrics.{Metrics}
use scalpel.Config.{AppConfig}
use scalpel.Utils.{SystemTime, Package}
use scalpel.Cache.Api.{ImageCache}
use scalpel.Backend.{TlsPayload, PingRequest, PingResponse, UrlApi, Reply, BackendError}
use scalpel.Backend
use scalpel.State.{Env, GlobalState}
use scalpel.Http.Acceptor.{OpenSsl}
use scalpel.Http.Lifecycle.{ActixApi, HttpServerLifecycle, respawn_with_new_cert}
use scalpel.Http.Lifecycle
use scalpel.App.{AppError, ping_backend}
use scalpel.App.Shutdown.{wait_for_requests}

-- Floating point as `try_shrink_db` uses it: conversions, a literal, a product and `>`.
pub record F64 : Type 1 where
  pub Float : Type 0
  pub of_u64 : ℕ → Float
  pub literal : Str → Float
  pub mul : Float → Float → Float
  pub gt : Float → Float → Bool
  pub as_u64 : Float → ℕ
  pub as_i64 : Float → ℕ

-- What happened: the time of a ping, or of an attempt to shrink the cache.
pub data Event : Type 0 where
  pinged shrunk : ℕ → Event

-- What a stretch of the main thread comes to; `hung` is an eviction that does not end.
pub data Ran (A : Type 0) : Type 0 where
  done : A → Ran A
  panicked hung : Ran A

-- `Instant::elapsed().as_secs()`
abbrev pub secs : ℕ → ℕ → ℕ
secs now earlier = (now - earlier) / 1000000000

module _ (env : Env) (float : F64) where
  open float use {Float, of_u64, literal, mul, gt, as_u64, as_i64}

  -- `SHRINK_MULT`, `MAX_MULT`
  abbrev pub shrink_mult : F64.Float float
  shrink_mult = literal (codes "0.9")

  abbrev pub max_mult : F64.Float float
  max_mult = literal (codes "0.95")

  abbrev pub max_size : AppConfig → F64.Float float
  max_size config =
      mul (mul (of_u64 config.cache_size_mebibytes) (literal (codes "1024")))
        (literal (codes "1024"))

  -- The two gauges.
  abbrev pub gauged : F64.Float float → F64.Float float → GlobalState env → GlobalState env
  gauged db_sz max_sz gs = record gs {
    metrics = record gs.metrics { cache_size = as_i64 db_sz; cache_max_size = as_i64 max_sz };
  }

  -- What shrinking gave is only logged.
  unfoldable pub after_shrink :
      GlobalState env
      → Option (Result ℕ (Unit {0}) × ImageCache.Cache env.engine)
      → Option (GlobalState env)
  after_shrink gs none = none
  after_shrink gs (some (r, cache)) = some (record gs { cache = cache })

  -- The clock as the report reads it, and as the eviction does; `none` is an eviction that does not
  -- end.
  unfoldable pub try_shrink_db :
      (ℕ → SystemTime) → (ℕ → SystemTime) → GlobalState env → Option (GlobalState env)
  unfolding after_shrink
  try_shrink_db report_clock shrink_clock gs =
      let (reported, cache) = ImageCache.report env.engine report_clock gs.cache in
      let db_sz = of_u64 reported in
      let max_sz = max_size gs.config in
      let gs' = gauged db_sz max_sz (record gs { cache = cache }) in
      if gt db_sz (mul max_sz max_mult)
      then after_shrink gs'
          (ImageCache.shrink env.engine shrink_clock (as_u64 (mul max_sz shrink_mult)) cache)
      else some gs'

  module _ (pkg : Package) (ssl : OpenSsl) (actix : ActixApi ssl) where
    -- The variables of the loop, and what the network holds.
    pub record Running : Type 0 where
      pub gs : GlobalState env
      pub server : HttpServerLifecycle pkg ssl actix
      pub net : ActixApi.Net actix
      pub crt : TlsPayload
      pub last_ping : ℕ
      pub last_shrink : ℕ

    -- What one turn of the loop meets: what the other threads did to the shared state while it waited,
    -- the readings of the clock in their order, and the answer of the API.
    pub record Turn : Type 0 where
      pub meanwhile : GlobalState env → GlobalState env
      pub at_ping : ℕ
      pub pinged_at : ℕ
      pub send : UrlApi.Url env.url → PingRequest → Result (Reply PingResponse) (Unit {0})
      pub at_shrink : ℕ
      pub shrunk_at : ℕ
      pub report_clock : ℕ → SystemTime
      pub shrink_clock : ℕ → SystemTime

    -- `unwrap` on the restart
    unfoldable pub respawned :
        Running
        → TlsPayload
        → Result (Unit {0}) (Lifecycle.Error pkg ssl actix)
          × HttpServerLifecycle pkg ssl actix
          × ActixApi.Net actix
        → Ran Running
    respawned s new_crt (ok _, server, net) =
        done (record s { crt = new_crt; server = server; net = net })
    respawned s new_crt (err e, server, net) = panicked

    -- The `match` on the ping.
    unfoldable pub after_ping :
        Running → Outcome (Result (Option TlsPayload) AppError × GlobalState env) → Ran Running
    unfolding respawned
    after_ping s panics = panicked
    after_ping s (returns (ok (some new_crt), gs)) =
        respawned (record s { gs = gs }) new_crt
          (respawn_with_new_cert pkg ssl actix gs.config new_crt s.server s.net)
    after_ping s (returns (ok none, gs)) = done (record s { gs = gs })
    after_ping s (returns (err e, gs)) = done (record s { gs = gs })

    abbrev pub map_done : {A B : Type 0} → (A → B) → Ran A → Ran B
    map_done f (done a) = done (f a)
    map_done f panicked = panicked
    map_done f hung = hung

    unfoldable pub ping_if_due : Turn → Running → Ran (Running × List Event)
    unfolding after_ping
    ping_if_due w s =
        let due =
          map_done (λ s'. (s', pinged w.pinged_at ∷ []))
            (after_ping (record s { last_ping = w.pinged_at }) (ping_backend env w.send s.gs)) in
        if leb 60 (secs w.at_ping s.last_ping) then due else done (s, [])

    unfoldable pub shrink_done :
        Running → List Event → ℕ → Option (GlobalState env) → Ran (Running × List Event)
    shrink_done s events shrunk_at none = hung
    shrink_done s events shrunk_at (some gs) =
        done (record s { gs = gs; last_shrink = shrunk_at }, events ++ shrunk shrunk_at ∷ [])

    unfoldable pub shrink_if_due : Turn → Ran (Running × List Event) → Ran (Running × List Event)
    unfolding shrink_done
    shrink_if_due w panicked = panicked
    shrink_if_due w hung = hung
    shrink_if_due w (done (s, events)) =
        let due =
          shrink_done s events w.shrunk_at (try_shrink_db w.report_clock w.shrink_clock s.gs) in
        if leb 300 (secs w.at_shrink s.last_shrink) then due else done (s, events)

    -- One turn of the loop, from the tick of the interval on.
    unfoldable pub turn : Turn → Running → Ran (Running × List Event)
    unfolding ping_if_due shrink_if_due
    turn w s = shrink_if_due w (ping_if_due w (record s { gs = w.meanwhile s.gs }))
