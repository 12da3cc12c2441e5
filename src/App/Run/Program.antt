-- ===== src/App/Run/Program.antt =====
-- src/main.rs, `Application::run` as a whole: the start, the loop, and the shutdown.
pub mod Ends
pub mod Tests
use scalpel.Common.{ℕ, Str, Bool, List, [], Result, Option, none, some}
use mathlib.Core.Option
use scalpel.Utils.{Package}
use scalpel.Backend.{PingRequest, PingResponse, UrlApi, Reply, BackendError}
use scalpel.State.{Env, GlobalState}
use scalpel.Http.Acceptor.{OpenSsl}
use scalpel.Http.Lifecycle.{ActixApi}
use scalpel.App.Run.{F64, Event, Ran, done, panicked, hung, Running, Turn}
use scalpel.App.Run.Loop.{Started, served, unserved, failed, main_loop, start_running, shutdown}

module _ (env : Env) (float : F64) (pkg : Package) (ssl : OpenSsl) (actix : ActixApi ssl) where
  -- What a graceful shutdown gives: the answer to the stop request, the intervals waited, and what
  -- the network holds then.
  abbrev pub Stopped : Type 0
  Stopped = Result (Unit {0}) BackendError × ℕ × ActixApi.Net actix

  -- How `run` ends: it returns after a shutdown, it panics after one since no server was created, it
  -- panics at once, or an eviction goes on for ever.
  pub data Ending : Type 0 where
    finished : List Event → Stopped → Ending
    stopped_panicking : Stopped → Ending
    died stuck : Ending

  -- The kill flag as the turns read it, what the turns meet, and what the shutdown meets.
  module _ (killed : ℕ → Bool) (turns : ℕ → Turn env float pkg ssl actix)
      (send_stop : UrlApi.Url env.url → Str → Result (Reply (Unit {0})) (Unit {0}))
      (requests elapsed : ℕ → ℕ) where
    unfoldable pub after_loop :
        ℕ → Option (Ran (Running env float pkg ssl actix × List Event)) → Option Ending
    after_loop wait_fuel none = none
    after_loop wait_fuel (some panicked) = some died
    after_loop wait_fuel (some hung) = some stuck
    after_loop wait_fuel (some (done (s, events))) = Option.map (finished events) (
        shutdown env float pkg ssl actix wait_fuel send_stop requests elapsed (some s.server) s.net
          s.gs.config)

    unfoldable pub after_start : ℕ → ℕ → Started env float pkg ssl actix → Option Ending
    unfolding after_loop
    after_start loop_fuel wait_fuel failed = some died
    after_start loop_fuel wait_fuel (unserved gs net) =
        Option.map stopped_panicking
          (shutdown env float pkg ssl actix wait_fuel send_stop requests elapsed none net gs.config)
    after_start loop_fuel wait_fuel (served s) =
        after_loop wait_fuel (main_loop env float pkg ssl actix killed turns loop_fuel 0 s)

    -- `run`, with fuel for the turns of the loop and for the intervals of the wait.
    unfoldable pub run :
        ℕ
        → ℕ
        → ℕ × ℕ
        → (UrlApi.Url env.url → PingRequest → Result (Reply PingResponse) (Unit {0}))
        → ActixApi.Net actix
        → GlobalState env
        → Option Ending
    unfolding after_start
    run loop_fuel wait_fuel start send net gs =
        after_start loop_fuel wait_fuel (start_running env float pkg ssl actix start send net gs)
