-- ===== src/App/Main/Ends.antt =====
-- src/main.rs, `main`: the whole program ends once the kill flag is set.
use scalpel.Common.{
  ℕ, ◌+◌, Str, Bool, Result, ok, err, Outcome, returns, panics, Option, some, ◌≡◌, ◌⊎◌,
}
use scalpel.Utils.{Package}
use scalpel.Config.{AppConfig, FsConfig, RocksConfig}
use scalpel.Backend.{PingRequest, PingResponse, UrlApi, Reply}
use scalpel.Cache.Api.{ImageCache}
use scalpel.State.{Env, GlobalState}
use scalpel.Http.Acceptor.{OpenSsl}
use scalpel.Http.Lifecycle.{ActixApi}
use scalpel.App.Start
use scalpel.App.Run.{F64, Turn}
use scalpel.App.Run.Program.{Ending, died}
use scalpel.App.Run.Loop.{start_running}
use scalpel.App.Run.Program.Ends.{IsEnd}
use scalpel.App.Main.{Boot, booted, max_blocking_threads}

module _ (env : Env) (float : F64) (pkg : Package) (ssl : OpenSsl) (actix : ActixApi ssl) where
  abbrev End : Type 0
  End = Ending env float pkg ssl actix

  abbrev Booting : Type 0
  Booting = Boot env float pkg ssl actix

  -- A part of the boot fails.
  abbrev pub BootFails : Boot env float pkg ssl actix → Type 0
  BootFails boot =
      (boot.set_handler ≡ err tt)
      ⊎ (max_blocking_threads boot.max_bt_var ≡ panics)
      ⊎ ((n : ℕ) × (max_blocking_threads boot.max_bt_var ≡ returns n)
          × (boot.build_runtime n ≡ err tt))
      ⊎ (boot.sodium_init ≡ err tt)

  -- All of it succeeds.
  abbrev pub Boots : Boot env float pkg ssl actix → Type 0
  Boots boot =
      (boot.set_handler ≡ ok tt)
      × ((n : ℕ) × (max_blocking_threads boot.max_bt_var ≡ returns n)
          × (boot.build_runtime n ≡ ok tt))
      × (boot.sodium_init ≡ ok tt)

  module _ (boot : Boot env float pkg ssl actix) (next : GlobalState env → Option End) where
    abbrev Cases : Outcome (GlobalState env) → Type 0
    Cases made =
        ((booted env float pkg ssl actix boot made next ≡ some died)
          × (BootFails boot ⊎ (made ≡ panics)))
        ⊎ (Boots boot
            × ((gs : GlobalState env) × (made ≡ returns gs)
                × (booted env float pkg ssl actix boot made next ≡ next gs)))

  module _ (killed : ℕ → Bool) (turns : ℕ → Turn env float pkg ssl actix)
      (send_stop : UrlApi.Url env.url → Str → Result (Reply (Unit {0})) (Unit {0}))
      (requests elapsed : ℕ → ℕ) (q : ℕ) (quiet : requests (q + 1) ≡ requests q) {E F : Type 0}
      (open_fs : FsConfig → Result (ImageCache.Cache env.engine) E)
      (open_rocks : RocksConfig → Result (ImageCache.Cache env.engine) F) where
    -- How the program comes to an end: by a panic before `run`, or as `run` does.
    abbrev pub IsOutcome :
        Boot env float pkg ssl actix
        → Option AppConfig
        → ℕ × ℕ
        → (UrlApi.Url env.url → PingRequest → Result (Reply PingResponse) (Unit {0}))
        → ActixApi.Net actix
        → Ending env float pkg ssl actix
        → Type 0
    IsOutcome boot config start send net e =
        ((e ≡ died) × (BootFails boot ⊎ (Start.init env open_fs open_rocks config ≡ panics)))
        ⊎ (Boots boot
            × ((gs : GlobalState env) × (Start.init env open_fs open_rocks config ≡ returns gs)
                × IsEnd env float pkg ssl actix send_stop requests elapsed q quiet killed turns net
                    (start_running env float pkg ssl actix start send net gs) e))
