-- ===== src/App/Main.antt =====
-- src/main.rs, `main`: the handler of the kill signal, the runtime, and the program in it. A `usize`
-- has 64 bits.
pub mod Ends
mod Tests
use scalpel.Common.{
  ℕ, ◌+◌, ◌-◌, ◌*◌, Str, Bool, true, false, List, [], ◌∷◌, codes, Result, ok, err, Outcome, returns,
  panics, Option, none, some, ◌&&◌, ◌==◌, leb, ltb, if◌then◌else◌,
}
use scalpel.Utils.{Package, u64_mod}
use scalpel.Config.{AppConfig, FsConfig, RocksConfig}
use scalpel.Backend.{PingRequest, PingResponse, UrlApi, Reply}
use scalpel.Cache.Api.{ImageCache}
use scalpel.State.{Env, GlobalState}
use scalpel.Http.Acceptor.{OpenSsl}
use scalpel.Http.Lifecycle.{ActixApi}
use scalpel.App.Start
use scalpel.App.Run.{F64, Turn}
use scalpel.App.Run.Program.{Ending, died, run}

-- `str::parse` for a `usize`: a sign `+` and digits.
unfoldable pub parse_digits : Str → ℕ → Option ℕ
parse_digits [] value = some value
parse_digits (c ∷ rest) value =
    let next = value * 10 + (c - 48) in
    let parsed = parse_digits rest next in
    if leb 48 c && leb c 57 && ltb next u64_mod then parsed else none

unfoldable pub parse_number : Str → Option ℕ
unfolding parse_digits
parse_number [] = none
parse_number (c ∷ rest) = parse_digits (c ∷ rest) 0

unfoldable pub parse_usize : Str → Option ℕ
unfolding parse_number
parse_usize [] = none
parse_usize (c ∷ rest) = if c == 43 then parse_number rest else parse_number (c ∷ rest)

-- `unwrap_or_else` on the variable
abbrev pub or_default : Option Str → Str
or_default (some var) = var
or_default none = codes "512"

-- The number of blocking threads, from the variable `TOKIO_MAX_BLOCKING_THREADS`.
unfoldable pub max_blocking_threads : Option Str → Outcome ℕ
unfolding parse_usize
max_blocking_threads var = elim (parse_usize (or_default var)) [
  | none ↦ panics
  | some max_bt ↦ returns max_bt
]

module _ (env : Env) (float : F64) (pkg : Package) (ssl : OpenSsl) (actix : ActixApi ssl) where
  -- What starts before the program's own code: the handler of the signal, the runtime with its number
  -- of threads, and the crypto library.
  pub record Boot : Type 0 where
    pub set_handler : Result (Unit {0}) (Unit {0})
    pub max_bt_var : Option Str
    pub build_runtime : ℕ → Result (Unit {0}) (Unit {0})
    pub sodium_init : Result (Unit {0}) (Unit {0})

  -- `expect` on a result, and what goes on after code that may have panicked.
  unfoldable pub expect :
      Result (Unit {0}) (Unit {0})
      → Option (Ending env float pkg ssl actix)
      → Option (Ending env float pkg ssl actix)
  expect (err _) next = some died
  expect (ok _) next = next

  unfoldable pub after_code :
      {A : Type 0}
      → Outcome A
      → (A → Option (Ending env float pkg ssl actix))
      → Option (Ending env float pkg ssl actix)
  after_code panics next = some died
  after_code (returns a) next = next a

  -- `next` on the state that `init` made, in the runtime.
  unfoldable pub booted :
      Boot
      → Outcome (GlobalState env)
      → (GlobalState env → Option (Ending env float pkg ssl actix))
      → Option (Ending env float pkg ssl actix)
  unfolding expect after_code
  booted boot made next = expect boot.set_handler (
      after_code (max_blocking_threads boot.max_bt_var) (λ max_bt.
        expect (boot.build_runtime max_bt) (expect boot.sodium_init (after_code made next))))

  module _ (killed : ℕ → Bool) (turns : ℕ → Turn env float pkg ssl actix)
      (send_stop : UrlApi.Url env.url → Str → Result (Reply (Unit {0})) (Unit {0}))
      (requests elapsed : ℕ → ℕ) {E F : Type 0}
      (open_fs : FsConfig → Result (ImageCache.Cache env.engine) E)
      (open_rocks : RocksConfig → Result (ImageCache.Cache env.engine) F) where
    unfoldable pub main :
        Boot
        → Option AppConfig
        → ℕ
        → ℕ
        → ℕ × ℕ
        → (UrlApi.Url env.url → PingRequest → Result (Reply PingResponse) (Unit {0}))
        → ActixApi.Net actix
        → Option (Ending env float pkg ssl actix)
    unfolding booted
    main boot config loop_fuel wait_fuel start send net =
        booted boot (Start.init env open_fs open_rocks config) (
          run env float pkg ssl actix killed turns send_stop requests elapsed loop_fuel wait_fuel
            start send net)
