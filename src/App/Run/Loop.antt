-- ===== src/App/Run/Loop.antt =====
-- src/main.rs, `Application::run`: the loop until the kill flag is seen, what precedes it and what
-- follows.
use scalpel.Common.{
  ℕ, zero, suc, ◌+◌, ◌-◌, Str, Bool, true, List, [], ◌∷◌, ◌++◌, Result, ok, err, Outcome, returns,
  panics, Option, none, some, if◌then◌else◌, ltb,
}
use scalpel.Utils.{Package}
use scalpel.Config.{AppConfig}
use scalpel.Backend.{TlsPayload, PingRequest, PingResponse, UrlApi, Reply, BackendError}
use scalpel.Backend
use scalpel.State.{Env, GlobalState}
use scalpel.Http.Acceptor.{OpenSsl}
use scalpel.Http.Lifecycle.{ActixApi, HttpServerLifecycle}
use scalpel.Http.Lifecycle
use scalpel.App.{AppError, ping_backend}
use scalpel.App.Shutdown.{wait_for_requests}
use scalpel.App.Run.{F64, Event, Ran, done, panicked, hung, Running, Turn, turn}

module _ (env : Env) (float : F64) (pkg : Package) (ssl : OpenSsl) (actix : ActixApi ssl) where
  abbrev State : Type 0
  State = Running env float pkg ssl actix

  abbrev Turns : Type 0
  Turns = Turn env float pkg ssl actix

  -- What goes on after a stretch that ended, with the events of both.
  unfoldable pub and_then_run :
      Ran (Running env float pkg ssl actix × List Event)
      → (Running env float pkg ssl actix → Ran (Running env float pkg ssl actix × List Event))
      → Ran (Running env float pkg ssl actix × List Event)
  and_then_run panicked next = panicked
  and_then_run hung next = hung
  and_then_run (done (s, events)) next = elim (next s) [
    | done (s', more) ↦ done (s', events ++ more)
    | panicked ↦ panicked
    | hung ↦ hung
  ]

  -- Some turns of the loop, one after the other.
  unfoldable pub run_turns :
      List (Turn env float pkg ssl actix)
      → Running env float pkg ssl actix
      → Ran (Running env float pkg ssl actix × List Event)
  unfolding and_then_run
  run_turns [] s = done (s, [])
  run_turns (w ∷ turns) s = and_then_run (turn env float pkg ssl actix w s) (run_turns turns)

  -- The loop from turn `n` on: `killed n` is what turn `n` reads of the kill flag, and `none` is fuel
  -- that ran out.
  unfoldable pub and_loop :
      Ran (Running env float pkg ssl actix × List Event)
      → (Running env float pkg ssl actix
          → Option (Ran (Running env float pkg ssl actix × List Event)))
      → Option (Ran (Running env float pkg ssl actix × List Event))
  and_loop panicked next = some panicked
  and_loop hung next = some hung
  and_loop (done (s, events)) next = elim (next s) [
    | some (done (s', more)) ↦ some (done (s', events ++ more))
    | some panicked ↦ some panicked
    | some hung ↦ some hung
    | none ↦ none
  ]

  module _ (killed : ℕ → Bool) (turns : ℕ → Turn env float pkg ssl actix) where
    unfoldable pub main_loop :
        ℕ
        → ℕ
        → Running env float pkg ssl actix
        → Option (Ran (Running env float pkg ssl actix × List Event))
    unfolding and_loop
    main_loop zero n s = none
    main_loop (suc fuel) n s =
        let next = and_loop (turn env float pkg ssl actix (turns n) s) (main_loop fuel (n + 1)) in
        if killed n then some (done (s, [])) else next

  -- What the start of `run` comes to: the loop can begin, or no server was created, or a panic.
  pub data Started : Type 0 where
    served : Running env float pkg ssl actix → Started
    unserved : GlobalState env → ActixApi.Net actix → Started
    failed : Started

  -- The clock is read twice after the server has been created, for `last_ping` and for `last_shrink`.
  -- The clock counts from the first instant of the platform, so a second reading below ten minutes has
  -- no instant ten minutes before it: a panic.
  unfoldable pub with_server :
      ℕ × ℕ
      → TlsPayload
      → GlobalState env
      → Result (HttpServerLifecycle pkg ssl actix) (Lifecycle.Error pkg ssl actix)
        × ActixApi.Net actix
      → Started
  with_server (pinged_at, now) crt gs (err e, net) = unserved gs net
  with_server (pinged_at, now) crt gs (ok server, net) =
      let s : Running env float pkg ssl actix = record {
        gs = gs;
        server = server;
        net = net;
        crt = crt;
        last_ping = pinged_at;
        last_shrink = now - 600000000000;
      } in
      if ltb now 600000000000 then failed else served s

  -- The first ping has to bring a certificate, with which the server is created.
  unfoldable pub with_crt :
      ℕ × ℕ
      → ActixApi.Net actix
      → Outcome (Result (Option TlsPayload) AppError × GlobalState env)
      → Started
  unfolding with_server
  with_crt start net panics = failed
  with_crt start net (returns (err e, gs)) = failed
  with_crt start net (returns (ok none, gs)) = failed
  with_crt start net (returns (ok (some crt), gs)) =
      with_server start crt gs (Lifecycle.new pkg ssl actix gs.config crt net)

  -- `run` up to its loop.
  unfoldable pub start_running :
      ℕ × ℕ
      → (UrlApi.Url env.url → PingRequest → Result (Reply PingResponse) (Unit {0}))
      → ActixApi.Net actix
      → GlobalState env
      → Started
  unfolding with_crt
  start_running start send net gs = with_crt start net (ping_backend env send gs)

  -- The server, if there is one, is stopped gracefully.
  unfoldable pub stop_server :
      Option (HttpServerLifecycle pkg ssl actix) → ActixApi.Net actix → ActixApi.Net actix
  stop_server none net = net
  stop_server (some srv) net = Lifecycle.shutdown pkg ssl actix true srv net

  -- `shutdown`: what the API answered to the stop request is only logged; `requests` and `elapsed`
  -- are read as the wait goes on.
  unfoldable pub shutdown :
      ℕ
      → (UrlApi.Url env.url → Str → Result (Reply (Unit {0})) (Unit {0}))
      → (ℕ → ℕ)
      → (ℕ → ℕ)
      → Option (HttpServerLifecycle pkg ssl actix)
      → ActixApi.Net actix
      → AppConfig
      → Option (Result (Unit {0}) BackendError × ℕ × ActixApi.Net actix)
  unfolding stop_server
  shutdown fuel send requests elapsed server net config =
      let told = Backend.stop env.url config send in
      elim (wait_for_requests config.max_grace_period requests elapsed fuel) [
        | none ↦ none
        | some waited ↦ some (told, waited, stop_server server net)
      ]
