-- ===== src/App/Run/Program/Ends.antt =====
-- src/main.rs, `Application::run`: it ends once the kill flag is set, and no server is left.
use scalpel.Common.{
  ℕ, suc, ◌+◌, Str, Bool, true, List, ◌∷◌, Result, ok, err, Outcome, returns, panics, Option, none,
  some, ◌≡◌, refl, subst, inl, inr, Bool-cases, ltb, arith, ◌⊎◌,
}
use scalpel.Common.Int.{ℤ, is_negative}
use scalpel.Utils.{Package}
use scalpel.Config.{AppConfig}
use scalpel.Backend.{TlsPayload, PingRequest, PingResponse, UrlApi, Reply, BackendError}
use scalpel.Backend
use scalpel.State.{Env, GlobalState}
use scalpel.Http.Acceptor.{OpenSsl}
use scalpel.Http.Lifecycle.{ActixApi, HttpServerLifecycle}
use scalpel.Http.Lifecycle
use scalpel.Http.Lifecycle.Listening.{OneMore, new-OneMore}
use scalpel.App.{AppError, ping_backend}
use scalpel.App.Shutdown.{
  wait_for_requests, shutdown_loop, IsWait, wait_for_requests-IsWait, wait_for_requests_quiet,
}
use scalpel.App.Run.{F64, Event, Ran, done, panicked, hung, Running, Turn}
use scalpel.App.Run.Loop.{
  Started, served, unserved, failed, run_turns, with_server, with_crt, start_running, stop_server,
  shutdown,
}
use scalpel.App.Run.Kill.{IsFirst, turns_from, main_loop-stops}
use scalpel.App.Run.Hangs.{NeverEnds, run_turns-NeverEnds}
use scalpel.App.Run.Serves.{Serves, run_turns-Serves}
use scalpel.App.Run.Program.{
  Stopped, Ending, finished, stopped_panicking, died, stuck, after_loop, after_start, run,
}

-- Whatever the grace period, the wait ends if no request comes in some interval.
wait_ends :
    (grace : ℤ) (requests elapsed : ℕ → ℕ) (q : ℕ)
    → requests (q + 1) ≡ requests q
    → (m : ℕ) × (wait_for_requests grace requests elapsed (suc q) ≡ some m)
unfolding wait_for_requests shutdown_loop
wait_ends grace requests elapsed q quiet = elim (Bool-cases (is_negative grace)) [
  | inl off ↦ (0, rw (off, wait_for_requests, shutdown_loop) refl)
  | inr on ↦
      let (m, ends, within) = wait_for_requests_quiet grace requests elapsed q on quiet in
      let one_more : q + 1 ≡ suc q = omega arith in
      (m, subst (λ fuel. wait_for_requests grace requests elapsed fuel ≡ some m) one_more ends)
]

module _ (env : Env) (float : F64) (pkg : Package) (ssl : OpenSsl) (actix : ActixApi ssl) where
  abbrev State : Type 0
  State = Running env float pkg ssl actix

  module _ (send_stop : UrlApi.Url env.url → Str → Result (Reply (Unit {0})) (Unit {0}))
      (requests elapsed : ℕ → ℕ) (q : ℕ) (quiet : requests (q + 1) ≡ requests q) where
    stopped-IsClosed :
        (server : HttpServerLifecycle pkg ssl actix) (net net₀ : ActixApi.Net actix)
        → ActixApi.listening actix net ≡ server.actix_server ∷ ActixApi.listening actix net₀
        → ActixApi.listening actix (stop_server env float pkg ssl actix (some server) net)
          ≡ ActixApi.listening actix net₀
    unfolding stop_server Lifecycle.shutdown
    stopped-IsClosed server net net₀ h =
        actix.listening-stop true server.actix_server (ActixApi.listening actix net₀) net h

    -- The server of the loop listens besides those before, or the failed start left those.
    abbrev pub Opens : ActixApi.Net actix → Started env float pkg ssl actix → Type 0
    Opens net (served s) = Serves env float pkg ssl actix (ActixApi.listening actix net) s
    Opens net (unserved gs net') = ActixApi.listening actix net' ≡ ActixApi.listening actix net
    Opens net failed = Unit

    with_server-Opens :
        (start : ℕ × ℕ) (crt : TlsPayload) (gs : GlobalState env)
        (r : Result (HttpServerLifecycle pkg ssl actix) (Lifecycle.Error pkg ssl actix)
          × ActixApi.Net actix)
        (net : ActixApi.Net actix)
        → OneMore pkg ssl actix r net
        → Opens net (with_server env float pkg ssl actix start crt gs r)
    unfolding with_server
    with_server-Opens start crt gs (err e, net') net h = h
    with_server-Opens (pinged_at, now) crt gs (ok server, net') net h =
        elim (Bool-cases (ltb now 600000000000)) [
          | inl early ↦ rw (early, with_server) tt
          | inr late ↦ rw (late, with_server) h
        ]

    with_crt-Opens :
        (start : ℕ × ℕ) (net : ActixApi.Net actix)
        (o : Outcome (Result (Option TlsPayload) AppError × GlobalState env))
        → Opens net (with_crt env float pkg ssl actix start net o)
    unfolding with_crt
    with_crt-Opens start net panics = tt
    with_crt-Opens start net (returns (err e, gs)) = tt
    with_crt-Opens start net (returns (ok none, gs)) = tt
    with_crt-Opens start net (returns (ok (some crt), gs)) =
        with_server-Opens start crt gs (Lifecycle.new pkg ssl actix gs.config crt net) net
          (new-OneMore pkg ssl actix gs.config crt net)

    -- A shutdown told the API to stop, waited for requests as long as it has to, and left exactly the
    -- servers that listened before the program.
    abbrev pub IsStopped : AppConfig → ActixApi.Net actix → Stopped env float pkg ssl actix → Type 0
    IsStopped config net (told, waited, net') =
        (told ≡ Backend.stop env.url config send_stop)
        × IsWait config.max_grace_period requests elapsed waited
        × (ActixApi.listening actix net' ≡ ActixApi.listening actix net)

    shutdown-IsStopped :
        (server : Option (HttpServerLifecycle pkg ssl actix)) (net net₀ : ActixApi.Net actix)
        (config : AppConfig)
        → ActixApi.listening actix (stop_server env float pkg ssl actix server net)
          ≡ ActixApi.listening actix net₀
        → (stopped : Stopped env float pkg ssl actix) × (shutdown env float pkg ssl actix
              (suc q)
              send_stop
              requests
              elapsed
              server
              net
              config
            ≡ some stopped)
          × IsStopped config net₀ stopped
    unfolding shutdown
    shutdown-IsStopped server net net₀ config closed =
        let (m, ends) = wait_ends config.max_grace_period requests elapsed q quiet in
        (
          (
            Backend.stop env.url config send_stop,
            m,
            stop_server env float pkg ssl actix server net,
          ),
          rw (ends, shutdown) refl,
          (
            refl,
            wait_for_requests-IsWait config.max_grace_period requests elapsed (suc q) {m = m} ends,
            closed,
          ),
        )

    module _ (killed : ℕ → Bool) (turns : ℕ → Turn env float pkg ssl actix) where
      -- The loop on `s` makes exactly the turns before the first that reads the flag as set, and they
      -- come to `r`.
      abbrev pub Loops : State → Ran (State × List Event) → Type 0
      Loops s r =
          (j : ℕ) × IsFirst killed 0 j
          × (run_turns env float pkg ssl actix (turns_from env float pkg ssl actix turns 0 j) s ≡ r)

      -- How `run` comes to an end, from its start on.
      abbrev pub IsEnd :
          ActixApi.Net actix
          → Started env float pkg ssl actix
          → Ending env float pkg ssl actix
          → Type 0
      IsEnd net started (finished events stopped) =
          (s : State) × (s' : State) × (started ≡ served s)
          × Loops s (done (s', events))
          × IsStopped s'.gs.config net stopped
      IsEnd net started (stopped_panicking stopped) =
          (gs : GlobalState env) × (net' : ActixApi.Net actix) × (started ≡ unserved gs net')
          × IsStopped gs.config net stopped
      IsEnd net started died =
          (started ≡ failed) ⊎ ((s : State) × (started ≡ served s) × Loops s panicked)
      IsEnd net started stuck = ((s : State) × (started ≡ served s) × Loops s hung) × NeverEnds env

      abbrev Ends :
          ActixApi.Net actix
          → Started env float pkg ssl actix
          → Option (Ending env float pkg ssl actix)
          → Type 0
      Ends net started o = (e : Ending env float pkg ssl actix) × (o ≡ some e) × IsEnd net started e

      after_loop-Ends :
          (net : ActixApi.Net actix) (s : State) (j : ℕ) (r : Ran (State × List Event))
          → IsFirst killed 0 j
          → run_turns env float pkg ssl actix (turns_from env float pkg ssl actix turns 0 j) s ≡ r
          → Serves env float pkg ssl actix (ActixApi.listening actix net) s
          → Ends net (served s) (
              after_loop env float pkg ssl actix killed turns send_stop requests elapsed
                (suc q)
                (some r))
      unfolding after_loop
      after_loop-Ends net s j panicked first ran h = (died, refl, inr (s, refl, (j, first, ran)))
      after_loop-Ends net s j hung first ran h = (
        stuck,
        refl,
        (
          (s, refl, (j, first, ran)),
          run_turns-NeverEnds env float pkg ssl actix (turns_from env float pkg ssl actix turns 0 j)
              s ran,
        ),
      )
      after_loop-Ends net s j (done (s', events)) first ran h =
          let serves =
            run_turns-Serves env float pkg ssl actix (turns_from env float pkg ssl actix turns 0 j)
              s s' events (ActixApi.listening actix net) h ran in
          let (stopped, ends, is) =
            shutdown-IsStopped (some s'.server) s'.net net s'.gs.config
              (stopped-IsClosed s'.server s'.net net serves) in
          (finished events stopped, rw (ends, after_loop) refl, (s, s', refl, (j, first, ran), is))

      after_start-Ends :
          (k : ℕ) (net : ActixApi.Net actix) (started : Started env float pkg ssl actix)
          → killed k ≡ true
          → Opens net started
          → Ends net started (
              after_start env float pkg ssl actix killed turns send_stop requests elapsed
                (suc k)
                (suc q)
                started)
      unfolding after_start stop_server
      after_start-Ends k net failed set h = (died, refl, inl refl)
      after_start-Ends k net (unserved gs net') set h =
          let (stopped, ends, is) = shutdown-IsStopped none net' net gs.config h in
          (stopped_panicking stopped, rw (ends, after_start) refl, (gs, net', refl, is))
      after_start-Ends k net (served s) set h =
          let (j, within, first, loops) =
            main_loop-stops env float pkg ssl actix killed turns k s set in
          let (e, ends, is) = after_loop-Ends net s j _ first refl h in
          (e, rw (loops, after_start) ends, is)

      pub run-Ends :
          (k : ℕ) (start : ℕ × ℕ)
          (send : UrlApi.Url env.url → PingRequest → Result (Reply PingResponse) (Unit {0}))
          (net : ActixApi.Net actix) (gs : GlobalState env)
          → killed k ≡ true
          → Ends net (start_running env float pkg ssl actix start send net gs) (
              run env float pkg ssl actix killed turns send_stop requests elapsed
                (suc k)
                (suc q)
                start
                send
                net
                gs)
      unfolding run start_running
      run-Ends k start send net gs set =
          after_start-Ends k net _ set (with_crt-Opens start net (ping_backend env send gs))
