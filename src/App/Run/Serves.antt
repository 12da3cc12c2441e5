-- ===== src/App/Run/Serves.antt =====
-- src/main.rs: one server listens while the main loop runs, and none after the shutdown.
use scalpel.Common.{
  ℕ, Str, true, List, [], ◌∷◌, Result, ok, err, Outcome, returns, panics, Option, none, some, leb,
  ltb, ◌≡◌, sym, ap, ◌∙◌, subst, inl, inr, Bool-cases, Option-cases,
}
use scalpel.Utils.{Package}
use scalpel.Backend.{TlsPayload, PingRequest, PingResponse, UrlApi, Reply, BackendError}
use scalpel.State.{Env, GlobalState}
use scalpel.Http.Acceptor.{OpenSsl}
use scalpel.Http.Lifecycle.{ActixApi, HttpServerLifecycle, respawn_with_new_cert}
use scalpel.Http.Lifecycle
use scalpel.Http.Lifecycle.Listening.{OneMore, new-OneMore, Swapped, respawn_with_new_cert-Swapped}
use scalpel.App.{AppError, ping_backend}
use scalpel.App.Shutdown.{wait_for_requests}
use scalpel.App.Run.{
  F64, Event, pinged, Ran, done, panicked, hung, secs, Running, Turn, respawned, after_ping,
  map_done, ping_if_due, shrink_done, shrink_if_due, turn, try_shrink_db,
}
use scalpel.App.Run.Loop.{
  served, run_turns, with_server, with_crt, start_running, stop_server, shutdown,
}
use scalpel.App.Run.Turns.{and_then_run-eq-done}

module _ (env : Env) (float : F64) (pkg : Package) (ssl : OpenSsl) (actix : ActixApi ssl) where
  abbrev State : Type 0
  State = Running env float pkg ssl actix

  abbrev Life : Type 0
  Life = HttpServerLifecycle pkg ssl actix

  -- The server of the loop listens, and `rest` besides.
  abbrev pub Serves : List (ActixApi.Server actix) → Running env float pkg ssl actix → Type 0
  Serves rest s = ActixApi.listening actix s.net ≡ s.server.actix_server ∷ rest

  -- So it does in a stretch that ended.
  abbrev AllServe : List (ActixApi.Server actix) → Ran (State × List Event) → Type 0
  AllServe rest (done (s, events)) = Serves rest s
  AllServe rest panicked = Unit
  AllServe rest hung = Unit

  abbrev Goes : List (ActixApi.Server actix) → Ran State → Type 0
  Goes rest (done s) = Serves rest s
  Goes rest panicked = Unit
  Goes rest hung = Unit

  respawned-Goes :
      (s : State) (new_crt : TlsPayload) (rest : List (ActixApi.Server actix))
      (r : Result (Unit {0}) (Lifecycle.Error pkg ssl actix) × Life × ActixApi.Net actix)
      → Swapped pkg ssl actix r rest
      → Goes rest (respawned env float pkg ssl actix s new_crt r)
  unfolding respawned
  respawned-Goes s new_crt rest (ok _, server, net) h = h
  respawned-Goes s new_crt rest (err e, server, net) h = tt

  after_ping-Goes :
      (s : State) (o : Outcome (Result (Option TlsPayload) AppError × GlobalState env))
      (rest : List (ActixApi.Server actix))
      → Serves rest s
      → Goes rest (after_ping env float pkg ssl actix s o)
  unfolding after_ping
  after_ping-Goes s panics rest h = tt
  after_ping-Goes s (returns (err e, gs)) rest h = h
  after_ping-Goes s (returns (ok none, gs)) rest h = h
  after_ping-Goes s (returns (ok (some new_crt), gs)) rest h =
      respawned-Goes (record s { gs = gs }) new_crt rest
        (respawn_with_new_cert pkg ssl actix gs.config new_crt s.server s.net)
        (respawn_with_new_cert-Swapped pkg ssl actix gs.config new_crt s.server s.net rest h)

  map_done-AllServe :
      (r : Ran State) (events : List Event) (rest : List (ActixApi.Server actix))
      → Goes rest r
      → AllServe rest
          (map_done env float pkg ssl actix {B = State × List Event} (λ s. (s, events)) r)
  map_done-AllServe (done s) events rest h = h
  map_done-AllServe panicked events rest h = tt
  map_done-AllServe hung events rest h = tt

  ping_if_due-AllServe :
      (w : Turn env float pkg ssl actix) (s : State) (rest : List (ActixApi.Server actix))
      → Serves rest s
      → AllServe rest (ping_if_due env float pkg ssl actix w s)
  unfolding ping_if_due
  ping_if_due-AllServe w s rest h = elim (Bool-cases (leb 60 (secs w.at_ping s.last_ping))) [
    | inr early ↦ rw (early, ping_if_due) h
    | inl due ↦
        let before : State = record s { last_ping = w.pinged_at } in
        let after = after_ping env float pkg ssl actix before (ping_backend env w.send s.gs) in
        rw (due, ping_if_due)
          (map_done-AllServe after (pinged w.pinged_at ∷ []) rest
            (after_ping-Goes before (ping_backend env w.send s.gs) rest h))
  ]

  shrink_done-AllServe :
      (s : State) (events : List Event) (at : ℕ) (o : Option (GlobalState env))
      (rest : List (ActixApi.Server actix))
      → Serves rest s
      → AllServe rest (shrink_done env float pkg ssl actix s events at o)
  unfolding shrink_done
  shrink_done-AllServe s events at none rest h = tt
  shrink_done-AllServe s events at (some gs) rest h = h

  shrink_if_due-AllServe :
      (w : Turn env float pkg ssl actix) (r : Ran (State × List Event))
      (rest : List (ActixApi.Server actix))
      → AllServe rest r
      → AllServe rest (shrink_if_due env float pkg ssl actix w r)
  unfolding shrink_if_due
  shrink_if_due-AllServe w panicked rest h = tt
  shrink_if_due-AllServe w hung rest h = tt
  shrink_if_due-AllServe w (done (s, events)) rest h =
      elim (Bool-cases (leb 300 (secs w.at_shrink s.last_shrink))) [
        | inr early ↦ rw (early, shrink_if_due) h
        | inl due ↦
            rw (due, shrink_if_due)
              (shrink_done-AllServe s events w.shrunk_at
                (try_shrink_db env float w.report_clock w.shrink_clock s.gs) rest h)
      ]

  turn-AllServe :
      (w : Turn env float pkg ssl actix) (s : State) (rest : List (ActixApi.Server actix))
      → Serves rest s
      → AllServe rest (turn env float pkg ssl actix w s)
  unfolding turn
  turn-AllServe w s rest h =
      let before : State = record s { gs = w.meanwhile s.gs } in
      shrink_if_due-AllServe w (ping_if_due env float pkg ssl actix w before) rest
        (ping_if_due-AllServe w before rest h)

  -- After any turns of the loop that ended, the server of the loop listens, and nothing else of
  -- this program, if so it was before.
  pub run_turns-Serves :
      (turns : List (Turn env float pkg ssl actix)) (s s' : Running env float pkg ssl actix)
      (events : List Event) (rest : List (ActixApi.Server actix))
      → Serves rest s
      → run_turns env float pkg ssl actix turns s ≡ done (s', events)
      → Serves rest s'
  unfolding run_turns
  run_turns-Serves [] s s' events rest h e =
      let same : ◌≡◌ {A = State × List Event} (s, []) (s', events) = cc e in
      subst (Serves rest) (ap (λ p. p.0) same) h
  run_turns-Serves (w ∷ turns) s s' events rest h e =
      let (s₁, first, more, one, left, whole) =
        and_then_run-eq-done env float pkg ssl actix (turn env float pkg ssl actix w s)
          (run_turns env float pkg ssl actix turns) e in
      run_turns-Serves turns s₁ s' more rest (subst (AllServe rest) one (turn-AllServe w s rest h))
        left

  served_value : {s s' : State} → served s ≡ served s' → s ≡ s'
  served_value h = cc

  with_server-Serves :
      (start : ℕ × ℕ) (crt : TlsPayload) (gs : GlobalState env)
      (r : Result Life (Lifecycle.Error pkg ssl actix) × ActixApi.Net actix)
      (net : ActixApi.Net actix) {s : State}
      → OneMore pkg ssl actix r net
      → with_server env float pkg ssl actix start crt gs r ≡ served s
      → Serves (ActixApi.listening actix net) s
  unfolding with_server
  with_server-Serves start crt gs (err e, net') net h made = absurd (cc made)
  with_server-Serves (pinged_at, now) crt gs (ok server, net') net {s} h made =
      elim (Bool-cases (ltb now 600000000000)) [
        | inl early ↦ absurd (cc (rw (early, with_server) at made))
        | inr late ↦
            subst (Serves (ActixApi.listening actix net))
              (served_value (rw (late, with_server) at made)) h
      ]

  start_running-Serves :
      (start : ℕ × ℕ) (net : ActixApi.Net actix)
      (o : Outcome (Result (Option TlsPayload) AppError × GlobalState env)) {s : State}
      → with_crt env float pkg ssl actix start net o ≡ served s
      → Serves (ActixApi.listening actix net) s
  unfolding with_crt
  start_running-Serves start net panics made = absurd (cc made)
  start_running-Serves start net (returns (err e, gs)) made = absurd (cc made)
  start_running-Serves start net (returns (ok none, gs)) made = absurd (cc made)
  start_running-Serves start net (returns (ok (some crt), gs)) made =
      with_server-Serves start crt gs (Lifecycle.new pkg ssl actix gs.config crt net) net
        (new-OneMore pkg ssl actix gs.config crt net) made

  -- From the start of the main thread to any turn of its loop, its server listens besides the servers
  -- that listened before, restarts included; after the shutdown only those listen.
  pub shutdown-Serves :
      (start : ℕ × ℕ) (fuel : ℕ)
      (send : UrlApi.Url env.url → PingRequest → Result (Reply PingResponse) (Unit {0}))
      (net : ActixApi.Net actix) (gs : GlobalState env) (s s' : Running env float pkg ssl actix)
      (turns : List (Turn env float pkg ssl actix)) (events : List Event)
      (send_stop : UrlApi.Url env.url → Str → Result (Reply (Unit {0})) (Unit {0}))
      (requests elapsed : ℕ → ℕ) (told : Result (Unit {0}) BackendError) (waited : ℕ)
      (net' : ActixApi.Net actix)
      → start_running env float pkg ssl actix start send net gs ≡ served s
      → run_turns env float pkg ssl actix turns s ≡ done (s', events)
      → shutdown env float pkg ssl actix fuel send_stop requests elapsed
          (some s'.server)
          s'.net
          s'.gs.config
        ≡ some (told, waited, net')
      → Serves (ActixApi.listening actix net) s'
        × (ActixApi.listening actix net' ≡ ActixApi.listening actix net)
  unfolding start_running shutdown stop_server Lifecycle.shutdown
  shutdown-Serves start fuel send net gs s s' turns events send_stop requests elapsed told waited
        net' made ran stopped =
      let rest = ActixApi.listening actix net in
      let first = start_running-Serves start net (ping_backend env send gs) made in
      let now = run_turns-Serves turns s s' events rest first ran in
      elim (Option-cases (wait_for_requests s'.gs.config.max_grace_period requests elapsed fuel)) [
        | inl long ↦ absurd (cc (rw (long, shutdown) at stopped))
        | inr (n, waits) ↦
            let after : ActixApi.stop actix true s'.server.actix_server s'.net ≡ net' =
              cc (rw (waits, shutdown) at stopped) in
            (
              now,
              ap (ActixApi.listening actix) (sym after)
                  ∙ actix.listening-stop true s'.server.actix_server rest s'.net now,
            )
      ]
