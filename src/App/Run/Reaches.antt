-- ===== src/App/Run/Reaches.antt =====
-- src/main.rs: what the main loop does to the shared state is steps of the program.
mod Tests
use scalpel.Common.{
  ℕ, Str, List, [], ◌∷◌, Result, ok, err, Outcome, returns, panics, Option, none, some, leb, ltb,
  ◌≡◌, ◌≢◌, refl, sym, ap, ◌∙◌, subst, inl, inr, Bool-cases, All,
}
use scalpel.Utils.{Package}
use scalpel.Config.{AppConfig, FsConfig, RocksConfig}
use scalpel.Cache.Api.{ImageCache}
use scalpel.Tokens.{TokenError, TokenVerifier, push_key_b64}
use scalpel.Tokens
use scalpel.Backend.{
  TlsPayload, PingRequest, PingResponse, UrlApi, Reply, PingStore, PingResult, ping,
}
use scalpel.Backend.Laws.{IsUpdate, ping-returns-ok}
use scalpel.State.{Env, GlobalState}
use scalpel.Http.Acceptor.{OpenSsl}
use scalpel.Http.Lifecycle.{ActixApi, HttpServerLifecycle, respawn_with_new_cert}
use scalpel.Http.Lifecycle
use scalpel.App.{AppError, key_error, adopt_verifier, adopt_key, pinged, ping_backend}
use scalpel.App.Verifier.{returns_value, InStep}
use scalpel.App.Start
use scalpel.App.Reachable.{Reachable, Reachable-InStep}
use scalpel.App.Run.{
  F64, Event, Ran, done, panicked, hung, secs, Running, Turn, respawned, after_ping, map_done,
  ping_if_due, shrink_done, shrink_if_due, turn, try_shrink_db,
}
use scalpel.App.Run.Loop.{served, run_turns, with_server, with_crt, start_running}
use scalpel.App.Run.Keys.{HasGoodKeys, ping_backend-Reachable}
use scalpel.App.Run.Turns.{and_then_run-eq-done}

module _ (env : Env) where
  module _ (float : F64) (pkg : Package) (ssl : OpenSsl) (actix : ActixApi ssl) where
    abbrev State : Type 0
    State = Running env float pkg ssl actix

    abbrev Life : Type 0
    Life = HttpServerLifecycle pkg ssl actix

    -- What a stretch that ended left of the shared state.
    abbrev Goes : Ran State → Type 1
    Goes (done s) = Reachable env s.gs
    Goes panicked = Unit
    Goes hung = Unit

    abbrev AllReach : Ran (State × List Event) → Type 1
    AllReach (done (s, events)) = Reachable env s.gs
    AllReach panicked = Unit
    AllReach hung = Unit

    respawned-Goes :
        (s : State) (new_crt : TlsPayload)
        (r : Result (Unit {0}) (Lifecycle.Error pkg ssl actix) × Life × ActixApi.Net actix)
        → Reachable env s.gs
        → Goes (respawned env float pkg ssl actix s new_crt r)
    unfolding respawned
    respawned-Goes s new_crt (ok _, server, net) h = h
    respawned-Goes s new_crt (err e, server, net) h = tt

    after_ping-Goes :
        (s : State) (o : Outcome (Result (Option TlsPayload) AppError × GlobalState env))
        → ((r : Result (Option TlsPayload) AppError) (gs : GlobalState env)
            → o ≡ returns (r, gs)
            → Reachable env gs)
        → Goes (after_ping env float pkg ssl actix s o)
    unfolding after_ping
    after_ping-Goes s panics h = tt
    after_ping-Goes s (returns (err e, gs)) h = h (err e) gs refl
    after_ping-Goes s (returns (ok none, gs)) h = h (ok none) gs refl
    after_ping-Goes s (returns (ok (some new_crt), gs)) h =
        respawned-Goes (record s { gs = gs }) new_crt
          (respawn_with_new_cert pkg ssl actix gs.config new_crt s.server s.net)
          (h (ok (some new_crt)) gs refl)

    map_done-AllReach :
        (r : Ran State) (events : List Event)
        → Goes r
        → AllReach (map_done env float pkg ssl actix {B = State × List Event} (λ s. (s, events)) r)
    map_done-AllReach (done s) events h = h
    map_done-AllReach panicked events h = tt
    map_done-AllReach hung events h = tt

    ping_if_due-AllReach :
        (w : Turn env float pkg ssl actix) (s : State)
        → HasGoodKeys env w.send
        → Reachable env s.gs
        → AllReach (ping_if_due env float pkg ssl actix w s)
    unfolding ping_if_due
    ping_if_due-AllReach w s good h = elim (Bool-cases (leb 60 (secs w.at_ping s.last_ping))) [
      | inr early ↦ rw (early, ping_if_due) h
      | inl due ↦
          let before : State = record s { last_ping = w.pinged_at } in
          let o = ping_backend env w.send s.gs in
          rw (due, ping_if_due)
            (map_done-AllReach (after_ping env float pkg ssl actix before o)
              (Event.pinged w.pinged_at ∷ [])
              (after_ping-Goes before o
                (λ r gs e. ping_backend-Reachable env w.send s.gs r gs good h e)))
    ]

    shrink_done-AllReach :
        (s : State) (events : List Event) (at : ℕ) (o : Option (GlobalState env))
        → ((gs : GlobalState env) → o ≡ some gs → Reachable env gs)
        → AllReach (shrink_done env float pkg ssl actix s events at o)
    unfolding shrink_done
    shrink_done-AllReach s events at none h = tt
    shrink_done-AllReach s events at (some gs) h = h gs refl

    shrink_if_due-AllReach :
        (w : Turn env float pkg ssl actix) (r : Ran (State × List Event))
        → AllReach r
        → AllReach (shrink_if_due env float pkg ssl actix w r)
    unfolding shrink_if_due
    shrink_if_due-AllReach w panicked h = tt
    shrink_if_due-AllReach w hung h = tt
    shrink_if_due-AllReach w (done (s, events)) h =
        elim (Bool-cases (leb 300 (secs w.at_shrink s.last_shrink))) [
          | inr early ↦ rw (early, shrink_if_due) h
          | inl due ↦
              rw (due, shrink_if_due)
                (shrink_done-AllReach s events w.shrunk_at
                  (try_shrink_db env float w.report_clock w.shrink_clock s.gs)
                  (λ gs e. Reachable.shrunk s.gs float w.report_clock w.shrink_clock gs h e))
        ]

    -- A turn before which the other threads took steps of the program, and whose ping is answered
    -- with good keys.
    abbrev pub IsFair : Turn env float pkg ssl actix → Type 1
    IsFair w =
        HasGoodKeys env w.send
        × ((gs : GlobalState env) → Reachable env gs → Reachable env (w.meanwhile gs))

    turn-AllReach :
        (w : Turn env float pkg ssl actix) (s : State)
        → IsFair w
        → Reachable env s.gs
        → AllReach (turn env float pkg ssl actix w s)
    unfolding turn
    turn-AllReach w s (good, steps) h =
        let before : State = record s { gs = w.meanwhile s.gs } in
        shrink_if_due-AllReach w (ping_if_due env float pkg ssl actix w before)
          (ping_if_due-AllReach w before good (steps s.gs h))

    run_turns-Reachable :
        (turns : List (Turn env float pkg ssl actix)) (s s' : State) (events : List Event)
        → All IsFair turns
        → Reachable env s.gs
        → run_turns env float pkg ssl actix turns s ≡ done (s', events)
        → Reachable env s'.gs
    unfolding run_turns
    run_turns-Reachable [] s s' events fair h e =
        let same : ◌≡◌ {A = State × List Event} (s, []) (s', events) = cc e in
        subst (λ (t : State). Reachable env t.gs) (ap (λ p. p.0) same) h
    run_turns-Reachable (w ∷ turns) s s' events (fair, later) h e =
        let (s₁, first, more, one, left, whole) =
          and_then_run-eq-done env float pkg ssl actix (turn env float pkg ssl actix w s)
            (run_turns env float pkg ssl actix turns) e in
        run_turns-Reachable turns s₁ s' more later (subst AllReach one (turn-AllReach w s fair h))
          left

    served_value : {s s' : State} → served s ≡ served s' → s ≡ s'
    served_value h = cc

    with_server-Reachable :
        (start : ℕ × ℕ) (crt : TlsPayload) (gs : GlobalState env)
        (r : Result Life (Lifecycle.Error pkg ssl actix) × ActixApi.Net actix) {s : State}
        → Reachable env gs
        → with_server env float pkg ssl actix start crt gs r ≡ served s
        → Reachable env s.gs
    unfolding with_server
    with_server-Reachable start crt gs (err e, net) h made = absurd (cc made)
    with_server-Reachable (pinged_at, now) crt gs (ok server, net) {s} h made =
        elim (Bool-cases (ltb now 600000000000)) [
          | inl early ↦ absurd (cc (rw (early, with_server) at made))
          | inr late ↦
              subst (λ (t : State). Reachable env t.gs)
                (served_value (rw (late, with_server) at made)) h
        ]

    with_crt-Reachable :
        (start : ℕ × ℕ) (net : ActixApi.Net actix)
        (o : Outcome (Result (Option TlsPayload) AppError × GlobalState env)) {s : State}
        → ((r : Result (Option TlsPayload) AppError) (gs : GlobalState env)
            → o ≡ returns (r, gs)
            → Reachable env gs)
        → with_crt env float pkg ssl actix start net o ≡ served s
        → Reachable env s.gs
    unfolding with_crt
    with_crt-Reachable start net panics h made = absurd (cc made)
    with_crt-Reachable start net (returns (err e, gs)) h made = absurd (cc made)
    with_crt-Reachable start net (returns (ok none, gs)) h made = absurd (cc made)
    with_crt-Reachable start net (returns (ok (some crt), gs)) h made =
        with_server-Reachable start crt gs (Lifecycle.new pkg ssl actix gs.config crt net)
          (h (ok (some crt)) gs refl) made

    -- From the start of the program through any turns of the main loop, the shared state is one that
    -- the program's steps reach, and the verifier has exactly the token key of the last ping that was
    -- stored, if the API answers with token keys that the verifier takes, and the other threads take
    -- only steps of the program between the turns.
    pub run-InStep :
        {E F : Type 0} (open_fs : FsConfig → Result (ImageCache.Cache env.engine) E)
        (open_rocks : RocksConfig → Result (ImageCache.Cache env.engine) F)
        (config : Option AppConfig) (gs : GlobalState env) (start : ℕ × ℕ)
        (send : UrlApi.Url env.url → PingRequest → Result (Reply PingResponse) (Unit {0}))
        (net : ActixApi.Net actix) (turns : List (Turn env float pkg ssl actix))
        (s s' : Running env float pkg ssl actix) (events : List Event)
        → Start.init env open_fs open_rocks config ≡ returns gs
        → HasGoodKeys env send
        → start_running env float pkg ssl actix start send net gs ≡ served s
        → All IsFair turns
        → run_turns env float pkg ssl actix turns s ≡ done (s', events)
        → Reachable env s'.gs × InStep env s'.gs
    unfolding start_running
    run-InStep open_fs open_rocks config gs start send net turns s s' events init good made fair
          ran =
        let fresh = Reachable.started open_fs open_rocks config gs init in
        let first =
          with_crt-Reachable start net (ping_backend env send gs)
            (λ r gs₁ e. ping_backend-Reachable env send gs r gs₁ good fresh e) made in
        let last = run_turns-Reachable turns s s' events fair first ran in
        (last, Reachable-InStep env s'.gs last)
