-- ===== src/App/Run/Hangs.antt =====
-- src/main.rs, `Application::run`: only an eviction that does not end keeps a turn from ending.
use scalpel.Common.{
  ℕ, List, [], ◌∷◌, Result, ok, err, Outcome, returns, panics, Option, none, some, leb, ◌≡◌, refl,
  inl, inr, ◌⊎◌, Bool-cases,
}
use scalpel.Utils.{SystemTime, Package}
use scalpel.Cache.Api.{ImageCache}
use scalpel.Backend.{TlsPayload}
use scalpel.State.{Env, GlobalState}
use scalpel.Http.Acceptor.{OpenSsl}
use scalpel.Http.Lifecycle.{ActixApi, HttpServerLifecycle, respawn_with_new_cert}
use scalpel.Http.Lifecycle
use scalpel.App.{AppError, ping_backend}
use scalpel.App.Run.{
  F64, Event, pinged, Ran, done, panicked, hung, secs, Running, Turn, respawned, after_ping,
  map_done, ping_if_due, shrink_done, shrink_if_due, turn, try_shrink_db, after_shrink, gauged,
  max_size, max_mult, shrink_mult,
}
use scalpel.App.Run.Loop.{run_turns, and_then_run}

-- Some call that shrinks the cache does not end.
abbrev pub NeverEnds : Env → Type 0
NeverEnds env =
    (clock : ℕ → SystemTime) × (min : ℕ) × (cache : ImageCache.Cache env.engine)
    × (ImageCache.shrink env.engine clock min cache ≡ none)

module _ (env : Env) (float : F64) where
  after_shrink-none :
      (gs : GlobalState env) (o : Option (Result ℕ (Unit {0}) × ImageCache.Cache env.engine))
      → after_shrink env float gs o ≡ none
      → o ≡ none
  unfolding after_shrink
  after_shrink-none gs none h = refl
  after_shrink-none gs (some (r, cache)) h = absurd (cc h)

  try_shrink_db-NeverEnds :
      (report_clock shrink_clock : ℕ → SystemTime) (gs : GlobalState env)
      → try_shrink_db env float report_clock shrink_clock gs ≡ none
      → NeverEnds env
  unfolding try_shrink_db
  try_shrink_db-NeverEnds report_clock shrink_clock gs h =
      let (reported, cache) = ImageCache.report env.engine report_clock gs.cache in
      let db_sz = float.of_u64 reported in
      let max_sz = max_size env float gs.config in
      let large = float.gt db_sz (float.mul max_sz (max_mult env float)) in
      elim (Bool-cases large) [
        | inl over ↦ (
          shrink_clock,
          float.as_u64 (float.mul max_sz (shrink_mult env float)),
          cache,
          after_shrink-none (gauged env float db_sz max_sz (record gs { cache = cache })) _
              (rw (over, try_shrink_db) at h),
        )
        | inr under ↦ absurd (cc (rw (under, try_shrink_db) at h))
      ]

  module _ (pkg : Package) (ssl : OpenSsl) (actix : ActixApi ssl) where
    abbrev State : Type 0
    State = Running env float pkg ssl actix

    respawned-goes_on :
        (s : State) (crt : TlsPayload)
        (r : Result (Unit {0}) (Lifecycle.Error pkg ssl actix)
          × HttpServerLifecycle pkg ssl actix
          × ActixApi.Net actix)
        → respawned env float pkg ssl actix s crt r ≡ hung
        → NeverEnds env
    unfolding respawned
    respawned-goes_on s crt (ok _, server, net) h = absurd (cc h)
    respawned-goes_on s crt (err e, server, net) h = absurd (cc h)

    after_ping-goes_on :
        (s : State) (o : Outcome (Result (Option TlsPayload) AppError × GlobalState env))
        → after_ping env float pkg ssl actix s o ≡ hung
        → NeverEnds env
    unfolding after_ping
    after_ping-goes_on s panics h = absurd (cc h)
    after_ping-goes_on s (returns (err e, gs)) h = absurd (cc h)
    after_ping-goes_on s (returns (ok none, gs)) h = absurd (cc h)
    after_ping-goes_on s (returns (ok (some crt), gs)) h =
        respawned-goes_on (record s { gs = gs }) crt
          (respawn_with_new_cert pkg ssl actix gs.config crt s.server s.net) h

    map_done-hung :
        (r : Ran State) (events : List Event)
        → map_done env float pkg ssl actix {B = State × List Event} (λ s. (s, events)) r ≡ hung
        → r ≡ hung
    map_done-hung (done s) events h = absurd (cc h)
    map_done-hung panicked events h = absurd (cc h)
    map_done-hung hung events h = refl

    ping_if_due-goes_on :
        (w : Turn env float pkg ssl actix) (s : State)
        → ping_if_due env float pkg ssl actix w s ≡ hung
        → NeverEnds env
    unfolding ping_if_due
    ping_if_due-goes_on w s h = elim (Bool-cases (leb 60 (secs w.at_ping s.last_ping))) [
      | inr early ↦ absurd (cc (rw (early, ping_if_due) at h))
      | inl due ↦
          let before : State = record s { last_ping = w.pinged_at } in
          let o = ping_backend env w.send s.gs in
          after_ping-goes_on before o (
            map_done-hung (after_ping env float pkg ssl actix before o) (pinged w.pinged_at ∷ [])
              (rw (due, ping_if_due) at h))
    ]

    shrink_done-none :
        (s : State) (events : List Event) (at : ℕ) (o : Option (GlobalState env))
        → shrink_done env float pkg ssl actix s events at o ≡ hung
        → o ≡ none
    unfolding shrink_done
    shrink_done-none s events at none h = refl
    shrink_done-none s events at (some gs) h = absurd (cc h)

    shrink_if_due-NeverEnds :
        (w : Turn env float pkg ssl actix) (r : Ran (State × List Event))
        → shrink_if_due env float pkg ssl actix w r ≡ hung
        → (r ≡ hung) ⊎ NeverEnds env
    unfolding shrink_if_due
    shrink_if_due-NeverEnds w panicked h = absurd (cc h)
    shrink_if_due-NeverEnds w hung h = inl refl
    shrink_if_due-NeverEnds w (done (s, events)) h =
        elim (Bool-cases (leb 300 (secs w.at_shrink s.last_shrink))) [
          | inr early ↦ absurd (cc (rw (early, shrink_if_due) at h))
          | inl due ↦ inr (
              try_shrink_db-NeverEnds w.report_clock w.shrink_clock s.gs (
                shrink_done-none s events w.shrunk_at
                  (try_shrink_db env float w.report_clock w.shrink_clock s.gs)
                  (rw (due, shrink_if_due) at h)))
        ]

    turn-NeverEnds :
        (w : Turn env float pkg ssl actix) (s : State)
        → turn env float pkg ssl actix w s ≡ hung
        → NeverEnds env
    unfolding turn
    turn-NeverEnds w s h =
        let before : State = record s { gs = w.meanwhile s.gs } in
        elim (shrink_if_due-NeverEnds w (ping_if_due env float pkg ssl actix w before) h) [
          | inl ping ↦ ping_if_due-goes_on w before ping
          | inr eviction ↦ eviction
        ]

    and_then_run-hung :
        (r : Ran (State × List Event)) (next : State → Ran (State × List Event))
        → and_then_run env float pkg ssl actix r next ≡ hung
        → (r ≡ hung) ⊎ ((s : State) × (next s ≡ hung))
    unfolding and_then_run
    and_then_run-hung panicked next h = absurd (cc h)
    and_then_run-hung hung next h = inl refl
    and_then_run-hung (done (s, events)) next h = inr (s, go (next s) refl)
      where
        go : (r : Ran (State × List Event)) → next s ≡ r → next s ≡ hung
        go hung e = e
        go panicked e = absurd (cc (rw (e, and_then_run) at h))
        go (done p) e = absurd (cc (rw (e, and_then_run) at h))

    -- Turns that do not end are kept by an eviction that does not end.
    pub run_turns-NeverEnds :
        (turns : List (Turn env float pkg ssl actix)) (s : Running env float pkg ssl actix)
        → run_turns env float pkg ssl actix turns s ≡ hung
        → NeverEnds env
    unfolding run_turns
    run_turns-NeverEnds [] s h = absurd (cc h)
    run_turns-NeverEnds (w ∷ turns) s h =
        elim (and_then_run-hung (turn env float pkg ssl actix w s)
          (run_turns env float pkg ssl actix turns) h) [
            | inl first ↦ turn-NeverEnds w s first
            | inr (t, later) ↦ run_turns-NeverEnds turns t later
          ]
