-- ===== src/App/Run/Panics.antt =====
-- src/main.rs: what makes a turn of the main loop panic.
use scalpel.Common.{
  ℕ, ◌≤◌, List, [], ◌∷◌, Result, ok, err, Outcome, returns, panics, Option, none, some, leb, ◌≡◌,
  ◌≢◌, ◌↔◌, refl, inl, inr, arith, Bool-cases,
}
use scalpel.Utils.{Package}
use scalpel.Backend.{TlsPayload}
use scalpel.State.{Env, GlobalState}
use scalpel.Http.Acceptor.{OpenSsl}
use scalpel.Http.Lifecycle.{ActixApi, HttpServerLifecycle, respawn_with_new_cert}
use scalpel.Http.Lifecycle
use scalpel.App.{AppError, ping_backend}
use scalpel.App.Run.{
  F64, Event, pinged, Ran, done, panicked, hung, secs, Running, Turn, respawned, after_ping,
  map_done, ping_if_due, shrink_done, shrink_if_due, turn, try_shrink_db,
}

module _ (env : Env) (float : F64) (pkg : Package) (ssl : OpenSsl) (actix : ActixApi ssl) where
  abbrev State : Type 0
  State = Running env float pkg ssl actix

  abbrev Pinged : Type 0
  Pinged = Outcome (Result (Option TlsPayload) AppError × GlobalState env)

  abbrev Restarted : Type 0
  Restarted =
      Result (Unit {0}) (Lifecycle.Error pkg ssl actix)
      × HttpServerLifecycle pkg ssl actix
      × ActixApi.Net actix

  -- A restart that failed, for the certificate that a ping brought.
  abbrev pub Fails :
      HttpServerLifecycle pkg ssl actix → ActixApi.Net actix → TlsPayload → GlobalState env → Type 0
  Fails server net crt gs =
      (e : Lifecycle.Error pkg ssl actix) × ((respawn_with_new_cert pkg ssl actix gs.config crt
          server net).0
        ≡ err e)

  -- A ping that panicked, or brought a certificate with which the server did not start.
  abbrev pub PingFails :
      HttpServerLifecycle pkg ssl actix
      → ActixApi.Net actix
      → Outcome (Result (Option TlsPayload) AppError × GlobalState env)
      → Type 0
  PingFails server net panics = Unit
  PingFails server net (returns (ok (some crt), gs)) = Fails server net crt gs
  PingFails server net (returns (ok none, gs)) = ⊥
  PingFails server net (returns (err e, gs)) = ⊥

  respawned-panicked_iff :
      (s : State) (crt : TlsPayload) (r : Restarted)
      → (respawned env float pkg ssl actix s crt r ≡ panicked)
        ↔ ((e : Lifecycle.Error pkg ssl actix) × (r.0 ≡ err e))
  unfolding respawned
  respawned-panicked_iff s crt (ok _, server, net) = (λ h. absurd (cc h), λ h. absurd (cc h.1))
  respawned-panicked_iff s crt (err e, server, net) = (λ h. (e, refl), λ h. refl)

  after_ping-panicked_iff :
      (s : State) (o : Pinged)
      → (after_ping env float pkg ssl actix s o ≡ panicked) ↔ PingFails s.server s.net o
  unfolding after_ping
  after_ping-panicked_iff s panics = (λ h. tt, λ h. refl)
  after_ping-panicked_iff s (returns (ok none, gs)) = (λ h. absurd (cc h), λ h. absurd h)
  after_ping-panicked_iff s (returns (err e, gs)) = (λ h. absurd (cc h), λ h. absurd h)
  after_ping-panicked_iff s (returns (ok (some crt), gs)) =
      respawned-panicked_iff (record s { gs = gs }) crt
        (respawn_with_new_cert pkg ssl actix gs.config crt s.server s.net)

  map_done-panicked_iff :
      (r : Ran State) (events : List Event)
      → (map_done env float pkg ssl actix {B = State × List Event} (λ t. (t, events)) r ≡ panicked)
        ↔ (r ≡ panicked)
  map_done-panicked_iff (done s) events = (λ h. absurd (cc h), λ h. absurd (cc h))
  map_done-panicked_iff panicked events = (λ h. refl, λ h. refl)
  map_done-panicked_iff hung events = (λ h. absurd (cc h), λ h. absurd (cc h))

  shrink_done-panicked :
      (s : State) (events : List Event) (at : ℕ) (o : Option (GlobalState env))
      → shrink_done env float pkg ssl actix s events at o ≢ panicked
  unfolding shrink_done
  shrink_done-panicked s events at none h = cc h
  shrink_done-panicked s events at (some gs) h = cc h

  shrink_if_due-panicked_iff :
      (w : Turn env float pkg ssl actix) (r : Ran (State × List Event))
      → (shrink_if_due env float pkg ssl actix w r ≡ panicked) ↔ (r ≡ panicked)
  unfolding shrink_if_due
  shrink_if_due-panicked_iff w panicked = (λ h. refl, λ h. refl)
  shrink_if_due-panicked_iff w hung = (λ h. absurd (cc h), λ h. absurd (cc h))
  shrink_if_due-panicked_iff w (done (s, events)) = (
    λ h. elim (Bool-cases (leb 300 (secs w.at_shrink s.last_shrink))) [
      | inr early ↦ absurd (cc (rw (early, shrink_if_due) at h))
      | inl due ↦ absurd (
          shrink_done-panicked s events w.shrunk_at
            (try_shrink_db env float w.report_clock w.shrink_clock s.gs)
            (rw (due, shrink_if_due) at h))
    ],
    λ h. absurd (cc h),
  )

  ping_if_due-panicked_iff :
      (w : Turn env float pkg ssl actix) (s : State)
      → (ping_if_due env float pkg ssl actix w s ≡ panicked) ↔ (
          (60 ≤ secs w.at_ping s.last_ping)
          × PingFails s.server s.net (ping_backend env w.send s.gs))
  unfolding ping_if_due
  ping_if_due-panicked_iff w s =
      let before : State = record s { last_ping = w.pinged_at } in
      let o = ping_backend env w.send s.gs in
      let mapped =
        map_done-panicked_iff (after_ping env float pkg ssl actix before o)
          (pinged w.pinged_at ∷ []) in
      let after = after_ping-panicked_iff before o in
      elim (Bool-cases (leb 60 (secs w.at_ping s.last_ping))) [
        | inl due ↦ (
          λ h. (ground arith, after.0 (mapped.0 (rw (due, ping_if_due) at h))),
          λ h. rw (due, ping_if_due) (mapped.1 (after.1 h.1)),
        )
        | inr early ↦
            (λ h. absurd (cc (rw (early, ping_if_due) at h)), λ h. absurd (ground (arith, h.0)))
      ]

  -- A turn of the main loop panics exactly when a minute has passed since the last ping, and the ping
  -- panics or brings a certificate with which the server does not start again; no error of the API, of
  -- the token key or of the cache makes it panic.
  pub turn-panicked_iff :
      (w : Turn env float pkg ssl actix) (s : Running env float pkg ssl actix)
      → (turn env float pkg ssl actix w s ≡ panicked) ↔ (
          (60 ≤ secs w.at_ping s.last_ping)
          × PingFails s.server s.net (ping_backend env w.send (w.meanwhile s.gs)))
  unfolding turn
  turn-panicked_iff w s =
      let before : State = record s { gs = w.meanwhile s.gs } in
      let shrunk = shrink_if_due-panicked_iff w (ping_if_due env float pkg ssl actix w before) in
      let ping = ping_if_due-panicked_iff w before in
      (λ h. ping.0 (shrunk.0 h), λ h. shrunk.1 (ping.1 h))
