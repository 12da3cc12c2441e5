-- ===== src/App/Run/Paced.antt =====
-- src/main.rs: when the main thread pings the API and looks at the size of the cache.
use scalpel.Common.{
  ℕ, ◌≤◌, ◌<◌, true, List, [], ◌∷◌, ◌++◌, Result, ok, err, Outcome, returns, panics, Option, none,
  some, leb, ◌≡◌, refl, sym, ap, ◌∙◌, subst, ◌⊎◌, inl, inr, arith, Bool-cases, Option-cases,
  append-nil, Any,
}
use scalpel.Utils.{Package}
use scalpel.Backend.{TlsPayload}
use scalpel.State.{Env, GlobalState}
use scalpel.Http.Acceptor.{OpenSsl}
use scalpel.Http.Lifecycle.{ActixApi, HttpServerLifecycle, respawn_with_new_cert}
use scalpel.Http.Lifecycle
use scalpel.App.{AppError, ping_backend}
use scalpel.App.Run.{
  F64, Event, pinged, shrunk, Ran, done, panicked, hung, secs, Running, Turn, respawned, after_ping,
  map_done, ping_if_due, shrink_done, shrink_if_due, turn, try_shrink_db,
}

-- An event of the given kind at `t`, or none; `last` is the time of the last one before and after,
-- and `at` when the time since was read.
abbrev pub Due : (ℕ → Event) → ℕ → ℕ → ℕ → ℕ → ℕ → List Event → Type 0
Due kind every at t last last' events =
    ((events ≡ []) × (last' ≡ last) × (secs at last < every))
    ⊎ ((events ≡ kind t ∷ []) × (last' ≡ t) × (every ≤ secs at last))

module _ (env : Env) (float : F64) (pkg : Package) (ssl : OpenSsl) (actix : ActixApi ssl) where
  abbrev State : Type 0
  State = Running env float pkg ssl actix

  done_value :
      {a b : State × List Event} → ◌≡◌ {A = Ran (State × List Event)} (done a) (done b) → a ≡ b
  done_value h = cc h

  -- What a ping leaves of the two times.
  abbrev SameTimes : State → State → Type 0
  SameTimes s s' = (s'.last_ping ≡ s.last_ping) × (s'.last_shrink ≡ s.last_shrink)

  after_ping-SameTimes :
      (s : State) (o : Outcome (Result (Option TlsPayload) AppError × GlobalState env)) {s' : State}
      → after_ping env float pkg ssl actix s o ≡ done s'
      → SameTimes s s'
  unfolding after_ping respawned
  after_ping-SameTimes s panics h = absurd (cc h)
  after_ping-SameTimes s (returns (ok none, gs)) {s'} h =
      let same : record s { gs = gs } ≡ s' = cc h in subst (SameTimes s) same (refl, refl)
  after_ping-SameTimes s (returns (err e, gs)) {s'} h =
      let same : record s { gs = gs } ≡ s' = cc h in subst (SameTimes s) same (refl, refl)
  after_ping-SameTimes s (returns (ok (some new_crt), gs)) {s'} h =
      go (respawn_with_new_cert pkg ssl actix gs.config new_crt s.server s.net) h
    where
      go :
          (r : Result (Unit {0}) (Lifecycle.Error pkg ssl actix)
            × HttpServerLifecycle pkg ssl actix
            × ActixApi.Net actix)
          → respawned env float pkg ssl actix (record s { gs = gs }) new_crt r ≡ done s'
          → SameTimes s s'
      go (err e, server, net) e₁ = absurd (cc e₁)
      go (ok _, server, net) e₁ =
          let same : record s { gs = gs; crt = new_crt; server = server; net = net } ≡ s' = cc e₁ in
          subst (SameTimes s) same (refl, refl)

  abbrev Pings : Turn env float pkg ssl actix → State → State → List Event → Type 0
  Pings w s s' events =
      Due pinged 60 w.at_ping w.pinged_at s.last_ping s'.last_ping events
      × (s'.last_shrink ≡ s.last_shrink)

  ping_if_due-Pings :
      (w : Turn env float pkg ssl actix) (s : State) {s' : State} {events : List Event}
      → ping_if_due env float pkg ssl actix w s ≡ done (s', events)
      → Pings w s s' events
  unfolding ping_if_due
  ping_if_due-Pings w s {s'} {events} h = elim (Bool-cases (leb 60 (secs w.at_ping s.last_ping))) [
    | inr early ↦
        let same = done_value (rw (early, ping_if_due) at h) in
        let state : s ≡ s' = ap (λ p. p.0) same in
        let none_ : [] ≡ events = ap (λ p. p.1) same in
        (
          (inl (sym none_, ap (λ t. Running.last_ping t) (sym state), ground arith)),
          ap (λ t. Running.last_shrink t) (sym state),
        )
    | inl due ↦
        go due
          (after_ping env float pkg ssl actix (record s { last_ping = w.pinged_at })
            (ping_backend env w.send s.gs))
          refl (rw (due, ping_if_due) at h)
  ]
    where
      go :
          leb 60 (secs w.at_ping s.last_ping) ≡ true
          → (r : Ran State)
          → after_ping env float pkg ssl actix
              (record s { last_ping = w.pinged_at })
              (ping_backend env w.send s.gs)
            ≡ r
          → map_done env float pkg ssl actix {B = State × List Event}
              (λ t. (t, pinged w.pinged_at ∷ []))
              r
            ≡ done (s', events)
          → Pings w s s' events
      go due panicked run e = absurd (cc e)
      go due hung run e = absurd (cc e)
      go due (done t) run e =
          let same = done_value e in
          let times =
            after_ping-SameTimes (record s { last_ping = w.pinged_at })
              (ping_backend env w.send s.gs) run in
          let state : t ≡ s' = ap (λ p. p.0) same in
          let one : pinged w.pinged_at ∷ [] ≡ events = ap (λ p. p.1) same in
          (
            inr (sym one, ap (λ x. Running.last_ping x) (sym state) ∙ times.0, ground arith),
            ap (λ x. Running.last_shrink x) (sym state) ∙ times.1,
          )

  -- One turn: its events are those of its ping, then those of its look at the cache.
  pub record IsTurn (w : Turn env float pkg ssl actix) (s s' : Running env float pkg ssl actix)
      (events : List Event) : Type 0 where
    pub pings : List Event
    pub shrinks : List Event
    pub both : events ≡ pings ++ shrinks
    pub ping : Due pinged 60 w.at_ping w.pinged_at s.last_ping s'.last_ping pings
    pub shrink : Due shrunk 300 w.at_shrink w.shrunk_at s.last_shrink s'.last_shrink shrinks

  shrink_if_due-IsTurn :
      (w : Turn env float pkg ssl actix) (s : State) (r : Ran (State × List Event)) {s' : State}
      {events : List Event}
      → ((t : State) (pings : List Event) → r ≡ done (t, pings) → Pings w s t pings)
      → shrink_if_due env float pkg ssl actix w r ≡ done (s', events)
      → IsTurn w s s' events
  unfolding shrink_if_due shrink_done
  shrink_if_due-IsTurn w s panicked before h = absurd (cc h)
  shrink_if_due-IsTurn w s hung before h = absurd (cc h)
  shrink_if_due-IsTurn w s (done (t, pings)) {s'} {events} before h =
      let (ping, kept) = before t pings refl in
      elim (Bool-cases (leb 300 (secs w.at_shrink t.last_shrink))) [
        | inr early ↦
            let same = done_value (rw (early, shrink_if_due) at h) in
            let state : t ≡ s' = ap (λ p. p.0) same in
            let whole : pings ≡ events = ap (λ p. p.1) same in
            let early' = rw kept at early in
            record {
              pings = pings;
              shrinks = [];
              both = sym whole ∙ sym (append-nil pings);
              ping =
                  subst
                    (λ x.
                      Due pinged 60 w.at_ping w.pinged_at s.last_ping (Running.last_ping x) pings)
                    state ping;
              shrink = inl (refl, ap (λ x. Running.last_shrink x) (sym state) ∙ kept, ground arith);
            }
        | inl due ↦
            elim (Option-cases (try_shrink_db env float w.report_clock w.shrink_clock t.gs)) [
              | inl stuck ↦ absurd (cc (rw (due, stuck, shrink_if_due) at h))
              | inr (gs, ran) ↦
                  let same = done_value (rw (due, ran, shrink_if_due) at h) in
                  let state : record t { gs = gs; last_shrink = w.shrunk_at } ≡ s' =
                    ap (λ p. p.0) same in
                  let whole : pings ++ shrunk w.shrunk_at ∷ [] ≡ events = ap (λ p. p.1) same in
                  let due' = rw kept at due in
                  record {
                    pings = pings;
                    shrinks = shrunk w.shrunk_at ∷ [];
                    both = sym whole;
                    ping =
                        subst
                          (λ x.
                            Due pinged 60 w.at_ping w.pinged_at s.last_ping (Running.last_ping x)
                              pings)
                          state ping;
                    shrink = inr (refl, ap (λ x. Running.last_shrink x) (sym state), ground arith);
                  }
            ]
      ]

  pub turn-IsTurn :
      (w : Turn env float pkg ssl actix) (s : Running env float pkg ssl actix)
      {s' : Running env float pkg ssl actix} {events : List Event}
      → turn env float pkg ssl actix w s ≡ done (s', events)
      → IsTurn w s s' events
  unfolding turn
  turn-IsTurn w s {s'} {events} h =
      let before : State = record s { gs = w.meanwhile s.gs } in
      let run =
        shrink_if_due-IsTurn w before (ping_if_due env float pkg ssl actix w before)
          (λ t pings e. ping_if_due-Pings w before e) h in
      record {
        pings = run.pings;
        shrinks = run.shrinks;
        both = run.both;
        ping = run.ping;
        shrink = run.shrink;
      }

  -- A turn whose ping was due has pinged less than a minute before its reading of the clock; so has
  -- some turn before, if it was not due any more.
  pub turn-recent :
      (w : Turn env float pkg ssl actix) (s s' : State) (events : List Event)
      → w.at_ping ≤ w.pinged_at
      → IsTurn w s s' events
      → secs w.at_ping s'.last_ping < 60
  turn-recent w s s' events order t = ground (arith, t.ping)

  -- The last ping is that of an event, or none was made.
  pub turn-last_ping :
      (w : Turn env float pkg ssl actix) (s s' : State) (events : List Event)
      → IsTurn w s s' events
      → (s'.last_ping ≡ s.last_ping) ⊎ Any (λ e. e ≡ pinged s'.last_ping) events
  turn-last_ping w s s' events t = elim t.ping [
    | inl (_, same, _) ↦ inl same
    | inr (one, at, _) ↦ inr (
        subst (Any (λ e. e ≡ pinged s'.last_ping)) (sym t.both) (
          subst (λ ps. Any (λ e. e ≡ pinged s'.last_ping) (ps ++ t.shrinks)) (sym one)
            (inl (ap pinged (sym at)))))
  ]
