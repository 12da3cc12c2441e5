-- ===== src/App/Run/Turns.antt =====
-- src/main.rs: the pings over many turns of the main loop.
use scalpel.Common.{
  ℕ, ◌≤◌, ◌<◌, List, [], ◌∷◌, ◌++◌, append_assoc, ◌≡◌, refl, sym, ap, ◌∙◌, subst, ◌⊎◌, inl, inr,
  arith, Any, All,
}
use scalpel.Utils.{Package}
use scalpel.State.{Env}
use scalpel.Http.Acceptor.{OpenSsl}
use scalpel.Http.Lifecycle.{ActixApi}
use scalpel.App.Run.{
  F64, Event, pinged, shrunk, Ran, done, panicked, hung, secs, Running, Turn, turn,
}
use scalpel.App.Run.Loop.{run_turns, and_then_run}
use scalpel.App.Run.Paced.{Due, IsTurn, turn-IsTurn, turn-recent, turn-last_ping}

Any-map : (P Q : Event → Type 0) (es : List Event) → ((e : Event) → P e → Q e) → Any P es → Any Q es
Any-map P Q [] f h = h
Any-map P Q (e ∷ es) f (inl p) = inl (f e p)
Any-map P Q (e ∷ es) f (inr h) = inr (Any-map P Q es f h)

Any-left : (P : Event → Type 0) (xs ys : List Event) → Any P xs → Any P (xs ++ ys)
Any-left P [] ys h = absurd h
Any-left P (x ∷ xs) ys (inl p) = inl p
Any-left P (x ∷ xs) ys (inr h) = inr (Any-left P xs ys h)

Any-right : (P : Event → Type 0) (xs ys : List Event) → Any P ys → Any P (xs ++ ys)
Any-right P [] ys h = h
Any-right P (x ∷ xs) ys h = inr (Any-right P xs ys h)

-- Any two pings are a minute apart, the first one from `last`.
abbrev pub Spaced : ℕ → List Event → Type 0
Spaced last [] = Unit
Spaced last (pinged t ∷ es) = (60 ≤ secs t last) × Spaced t es
Spaced last (shrunk t ∷ es) = Spaced last es

module _ (env : Env) (float : F64) (pkg : Package) (ssl : OpenSsl) (actix : ActixApi ssl) where
  abbrev State : Type 0
  State = Running env float pkg ssl actix

  abbrev Turns : Type 0
  Turns = List (Turn env float pkg ssl actix)

  -- Inversion of two stretches that both ended.
  pub and_then_run-eq-done :
      (r : Ran (Running env float pkg ssl actix × List Event))
      (next : Running env float pkg ssl actix → Ran (Running env float pkg ssl actix × List Event))
      {s' : Running env float pkg ssl actix} {events : List Event}
      → and_then_run env float pkg ssl actix r next ≡ done (s', events)
      → (s₁ : Running env float pkg ssl actix) × (first more : List Event) × (r ≡ done (s₁, first))
        × (next s₁ ≡ done (s', more))
        × (events ≡ first ++ more)
  unfolding and_then_run
  and_then_run-eq-done panicked next h = absurd (cc h)
  and_then_run-eq-done hung next h = absurd (cc h)
  and_then_run-eq-done (done (s, first)) next {s'} {events} h = go (next s) refl
    where
      go :
          (r : Ran (State × List Event))
          → next s ≡ r
          → (s₁ : State) × (first₁ more : List Event) × (◌≡◌ {A = Ran (State × List Event)}
              (done (s, first))
              (done (s₁, first₁)))
            × (next s₁ ≡ done (s', more))
            × (events ≡ first₁ ++ more)
      go panicked e = absurd (cc (rw (e, and_then_run) at h))
      go hung e = absurd (cc (rw (e, and_then_run) at h))
      go (done (t, more)) e =
          let same : ◌≡◌ {A = State × List Event} (t, first ++ more) (s', events) =
            cc (rw (e, and_then_run) at h) in
          (
            s,
            first,
            more,
            refl,
            e ∙ ap (λ x. done (x, more)) (ap (λ p. p.0) same),
            sym (ap (λ p. p.1) same),
          )

  -- The last ping is that of an event, or none was made.
  run_turns-last_ping :
      (turns : Turns) (s s' : State) (events : List Event)
      → run_turns env float pkg ssl actix turns s ≡ done (s', events)
      → (s'.last_ping ≡ s.last_ping) ⊎ Any (λ e. e ≡ pinged s'.last_ping) events
  unfolding run_turns
  run_turns-last_ping [] s s' events h =
      let same : ◌≡◌ {A = State × List Event} (s, []) (s', events) = cc h in
      inl (ap (λ p. Running.last_ping p.0) (sym same))
  run_turns-last_ping (w ∷ turns) s s' events h =
      let (s₁, first, more, one, rest, whole) = and_then_run-eq-done _ _ h in
      let here =
        turn-last_ping env float pkg ssl actix w s s₁ first
          (turn-IsTurn env float pkg ssl actix w s one) in
      elim (run_turns-last_ping turns s₁ s' more rest) [
        | inr later ↦
            inr (
              subst (Any (λ e. e ≡ pinged s'.last_ping)) (sym whole) (Any-right _ first more later))
        | inl same ↦ elim here [
          | inl before ↦ inl (same ∙ before)
          | inr now ↦ inr (
              subst (Any (λ e. e ≡ pinged s'.last_ping)) (sym whole)
                (Any-left _ first more (Any-map _ _ first (λ e p. p ∙ ap pinged (sym same)) now)))
        ]
      ]

  -- After the last turn, the last ping is less than a minute before its reading of the clock.
  run_turns-recent :
      (turns : Turns) (w : Turn env float pkg ssl actix) (s s' : State) (events : List Event)
      → w.at_ping ≤ w.pinged_at
      → run_turns env float pkg ssl actix (turns ++ w ∷ []) s ≡ done (s', events)
      → secs w.at_ping s'.last_ping < 60
  unfolding run_turns
  run_turns-recent [] w s s' events order h =
      let (s₁, first, more, one, rest, whole) = and_then_run-eq-done _ _ h in
      let same : ◌≡◌ {A = State × List Event} (s₁, []) (s', more) = cc rest in
      subst (λ p. secs w.at_ping (Running.last_ping p.0) < 60) same
        (turn-recent env float pkg ssl actix w s s₁ first order
          (turn-IsTurn env float pkg ssl actix w s one))
  run_turns-recent (x ∷ turns) w s s' events order h =
      let (s₁, first, more, one, rest, whole) =
        and_then_run-eq-done (turn env float pkg ssl actix x s)
          (run_turns env float pkg ssl actix (turns ++ w ∷ [])) h in
      run_turns-recent turns w s₁ s' more order rest

  -- If at some turn of the loop a minute has passed since the last ping before the turns, then one of
  -- the turns up to it has pinged the API, less than a minute before the clock was read at that turn.
  pub run_turns-pings :
      (turns : List (Turn env float pkg ssl actix)) (w : Turn env float pkg ssl actix)
      (s s' : Running env float pkg ssl actix) (events : List Event)
      → w.at_ping ≤ w.pinged_at
      → run_turns env float pkg ssl actix (turns ++ w ∷ []) s ≡ done (s', events)
      → 60 ≤ secs w.at_ping s.last_ping
      → Any (λ e. (t : ℕ) × (e ≡ pinged t) × (secs w.at_ping t < 60)) events
  run_turns-pings turns w s s' events order h late =
      let recent = run_turns-recent turns w s s' events order h in
      elim (run_turns-last_ping (turns ++ w ∷ []) s s' events h) [
        | inl same ↦ absurd (omega (arith, rw same at recent, late))
        | inr some_ ↦ Any-map _ _ events (λ e p. (s'.last_ping, p, recent)) some_
      ]

  turn-Spaced :
      (w : Turn env float pkg ssl actix) (s s' : State) (events more : List Event)
      → w.at_ping ≤ w.pinged_at
      → IsTurn env float pkg ssl actix w s s' events
      → Spaced s'.last_ping more
      → Spaced s.last_ping (events ++ more)
  turn-Spaced w s s' events more order t rest =
      subst (λ es. Spaced s.last_ping (es ++ more)) (sym t.both)
        (subst (λ es. Spaced s.last_ping es) (sym (append_assoc t.pings t.shrinks more))
          (pings (shrinks t.shrink)))
    where
      shrinks :
          Due shrunk 300 w.at_shrink w.shrunk_at s.last_shrink s'.last_shrink t.shrinks
          → Spaced s'.last_ping (t.shrinks ++ more)
      shrinks (inl (none_, _, _)) = subst (λ es. Spaced s'.last_ping (es ++ more)) (sym none_) rest
      shrinks (inr (one, _, _)) = subst (λ es. Spaced s'.last_ping (es ++ more)) (sym one) rest

      pings :
          Spaced s'.last_ping (t.shrinks ++ more)
          → Spaced s.last_ping (t.pings ++ (t.shrinks ++ more))
      pings after = elim t.ping [
        | inl (none_, same, _) ↦
            subst (λ es. Spaced s.last_ping (es ++ (t.shrinks ++ more))) (sym none_)
              (subst (λ l. Spaced l (t.shrinks ++ more)) same after)
        | inr (one, at, late) ↦
            subst (λ es. Spaced s.last_ping (es ++ (t.shrinks ++ more))) (sym one)
              (omega (arith, order, late), subst (λ l. Spaced l (t.shrinks ++ more)) at after)
      ]

  -- However the turns fall, two pings of the loop are at least a minute apart, and the first one from
  -- the last ping before, if the clock never runs backwards within a turn.
  pub run_turns-Spaced :
      (turns : List (Turn env float pkg ssl actix)) (s s' : Running env float pkg ssl actix)
      (events : List Event)
      → All (λ (w : Turn env float pkg ssl actix). w.at_ping ≤ w.pinged_at) turns
      → run_turns env float pkg ssl actix turns s ≡ done (s', events)
      → Spaced s.last_ping events
  unfolding run_turns
  run_turns-Spaced [] s s' events order h =
      let same : ◌≡◌ {A = State × List Event} (s, []) (s', events) = cc h in
      subst (Spaced s.last_ping) (ap (λ p. p.1) same) tt
  run_turns-Spaced (w ∷ turns) s s' events order h =
      let (s₁, first, more, one, rest, whole) = and_then_run-eq-done _ _ h in
      subst (Spaced s.last_ping) (sym whole) (
        turn-Spaced w s s₁ first more order.0 (turn-IsTurn env float pkg ssl actix w s one)
          (run_turns-Spaced turns s₁ s' more order.1 rest))
