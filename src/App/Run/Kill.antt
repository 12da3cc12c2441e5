-- ===== src/App/Run/Kill.antt =====
-- src/main.rs: the main loop ends when it sees the kill flag.
use scalpel.Common.{
  ℕ, zero, suc, ◌+◌, ◌≤◌, ◌<◌, Bool, true, false, List, [], ◌∷◌, Option, some, ◌≡◌, refl, subst,
  inl, inr, arith, Bool-cases,
}
use scalpel.Utils.{Package}
use scalpel.State.{Env}
use scalpel.Http.Acceptor.{OpenSsl}
use scalpel.Http.Lifecycle.{ActixApi}
use scalpel.App.Run.{F64, Event, Ran, done, panicked, hung, Running, Turn, turn}
use scalpel.App.Run.Loop.{run_turns, and_then_run, and_loop, main_loop}

-- Turn `n + j` is the first one from `n` on that reads a set flag.
pub record IsFirst (killed : ℕ → Bool) (n j : ℕ) : Type 0 where
  pub set : killed (n + j) ≡ true
  pub unset : (i : ℕ) → i < j → killed (n + i) ≡ false

moved : (killed : ℕ → Bool) (n i : ℕ) (b : Bool) → killed (n + 1 + i) ≡ b → killed (n + (i + 1)) ≡ b
moved killed n i b h = subst (λ m. killed m ≡ b) (omega arith) h

-- A flag that is set at some turn is set at a first one.
pub IsFirst-exists :
    (killed : ℕ → Bool) (n k : ℕ) → killed (n + k) ≡ true → (j : ℕ) × (j ≤ k) × IsFirst killed n j
IsFirst-exists killed n zero h =
    (0, omega arith, record { set = h; unset = λ i below. absurd (omega (arith, below)) })
IsFirst-exists killed n (suc k) h = elim (Bool-cases (killed n)) [
  | inl now ↦ (
    0,
    omega arith,
    record {
      set = subst (λ m. killed m ≡ true) (omega arith) now;
      unset = λ i below. absurd (omega (arith, below));
    },
  )
  | inr later ↦
      let (j, within, first) =
        IsFirst-exists killed (n + 1) k (subst (λ m. killed m ≡ true) (omega arith) h) in
      (
        j + 1,
        omega (arith, within),
        record { set = moved killed n j true first.set; unset = before j later first.unset },
      )
]
  where
    before :
        (j : ℕ)
        → killed n ≡ false
        → ((i : ℕ) → i < j → killed (n + 1 + i) ≡ false)
        → (i : ℕ) → i < j + 1
        → killed (n + i) ≡ false
    before j later rest zero below = subst (λ m. killed m ≡ false) (omega arith) later
    before j later rest (suc i) below =
        subst (λ m. killed m ≡ false) (omega arith) (rest i (omega (arith, below)))

module _ (env : Env) (float : F64) (pkg : Package) (ssl : OpenSsl) (actix : ActixApi ssl) where
  abbrev State : Type 0
  State = Running env float pkg ssl actix

  abbrev Outcomes : Type 0
  Outcomes = Ran (State × List Event)

  -- The first `j` turns from `n` on.
  abbrev pub turns_from :
      (ℕ → Turn env float pkg ssl actix) → ℕ → ℕ → List (Turn env float pkg ssl actix)
  turns_from turns n zero = []
  turns_from turns n (suc j) = turns n ∷ turns_from turns (n + 1) j

  and_loop-some :
      (r : Outcomes) (f : State → Option Outcomes) (g : State → Outcomes)
      → ((s : State) → f s ≡ some (g s))
      → and_loop env float pkg ssl actix r f ≡ some (and_then_run env float pkg ssl actix r g)
  unfolding and_loop and_then_run
  and_loop-some panicked f g h = refl
  and_loop-some hung f g h = refl
  and_loop-some (done (s, events)) f g h = go (g s) (h s)
    where
      go :
          (r : Outcomes)
          → f s ≡ some r
          → and_loop env float pkg ssl actix (done (s, events)) f
            ≡ some (and_then_run env float pkg ssl actix (done (s, events)) (λ _. r))
      go panicked e = rw (e, and_loop) refl
      go hung e = rw (e, and_loop) refl
      go (done p) e = rw (e, and_loop) refl

  module _ (killed : ℕ → Bool) (turns : ℕ → Turn env float pkg ssl actix) where
    main_loop-first :
        (j fuel n : ℕ) (s : State)
        → j ≤ fuel
        → IsFirst killed n j
        → main_loop env float pkg ssl actix killed turns (suc fuel) n s
          ≡ some (run_turns env float pkg ssl actix (turns_from turns n j) s)
    unfolding main_loop run_turns
    main_loop-first zero fuel n s enough h =
        let now : killed n ≡ true = subst (λ m. killed m ≡ true) (omega arith) h.set in
        rw (now, main_loop) refl
    main_loop-first (suc j) zero n s enough h = absurd (omega (arith, enough))
    main_loop-first (suc j) (suc fuel) n s enough h =
        let on : killed n ≡ false =
          subst (λ m. killed m ≡ false) (omega arith) (h.unset 0 (omega arith)) in
        let later : IsFirst killed (n + 1) j = record {
          set = subst (λ m. killed m ≡ true) (omega arith) h.set;
          unset = λ i below.
              subst (λ m. killed m ≡ false) (omega arith) (h.unset (i + 1) (omega (arith, below)));
        } in
        rw (on, main_loop)
          (and_loop-some (turn env float pkg ssl actix (turns n) s)
            (main_loop env float pkg ssl actix killed turns (suc fuel) (n + 1))
            (run_turns env float pkg ssl actix (turns_from turns (n + 1) j))
            (λ t. main_loop-first j fuel (n + 1) t (omega (arith, enough)) later))

    -- If the kill flag is set by turn `k`, the loop ends within `k` turns: it makes exactly the turns
    -- before the first one that reads the flag as set, and none after.
    pub main_loop-stops :
        (k : ℕ) (s : Running env float pkg ssl actix)
        → killed k ≡ true
        → (j : ℕ) × (j ≤ k)
          × IsFirst killed 0 j
          × (main_loop env float pkg ssl actix killed turns (suc k) 0 s
              ≡ some (run_turns env float pkg ssl actix (turns_from turns 0 j) s))
    main_loop-stops k s h =
        let (j, within, first) =
          IsFirst-exists killed 0 k (subst (λ m. killed m ≡ true) (omega arith) h) in
        (j, within, first, main_loop-first j k 0 s within first)
