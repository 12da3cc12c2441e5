-- ===== src/Cache/Contract.antt =====
-- src/cache/mod.rs, `trait ImageCache`: an engine as a map from the bytes of keys to entries that
-- may lose entries at any report or shrink, and histories of calls on an engine.
use scalpel.Common.{
  ℕ, Str, Bytes, Bool, true, false, List, [], ◌∷◌, Result, Option, none, some, if◌then◌else◌, ◌≡◌,
  refl, sym, ap, ◌∙◌, subst, ◌⊎◌, inl, inr, Bool-cases, bytes_eq, bytes_eq_refl, Option-cases,
}
use scalpel.Utils.{SystemTime}
use scalpel.Cache.Key.{ImageKey, Sha256, as_bkey}
use scalpel.Cache.Entry.{ImageEntry}
use scalpel.Cache.Entry
use scalpel.Cache.Api.{ImageCache, IsStore}

-- What stands under a key was kept, or is gone.
abbrev pub Kept : Option ImageEntry → Option ImageEntry → Type 0
Kept before after = (after ≡ before) ⊎ (after ≡ none)

pub Kept-trans : (a b c : Option ImageEntry) → Kept a b → Kept b c → Kept a c
Kept-trans a b c (inl p) (inl q) = inl (q ∙ p)
Kept-trans a b c (inr p) (inl q) = inr (q ∙ p)
Kept-trans a b c p (inr q) = inr q

-- `content` is what the engine holds: the map that its methods act on.
pub record IsMap (sha : Sha256) (engine : ImageCache) : Type 0 where
  pub content : ImageCache.Cache engine → Bytes → Option ImageEntry
  -- What is found is what is held; a load may also find nothing, after an error.
  pub load-content :
      (key : ImageKey) (c : ImageCache.Cache engine) {entry : ImageEntry}
      → (engine.load key c).0 ≡ some entry
      → content c (as_bkey sha key) ≡ some entry
  pub content-load :
      (key : ImageKey) (c : ImageCache.Cache engine) (k : Bytes)
      → content (engine.load key c).1 k ≡ content c k
  -- A save that succeeds is an insertion.
  pub content-save :
      (t : SystemTime) (key : ImageKey) (mime_type : Str) (bytes : Bytes)
      (c : ImageCache.Cache engine) (k : Bytes)
      → (engine.save t key mime_type bytes c).0 ≡ true
      → content (engine.save t key mime_type bytes c).1 k ≡ (
          if bytes_eq (as_bkey sha key) k
          then some (Entry.new sha bytes mime_type t)
          else content c k)
  -- A save that fails may leave anything under its key, and nothing new elsewhere.
  pub content-save_other :
      (t : SystemTime) (key : ImageKey) (mime_type : Str) (bytes : Bytes)
      (c : ImageCache.Cache engine) (k : Bytes)
      → bytes_eq (as_bkey sha key) k ≡ false
      → content (engine.save t key mime_type bytes c).1 k ≡ content c k
  pub content-report :
      (clock : ℕ → SystemTime) (c : ImageCache.Cache engine) (k : Bytes)
      → Kept (content c k) (content (engine.report clock c).1 k)
  pub content-shrink :
      (clock : ℕ → SystemTime) (min : ℕ) (c : ImageCache.Cache engine) (k : Bytes)
      {r : Result ℕ (Unit {0})} {c' : ImageCache.Cache engine}
      → engine.shrink clock min c ≡ some (r, c')
      → Kept (content c k) (content c' k)

pub data Call : Type 0 where
  load : ImageKey → Call
  save : SystemTime → ImageKey → Str → Bytes → Call
  report : (ℕ → SystemTime) → Call
  shrink : (ℕ → SystemTime) → ℕ → Call

module _ (sha : Sha256) (engine : ImageCache) where
  -- For each key, the only entry that may be found there, if the history says one.
  abbrev pub Known : Type 0
  Known = Bytes → Option ImageEntry

  -- What is known after a save: the entry if it succeeded, nothing if it did not.
  unfoldable pub saved : Bool → Bytes → ImageEntry → Known → Known
  saved done k entry known j = if bytes_eq k j then (if done then some entry else none) else known j

  unfoldable pub shrunk :
      Known
      → Option (Result ℕ (Unit {0}) × ImageCache.Cache engine)
      → Option (ImageCache.Cache engine × Known)
  shrunk known none = none
  shrunk known (some (r, c)) = some (c, known)

  unfoldable pub step :
      Call → ImageCache.Cache engine → Known → Option (ImageCache.Cache engine × Known)
  unfolding saved shrunk
  step (load key) c known = some ((engine.load key c).1, known)
  step (save t key mime_type bytes) c known =
      let (done, c') = engine.save t key mime_type bytes c in
      some (c', saved done (as_bkey sha key) (Entry.new sha bytes mime_type t) known)
  step (report clock) c known = some ((engine.report clock c).1, known)
  step (shrink clock min) c known = shrunk known (engine.shrink clock min c)

  unfoldable pub and_run :
      (ImageCache.Cache engine → Known → Option (ImageCache.Cache engine × Known))
      → Option (ImageCache.Cache engine × Known)
      → Option (ImageCache.Cache engine × Known)
  and_run rest none = none
  and_run rest (some (c, known)) = rest c known

  -- The calls one after the other; `none` if one does not end.
  unfoldable pub run :
      List Call → ImageCache.Cache engine → Known → Option (ImageCache.Cache engine × Known)
  unfolding step and_run
  run [] c known = some (c, known)
  run (call ∷ calls) c known = and_run (run calls) (step call c known)

  -- An entry that is there is the one that is known, where one is known.
  abbrev May : Option ImageEntry → Option ImageEntry → Type 0
  May known found = (known ≡ none) ⊎ ((found ≡ none) ⊎ (found ≡ known))

  May-Kept : (known a b : Option ImageEntry) → May known a → Kept a b → May known b
  May-Kept known a b (inl u) k = inl u
  May-Kept known a b (inr h) (inr gone) = inr (inl gone)
  May-Kept known a b (inr (inl h)) (inl same) = inr (inl (same ∙ h))
  May-Kept known a b (inr (inr h)) (inl same) = inr (inr (same ∙ h))

  module _ (map : IsMap sha engine) where
    abbrev Holds : ImageCache.Cache engine → Known → Type 0
    Holds c known = (k : Bytes) → May (known k) (map.content c k)

    saved-May :
        (t : SystemTime) (key : ImageKey) (mime_type : Str) (bytes : Bytes)
        (c : ImageCache.Cache engine) (known : Known) (k : Bytes)
        → May (known k) (map.content c k)
        → May
            (saved
              (engine.save t key mime_type bytes c).0
              (as_bkey sha key)
              (Entry.new sha bytes mime_type t)
              known
              k)
            (map.content (engine.save t key mime_type bytes c).1 k)
    unfolding saved
    saved-May t key mime_type bytes c known k h = elim (Bool-cases (bytes_eq (as_bkey sha key) k)) [
      | inr other ↦
          rw other
            (subst (May (known k)) (sym (map.content-save_other t key mime_type bytes c k other)) h)
      | inl same ↦ elim (Bool-cases (engine.save t key mime_type bytes c).0) [
        | inr failed ↦ rw (same, failed) (inl refl)
        | inl done ↦
            rw (same, done)
              (inr (inr (map.content-save t key mime_type bytes c k done ∙ rw same refl)))
      ]
    ]

    shrunk-Holds :
        (known : Known) (o : Option (Result ℕ (Unit {0}) × ImageCache.Cache engine))
        (c : ImageCache.Cache engine) (clock : ℕ → SystemTime) (min : ℕ)
        {c' : ImageCache.Cache engine} {known' : Known}
        → engine.shrink clock min c ≡ o
        → Holds c known
        → shrunk known o ≡ some (c', known')
        → Holds c' known'
    unfolding shrunk
    shrunk-Holds known none c clock min run h e = absurd (cc e)
    shrunk-Holds known (some (r, c₁)) c clock min {c'} {known'} run h e =
        let same : ◌≡◌ {A = ImageCache.Cache engine × Known} (c₁, known) (c', known') = cc e in
        subst (λ p. Holds p.0 p.1) same
          (λ k.
            May-Kept (known k) (map.content c k) (map.content c₁ k) (h k)
              (map.content-shrink clock min c k run))

    step-Holds :
        (call : Call) (c : ImageCache.Cache engine) (known : Known) {c' : ImageCache.Cache engine}
        {known' : Known}
        → Holds c known
        → step call c known ≡ some (c', known')
        → Holds c' known'
    unfolding step
    step-Holds (load key) c known {c'} {known'} h e =
        let same : ◌≡◌ {A = ImageCache.Cache engine × Known} ((engine.load key c).1, known)
            (c', known') =
          cc e in
        subst (λ p. Holds p.0 p.1) same
          (λ k. subst (May (known k)) (sym (map.content-load key c k)) (h k))
    step-Holds (save t key mime_type bytes) c known {c'} {known'} h e =
        let entry = Entry.new sha bytes mime_type t in
        let ran = engine.save t key mime_type bytes c in
        let same : ◌≡◌ {A = ImageCache.Cache engine × Known}
            (ran.1, saved ran.0 (as_bkey sha key) entry known) (c', known') =
          cc e in
        subst (λ p. Holds p.0 p.1) same (λ k. saved-May t key mime_type bytes c known k (h k))
    step-Holds (report clock) c known {c'} {known'} h e =
        let same : ◌≡◌ {A = ImageCache.Cache engine × Known} ((engine.report clock c).1, known)
            (c', known') =
          cc e in
        subst (λ p. Holds p.0 p.1) same
          (λ k. May-Kept (known k) _ _ (h k) (map.content-report clock c k))
    step-Holds (shrink clock min) c known h e =
        shrunk-Holds known (engine.shrink clock min c) c clock min refl h e

    run-Holds :
        (calls : List Call) (c : ImageCache.Cache engine) (known : Known)
        {c' : ImageCache.Cache engine} {known' : Known}
        → Holds c known
        → run calls c known ≡ some (c', known')
        → Holds c' known'
    unfolding run and_run
    run-Holds [] c known {c'} {known'} h e =
        let same : ◌≡◌ {A = ImageCache.Cache engine × Known} (c, known) (c', known') = cc e in
        subst (λ p. Holds p.0 p.1) same h
    run-Holds (call ∷ calls) c known {c'} {known'} h e = elim (Option-cases (step call c known)) [
      | inl stuck ↦ absurd (cc (rw (stuck, run) at e))
      | inr ((c₁, known₁), s) ↦
          run-Holds calls c₁ known₁ {c' = c'} {known' = known'}
            (step-Holds call c known {c' = c₁} {known' = known₁} h s) (rw (s, run) at e)
    ]

    -- After any calls on an engine that refines the map, whatever stood in it before: if the last
    -- save under the bytes of a key succeeded, an image found under that key is the one it saved.
    pub found_after_calls :
        (calls : List Call) (c : ImageCache.Cache engine) (key : ImageKey) (entry : ImageEntry)
        {c' : ImageCache.Cache engine} {known : Known} {found : ImageEntry}
        → run calls c (λ _. none) ≡ some (c', known)
        → known (as_bkey sha key) ≡ some entry
        → (engine.load key c').0 ≡ some found
        → found ≡ entry
    found_after_calls calls c key entry {c'} {known} {found} ran last read =
        let there = map.load-content key c' read in
        elim (run-Holds calls c (λ _. none) (λ k. inl refl) ran (as_bkey sha key)) [
          | inl unknown ↦ absurd (cc (unknown, last))
          | inr (inl gone) ↦ absurd (cc (gone, there))
          | inr (inr same) ↦ cc (same, there, last)
        ]

    -- A map keeps the promise that requests rely on.
    pub IsMap-IsStore : IsStore sha engine
    IsMap-IsStore = record {
      load-save = λ t key mime_type bytes {c} {c'} {entry} saved found.
          let there = map.load-content key c' found in
          let held =
            map.content-save t key mime_type bytes c (as_bkey sha key) (ap (λ p. p.0) saved) in
          let same = ap (λ p. map.content p.1 (as_bkey sha key)) saved in
          cc (rw (bytes_eq_refl (as_bkey sha key)) at held, same, there);
    }
