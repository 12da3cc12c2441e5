-- ===== src/Cache/Rocks/Evict/Oldest.antt =====
-- src/cache/rocks.rs: a queue starts with the oldest entry, and need not hold the next oldest.

use scalpel.Common.{
  ℕ, ◌+◌, ◌≤◌, ◌<◌, List, [], ◌∷◌, ◌++◌, length, none, ltb, ◌≡◌, refl, sym, ap, ◌∙◌, arith, All,
  Any, Any-middle, Bool-cases, inl, inr, length-append, subst, append-nil, append_assoc, lt→ltb,
}
use scalpel.Common.Assoc.{lookup, Distinct}
use scalpel.Cache.Rocks.Evict.{Item, is_gt, replace_first, keep, keep_all, insert, sort, older}
use scalpel.Cache.Rocks.Evict.Top.{top, absent-sort}

abbrev pub time : Item → ℕ
time x = x.1.save_time

-- Some item is as old as `t`.
abbrev AsOld : ℕ → List Item → Type 0
AsOld t = Any (λ x. time x ≤ t)

Any-append : (t : ℕ) (xs ys : List Item) → AsOld t xs → AsOld t (xs ++ ys)
Any-append t (x ∷ xs) ys (inl h) = inl h
Any-append t (x ∷ xs) ys (inr h) = inr (Any-append t xs ys h)
Any-append t [] ys h = absurd h

replace_first-AsOld :
    (t : ℕ) (x : Item) (l : List Item) → AsOld t l → AsOld t (replace_first older x l)
unfolding replace_first
replace_first-AsOld t x (y ∷ l) (inl e) = elim (Bool-cases (is_gt (older x.1 y.1))) [
  | inl better ↦ rw better (inl (ground arith))
  | inr worse ↦ rw worse (inl e)
]
replace_first-AsOld t x (y ∷ l) (inr e) = elim (Bool-cases (is_gt (older x.1 y.1))) [
  | inl better ↦ rw better (inr e)
  | inr worse ↦ rw worse (inr (replace_first-AsOld t x l e))
]
replace_first-AsOld t x [] h = absurd h

-- What is offered to a full list is either taken, or there is something as old.
replace_first_offered :
    (x : Item) (l : List Item) → 0 < length l → AsOld (time x) (replace_first older x l)
unfolding replace_first
replace_first_offered x (y ∷ l) h = elim (Bool-cases (is_gt (older x.1 y.1))) [
  | inl better ↦ rw better (inl (omega arith))
  | inr worse ↦ rw worse (inl (ground arith))
]
replace_first_offered x [] h = absurd (omega arith)

module _ (n : ℕ) where
  keep-AsOld : (t : ℕ) (acc : List Item) (x : Item) → AsOld t acc → AsOld t (keep n older acc x)
  unfolding keep
  keep-AsOld t acc x h = elim (Bool-cases (ltb (length acc) n)) [
    | inl room ↦ rw room (Any-append t acc (x ∷ []) h)
    | inr full ↦ rw full (replace_first-AsOld t x acc h)
  ]

  keep_offered : (acc : List Item) (x : Item) → 0 < n → AsOld (time x) (keep n older acc x)
  unfolding keep
  keep_offered acc x h = elim (Bool-cases (ltb (length acc) n)) [
    | inl room ↦ rw room (Any-middle (λ y. time y ≤ time x) acc [] (omega arith))
    | inr full ↦ rw full (replace_first_offered x acc (ground arith))
  ]

  keep_all-AsOld : (t : ℕ) (es acc : List Item) → AsOld t acc → AsOld t (keep_all n older es acc)
  unfolding keep_all
  keep_all-AsOld t [] acc h = h
  keep_all-AsOld t (x ∷ es) acc h = keep_all-AsOld t es (keep n older acc x) (keep-AsOld t acc x h)

  keep_all_offered :
      (es acc : List Item) → 0 < n → All (λ x. AsOld (time x) (keep_all n older es acc)) es
  unfolding keep_all
  keep_all_offered [] acc h = tt
  keep_all_offered (x ∷ es) acc h = (
    keep_all-AsOld (time x) es (keep n older acc x) (keep_offered acc x h),
    keep_all_offered es (keep n older acc x) h,
  )

-- In order of age, the oldest first.
abbrev pub IsSorted : List Item → Type 0
IsSorted [] = Unit
IsSorted (x ∷ xs) = All (λ y. time x ≤ time y) xs × IsSorted xs

All-weaken :
    (a b : ℕ) (xs : List Item) → a ≤ b → All (λ y. b ≤ time y) xs → All (λ y. a ≤ time y) xs
All-weaken a b [] le h = tt
All-weaken a b (x ∷ xs) le h = (omega (arith, h.0), All-weaken a b xs le h.1)

insert-le :
    (a : ℕ) (x : Item) (l : List Item)
    → a ≤ time x
    → All (λ y. a ≤ time y) l
    → All (λ y. a ≤ time y) (insert older x l)
unfolding insert
insert-le a x [] hx h = (hx, tt)
insert-le a x (y ∷ l) hx h = elim (Bool-cases (is_gt (older y.1 x.1))) [
  | inl later ↦ rw later (h.0, insert-le a x l hx h.1)
  | inr here ↦ rw here (hx, h)
]

insert-IsSorted : (x : Item) (l : List Item) → IsSorted l → IsSorted (insert older x l)
unfolding insert
insert-IsSorted x [] s = (tt, tt)
insert-IsSorted x (y ∷ l) s = elim (Bool-cases (is_gt (older y.1 x.1))) [
  | inl later ↦ rw later (insert-le (time y) x l (ground arith) s.0, insert-IsSorted x l s.1)
  | inr here ↦ rw here ((ground arith, All-weaken (time x) (time y) l (ground arith) s.0), s)
]

sort-IsSorted : (l : List Item) → IsSorted (sort older l)
unfolding sort
sort-IsSorted [] = tt
sort-IsSorted (x ∷ l) = insert-IsSorted x (sort older l) (sort-IsSorted l)

insert_here : (t : ℕ) (x : Item) (l : List Item) → time x ≤ t → AsOld t (insert older x l)
unfolding insert
insert_here t x [] h = inl h
insert_here t x (y ∷ l) h = elim (Bool-cases (is_gt (older y.1 x.1))) [
  | inl later ↦ rw later (inr (insert_here t x l h))
  | inr here ↦ rw here (inl h)
]

insert-AsOld : (t : ℕ) (x : Item) (l : List Item) → AsOld t l → AsOld t (insert older x l)
unfolding insert
insert-AsOld t x [] h = absurd h
insert-AsOld t x (y ∷ l) (inl e) = elim (Bool-cases (is_gt (older y.1 x.1))) [
  | inl later ↦ rw later (inl e)
  | inr here ↦ rw here (inr (inl e))
]
insert-AsOld t x (y ∷ l) (inr e) = elim (Bool-cases (is_gt (older y.1 x.1))) [
  | inl later ↦ rw later (inr (insert-AsOld t x l e))
  | inr here ↦ rw here (inr (inr e))
]

sort-AsOld : (t : ℕ) (l : List Item) → AsOld t l → AsOld t (sort older l)
unfolding sort
sort-AsOld t (x ∷ l) (inl h) = insert_here t x (sort older l) h
sort-AsOld t (x ∷ l) (inr h) = insert-AsOld t x (sort older l) (sort-AsOld t l h)
sort-AsOld t [] h = absurd h

le_of_AsOld : (a t : ℕ) (l : List Item) → All (λ y. a ≤ time y) l → AsOld t l → a ≤ t
le_of_AsOld a t (x ∷ l) h (inl e) = omega (arith, h.0)
le_of_AsOld a t (x ∷ l) h (inr e) = le_of_AsOld a t l h.1 e
le_of_AsOld a t [] h e = absurd e

All-cons :
    (x : Item) (l kept es : List Item)
    → IsSorted (x ∷ l)
    → All (λ y. AsOld (time y) (x ∷ l)) es
    → All (λ y. time x ≤ time y) es
All-cons x l kept [] s h = tt
All-cons x l kept (y ∷ es) s h =
    (le_of_AsOld (time x) (time y) (x ∷ l) (omega arith, s.0) h.0, All-cons x l kept es s h.1)

All-sort :
    (kept es : List Item)
    → All (λ y. AsOld (time y) kept) es
    → All (λ y. AsOld (time y) (sort older kept)) es
All-sort kept [] h = tt
All-sort kept (y ∷ es) h = (sort-AsOld (time y) kept h.0, All-sort kept es h.1)

-- A queue is in order of age, and its first entry is an oldest one of all entries.
pub top-oldest :
    (n : ℕ) (es q : List Item) (x : Item)
    → 0 < n
    → top n older es ≡ x ∷ q
    → IsSorted (x ∷ q) × All (λ y. time x ≤ time y) es
unfolding top
top-oldest n es q x pos h =
    let kept = keep_all n older es [] in
    let sorted = subst IsSorted h (sort-IsSorted kept) in
    let old =
      subst (λ l. All (λ y. AsOld (time y) l) es) h
        (All-sort kept es (keep_all_offered n es [] pos)) in
    (sorted, All-cons x q kept es sorted old)

keep_all_room :
    (n : ℕ) (es acc : List Item) → length acc + length es ≤ n → keep_all n older es acc ≡ acc ++ es
unfolding keep_all keep
keep_all_room n [] acc h = sym (append-nil acc)
keep_all_room n (x ∷ es) acc h = rw (lt→ltb (length acc) n (omega arith)) (
    keep_all_room n es (acc ++ x ∷ []) (omega (arith, length-append acc (x ∷ [])))
    ∙ append_assoc acc (x ∷ []) es)

keep_all-append :
    (n : ℕ) (es fs acc : List Item)
    → keep_all n older (es ++ fs) acc ≡ keep_all n older fs (keep_all n older es acc)
unfolding keep_all
keep_all-append n [] fs acc = refl
keep_all-append n (x ∷ es) fs acc = keep_all-append n es fs (keep n older acc x)

replaces :
    (n : ℕ) (x y : Item) (ys : List Item)
    → length (y ∷ ys) ≡ n
    → time x < time y
    → keep_all n older (x ∷ []) (y ∷ ys) ≡ x ∷ ys
unfolding keep_all keep replace_first
replaces n x y ys full lt = ground arith

absent_swap :
    (y x : Item) (ys : List Item) → lookup y.0 (ys ++ x ∷ []) ≡ none → lookup y.0 (x ∷ ys) ≡ none
unfolding lookup
absent_swap y x [] h = h
absent_swap y x (z ∷ ys) h = ground (arith, absent_swap y x ys)

-- When a full queue `y ∷ ys` is offered an older entry, it gives up `y`, even if `y` is older than
-- all of `ys`: of the entries `y ∷ ys ++ x ∷ []` the queue does not hold `y`.
pub top_forgets :
    (n : ℕ) (x y : Item) (ys : List Item)
    → Distinct (y ∷ ys ++ x ∷ [])
    → length (y ∷ ys) ≡ n
    → time x < time y
    → lookup y.0 (top n older (y ∷ ys ++ x ∷ [])) ≡ none
unfolding top
top_forgets n x y ys d full lt =
    let filled = keep_all_room n (y ∷ ys) [] (omega arith) in
    let kept : keep_all n older (y ∷ ys ++ x ∷ []) [] ≡ x ∷ ys =
      keep_all-append n (y ∷ ys) (x ∷ []) []
      ∙ (ap (keep_all n older (x ∷ [])) filled ∙ replaces n x y ys full lt) in
    rw kept (absent-sort older y.0 (x ∷ ys) (absent_swap y x ys d.0))
