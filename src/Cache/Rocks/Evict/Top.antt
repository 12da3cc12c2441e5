-- ===== src/Cache/Rocks/Evict/Top.antt =====
-- src/cache/rocks.rs, `find_top_entries`: which entries a queue holds.
use Prim.Native.Nat.{min}
use scalpel.Common.{
  ℕ, suc, ◌+◌, ◌≤◌, Bytes, false, List, [], ◌∷◌, ◌++◌, length, none, some, ltb, ◌≡◌, refl, ap, ◌∙◌,
  arith, bytes_eq, bytes_eq_iff, bytes_eq_refl, All, Bool-cases, inl, inr, length-append,
  All-append,
}
use scalpel.Common.Assoc.{lookup, Distinct}
use scalpel.Cache.Rocks.Evict.{Item, Comparator, is_gt, replace_first, keep, keep_all, insert, sort}

-- The items stand in `es`.
abbrev pub From : List Item → List Item → Type 0
From es q = All (λ x. lookup x.0 es ≡ some x.1) q

absent-append :
    (j : Bytes) (x : Item) (l : List Item)
    → lookup j l ≡ none
    → bytes_eq x.0 j ≡ false
    → lookup j (l ++ x ∷ []) ≡ none
unfolding lookup
absent-append j x [] h n = rw n
absent-append j x (y ∷ l) h n = ground (arith, absent-append j x l)

append-Distinct :
    (acc : List Item) (x : Item) → lookup x.0 acc ≡ none → Distinct acc → Distinct (acc ++ x ∷ [])
unfolding lookup
append-Distinct [] x fresh d = (refl, tt)
append-Distinct (y ∷ acc) x fresh d = (
  absent-append y.0 x acc d.0 (ground (arith, bytes_eq_iff y.0 x.0, bytes_eq_iff x.0 y.0)),
  append-Distinct acc x (ground arith) d.1,
)

absent_of_All :
    (x : Item) (es acc : List Item)
    → All (λ a. lookup a.0 (x ∷ es) ≡ none) acc
    → (lookup x.0 acc ≡ none) × All (λ a. lookup a.0 es ≡ none) acc
unfolding lookup
absent_of_All x es [] h = (refl, tt)
absent_of_All x es (a ∷ acc) h =
    let (fresh, rest) = absent_of_All x es acc h.1 in
    let other = h.0 in
    (ground (arith, bytes_eq_iff a.0 x.0, bytes_eq_iff x.0 a.0), (ground arith, rest))

module _ (comparator : Comparator) where
  length-replace_first :
      (x : Item) (l : List Item) → length (replace_first comparator x l) ≡ length l
  unfolding replace_first
  length-replace_first x [] = refl
  length-replace_first x (y ∷ l) = ground (arith, length-replace_first x l)

  absent-replace_first :
      (j : Bytes) (x : Item) (l : List Item)
      → lookup j l ≡ none
      → bytes_eq x.0 j ≡ false
      → lookup j (replace_first comparator x l) ≡ none
  unfolding replace_first lookup
  absent-replace_first j x [] h n = refl
  absent-replace_first j x (y ∷ l) h n = ground (arith, absent-replace_first j x l)

  replace_first-Distinct :
      (x : Item) (l : List Item)
      → lookup x.0 l ≡ none
      → Distinct l
      → Distinct (replace_first comparator x l)
  unfolding replace_first lookup
  replace_first-Distinct x [] fresh d = tt
  replace_first-Distinct x (y ∷ l) fresh d = elim (Bool-cases (is_gt (comparator x.1 y.1))) [
    | inl better ↦ rw better (ground arith, d.1)
    | inr worse ↦ rw worse (
      absent-replace_first y.0 x l d.0 (ground (arith, bytes_eq_iff x.0 y.0, bytes_eq_iff y.0 x.0)),
      replace_first-Distinct x l (ground arith) d.1,
    )
  ]

  replace_first-All :
      (P : Item → Type 0) (x : Item) (l : List Item)
      → P x
      → All P l
      → All P (replace_first comparator x l)
  unfolding replace_first
  replace_first-All P x [] hx h = tt
  replace_first-All P x (y ∷ l) hx h = elim (Bool-cases (is_gt (comparator x.1 y.1))) [
    | inl better ↦ rw better (hx, h.1)
    | inr worse ↦ rw worse (h.0, replace_first-All P x l hx h.1)
  ]

  absent-insert :
      (j : Bytes) (x : Item) (l : List Item)
      → lookup j l ≡ none
      → bytes_eq x.0 j ≡ false
      → lookup j (insert comparator x l) ≡ none
  unfolding insert lookup
  absent-insert j x [] h n = ground arith
  absent-insert j x (y ∷ l) h n = ground (arith, absent-insert j x l)

  insert-Distinct :
      (x : Item) (l : List Item)
      → lookup x.0 l ≡ none
      → Distinct l
      → Distinct (insert comparator x l)
  unfolding insert lookup
  insert-Distinct x [] fresh d = (refl, tt)
  insert-Distinct x (y ∷ l) fresh d = elim (Bool-cases (is_gt (comparator y.1 x.1))) [
    | inl later ↦ rw later (
      absent-insert y.0 x l d.0 (ground (arith, bytes_eq_iff x.0 y.0, bytes_eq_iff y.0 x.0)),
      insert-Distinct x l (ground arith) d.1,
    )
    | inr here ↦ rw here (fresh, d)
  ]

  insert-All :
      (P : Item → Type 0) (x : Item) (l : List Item) → P x → All P l → All P (insert comparator x l)
  unfolding insert
  insert-All P x [] hx h = (hx, tt)
  insert-All P x (y ∷ l) hx h = elim (Bool-cases (is_gt (comparator y.1 x.1))) [
    | inl later ↦ rw later (h.0, insert-All P x l hx h.1)
    | inr here ↦ rw here (hx, h)
  ]

  length-insert : (x : Item) (l : List Item) → length (insert comparator x l) ≡ suc (length l)
  unfolding insert
  length-insert x [] = refl
  length-insert x (y ∷ l) = ground (arith, length-insert x l)

  length-sort : (l : List Item) → length (sort comparator l) ≡ length l
  unfolding sort
  length-sort [] = refl
  length-sort (x ∷ l) = length-insert x (sort comparator l) ∙ ap suc (length-sort l)

  pub absent-sort :
      (j : Bytes) (l : List Item) → lookup j l ≡ none → lookup j (sort comparator l) ≡ none
  unfolding sort lookup
  absent-sort j [] h = refl
  absent-sort j (x ∷ l) h =
      absent-insert j x (sort comparator l) (absent-sort j l (ground arith)) (ground arith)

  sort-Distinct : (l : List Item) → Distinct l → Distinct (sort comparator l)
  unfolding sort
  sort-Distinct [] d = tt
  sort-Distinct (x ∷ l) d =
      insert-Distinct x (sort comparator l) (absent-sort x.0 l d.0) (sort-Distinct l d.1)

  sort-All : (P : Item → Type 0) (l : List Item) → All P l → All P (sort comparator l)
  unfolding sort
  sort-All P [] h = tt
  sort-All P (x ∷ l) h = insert-All P x (sort comparator l) h.0 (sort-All P l h.1)

  module _ (n : ℕ) where
    keep-All :
        (P : Item → Type 0) (acc : List Item) (x : Item)
        → P x
        → All P acc
        → All P (keep n comparator acc x)
    unfolding keep
    keep-All P acc x hx h = elim (Bool-cases (ltb (length acc) n)) [
      | inl room ↦ rw room (All-append P acc (x ∷ []) h (hx, tt))
      | inr full ↦ rw full (replace_first-All P x acc hx h)
    ]

    keep-Distinct :
        (acc : List Item) (x : Item)
        → lookup x.0 acc ≡ none
        → Distinct acc
        → Distinct (keep n comparator acc x)
    unfolding keep
    keep-Distinct acc x fresh d = elim (Bool-cases (ltb (length acc) n)) [
      | inl room ↦ rw room (append-Distinct acc x fresh d)
      | inr full ↦ rw full (replace_first-Distinct x acc fresh d)
    ]

    length-keep :
        (acc : List Item) (x : Item)
        → length acc ≤ n
        → length (keep n comparator acc x) ≡ min n (length acc + 1)
    unfolding keep
    length-keep acc x h = ground (arith, length-append acc (x ∷ []), length-replace_first x acc)

    length-keep_all :
        (es acc : List Item)
        → length acc ≤ n
        → length (keep_all n comparator es acc) ≡ min n (length acc + length es)
    unfolding keep_all
    length-keep_all [] acc h = omega arith
    length-keep_all (x ∷ es) acc h = omega (
      arith,
      length-keep acc x h,
      length-keep_all es (keep n comparator acc x) (omega (arith, length-keep acc x h)),
    )

    keep_all-All :
        (P : Item → Type 0) (es acc : List Item)
        → All P es
        → All P acc
        → All P (keep_all n comparator es acc)
    unfolding keep_all
    keep_all-All P [] acc he ha = ha
    keep_all-All P (x ∷ es) acc he ha =
        keep_all-All P es (keep n comparator acc x) he.1 (keep-All P acc x he.0 ha)

    keep_all-Distinct :
        (es acc : List Item)
        → Distinct es
        → Distinct acc
        → All (λ a. lookup a.0 es ≡ none) acc
        → Distinct (keep_all n comparator es acc)
    unfolding keep_all
    keep_all-Distinct [] acc de da h = da
    keep_all-Distinct (x ∷ es) acc de da h =
        let (fresh, rest) = absent_of_All x es acc h in
        keep_all-Distinct es (keep n comparator acc x) de.1 (keep-Distinct acc x fresh da)
          (keep-All (λ a. lookup a.0 es ≡ none) acc x de.0 rest)

-- The queue that `find_top_entries` returns for the readable entries `es`.
unfoldable pub top : ℕ → Comparator → List Item → List Item
top n comparator es = sort comparator (keep_all n comparator es [])

From-cons :
    (x : Item) (es q : List Item)
    → All (λ y. lookup y.0 es ≡ some y.1) q
    → lookup x.0 es ≡ none
    → From (x ∷ es) q
unfolding lookup
From-cons x es [] h fresh = tt
From-cons x es (y ∷ q) h fresh =
    (ground (arith, h.0, bytes_eq_iff x.0 y.0), From-cons x es q h.1 fresh)

Distinct-From : (es : List Item) → Distinct es → From es es
unfolding lookup
Distinct-From [] d = tt
Distinct-From (x ∷ es) d = (rw (bytes_eq_refl x.0), From-cons x es es (Distinct-From es d.1) d.0)

-- A queue holds as many entries as there are, up to `n`, each of them one of the given ones, and
-- none twice.
pub top-From :
    (n : ℕ) (comparator : Comparator) (es : List Item)
    → Distinct es
    → (length (top n comparator es) ≡ min n (length es))
      × Distinct (top n comparator es)
      × From es (top n comparator es)
unfolding top
top-From n comparator es d =
    let kept = keep_all n comparator es [] in
    (
      omega (arith, length-sort comparator kept, length-keep_all comparator n es [] (omega arith)),
      sort-Distinct comparator kept (keep_all-Distinct comparator n es [] d tt tt),
      sort-All comparator (λ x. lookup x.0 es ≡ some x.1) kept
          (keep_all-All comparator n (λ x. lookup x.0 es ≡ some x.1) es [] (Distinct-From es d) tt),
    )
