-- ===== src/Cache/Fs/Sums.antt =====
-- Sums of the sizes that the metadata of `forceps` lists under distinct keys.
use scalpel.Common.{
  ℕ, ◌+◌, Bytes, List, [], ◌∷◌, Option, none, some, if◌then◌else◌, ◌≡◌, refl, sym, ap, ◌∙◌, arith,
  bytes_eq, bytes_eq_iff, bytes_eq_refl, inl, inr, Bool-cases,
}
use scalpel.Common.Assoc.{
  lookup, without, Distinct, without_absent, lookup-without, Distinct-without,
}
use scalpel.Cache.Fs.Db.{sum}

abbrev Sizes : Type 0
Sizes = List (Bytes × ℕ)

-- The size under a key, 0 if there is none.
abbrev pub size_at : Option ℕ → ℕ
size_at none = 0
size_at (some size) = size

sum-without_lem :
    (k : Bytes) (l : Sizes) → Distinct l → sum (without k l) + size_at (lookup k l) ≡ sum l
unfolding lookup without
sum-without_lem k [] d = refl
sum-without_lem k ((j, size) ∷ l) d =
    ground (arith, sum-without_lem k l d.1, without_absent j l d.0, bytes_eq_iff j k)

lookup-head : (k : Bytes) (size : ℕ) (l : Sizes) → lookup k ((k, size) ∷ l) ≡ some size
unfolding lookup
lookup-head k size l = ground (arith, bytes_eq_refl k)

lookup-tail :
    (k j : Bytes) (size : ℕ) (l : Sizes)
    → lookup k l ≡ none
    → lookup j l ≡ (if bytes_eq k j then none else lookup j ((k, size) ∷ l))
unfolding lookup
lookup-tail k j size l h = ground (arith, bytes_eq_iff k j)

-- Lists with the same lookups have the same sum.
same_sum :
    (l m : Sizes)
    → Distinct l
    → Distinct m
    → ((j : Bytes) → lookup j m ≡ lookup j l)
    → sum m ≡ sum l
unfolding lookup
same_sum [] [] d e h = refl
same_sum [] ((k, size) ∷ m) d e h = absurd (cc (sym (lookup-head k size m) ∙ h k))
same_sum ((k, size) ∷ l) m d e h =
    let rest = same_sum l (without k m) d.1 (Distinct-without k m e) (λ j.
      lookup-without k j m
      ∙ (ap (λ o. if bytes_eq k j then none else o) (h j) ∙ sym (lookup-tail k j size l d.0))) in
    let found = h k ∙ lookup-head k size l in
    omega (arith, rest, rw found at (sum-without_lem k m e))

-- What a write does to the sum: its size is added, and what stood under its key is taken off.
pub sum-write :
    (k : Bytes) (size : ℕ) (l m : Sizes)
    → Distinct l
    → Distinct m
    → ((j : Bytes) → lookup j m ≡ (if bytes_eq k j then some size else lookup j l))
    → sum m + size_at (lookup k l) ≡ sum l + size
sum-write k size l m d e h =
    let rest =
      same_sum (without k l) (without k m) (Distinct-without k l d) (Distinct-without k m e)
        (λ j. lookup-without k j m ∙ (hidden j ∙ sym (lookup-without k j l))) in
    let found : lookup k m ≡ some size = h k ∙ rw (bytes_eq_refl k) refl in
    omega (arith, rest, rw found at (sum-without_lem k m e), sum-without_lem k l d)
  where
    hidden :
        (j : Bytes)
        → (if bytes_eq k j then none else lookup j m) ≡ (if bytes_eq k j then none else lookup j l)
    hidden j = elim (Bool-cases (bytes_eq k j)) [
      | inl same ↦ rw (same) refl
      | inr other ↦ rw (other) (rw other at (h j))
    ]
