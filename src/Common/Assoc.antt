-- ===== src/Common/Assoc.antt =====
-- Lists of keys and values under byte-string keys, as a column family is iterated.

use mathlib.Core.Path.{◌≡◌, refl}
use mathlib.Core.Logic.{inl, inr}
use mathlib.Core.Option.{Option, none, some}
use mathlib.Core.List.{List, [], ◌∷◌, ◌++◌}
use native.Mathlib.Omega.{arith}
use scalpel.Common.Tests.{if◌then◌else◌, Bool-cases}
use scalpel.Common.Lists.{Bytes, bytes_eq, bytes_eq_iff, bytes_eq_refl}

module _ {ℓ} {V : Type ℓ} where
  unfoldable pub lookup : Bytes → List (Bytes × V) → Option V
  lookup k [] = none
  lookup k ((j, v) ∷ l) = if bytes_eq j k then some v else lookup k l

  unfoldable pub without : Bytes → List (Bytes × V) → List (Bytes × V)
  without k [] = []
  without k ((j, v) ∷ l) = let rest = without k l in if bytes_eq j k then rest else (j, v) ∷ rest

  -- No key stands twice.
  abbrev pub Distinct : List (Bytes × V) → Type ℓ
  Distinct [] = Unit
  Distinct ((k, v) ∷ l) = (lookup k l ≡ none) × Distinct l

  pub lookup-without :
      (k j : Bytes) (l : List (Bytes × V))
      → lookup j (without k l) ≡ (if bytes_eq k j then none else lookup j l)
  unfolding lookup without
  lookup-without k j [] = ground arith
  lookup-without k j ((i, v) ∷ l) =
      ground (arith, lookup-without k j l, bytes_eq_iff i k, bytes_eq_iff i j, bytes_eq_iff k j)

  pub without_absent : (k : Bytes) (l : List (Bytes × V)) → lookup k l ≡ none → without k l ≡ l
  unfolding lookup without
  without_absent k [] h = refl
  without_absent k ((j, v) ∷ l) h = ground (arith, without_absent k l)

  lookup-append_right :
      (k : Bytes) (p l : List (Bytes × V)) → lookup k (p ++ l) ≡ none → lookup k l ≡ none
  unfolding lookup
  lookup-append_right k [] l h = h
  lookup-append_right k ((j, v) ∷ p) l h = ground (arith, lookup-append_right k p l)

  -- In a list of distinct keys the first entry of a key is the only one.
  pub without-middle :
      (p r : List (Bytes × V)) (k : Bytes) (v : V)
      → Distinct (p ++ (k, v) ∷ r)
      → without k (p ++ (k, v) ∷ r) ≡ p ++ r
  unfolding lookup without
  without-middle [] r k v d = ground (arith, bytes_eq_refl k, without_absent k r)
  without-middle ((j, w) ∷ p) r k v d = ground (
    arith,
    without-middle p r k v,
    lookup-append_right j p ((k, v) ∷ r),
    bytes_eq_refl k,
    bytes_eq_iff j k,
    bytes_eq_iff k j,
  )

  pub Distinct-without : (k : Bytes) (l : List (Bytes × V)) → Distinct l → Distinct (without k l)
  unfolding without
  Distinct-without k [] d = d
  Distinct-without k ((j, v) ∷ l) d = elim (Bool-cases (bytes_eq j k)) [
    | inl same ↦ rw same (Distinct-without k l d.1)
    | inr differ ↦ rw differ (ground (arith, lookup-without k j l), Distinct-without k l d.1)
  ]
