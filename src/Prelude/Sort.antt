-- ===== src/Prelude/Sort.antt =====
-- `slice::sort_by`, and what it leaves: the same items, in order.
use Prim.Native.String.compare
use Prim.Native.String.{String, compare}
use Prim.Native.Nat.{ℕ, ◌+◌, Ordering}
use mathlib.Core.Path.{◌≡◌, refl}
use mathlib.Core.Logic.{inl, inr}
use mathlib.Core.Bool.{Bool, true, false, ◌&&◌}
use mathlib.Core.List.{List, [], ◌∷◌}
use native.Mathlib.Omega.{arith}
use pg_mcp.Prelude.Tests.{Bool-cases}
use pg_mcp.Prelude.Lists.{sum_by, all}

-- `slice::sort_by`, which is stable.
module _ {ℓ} {A : Type ℓ} (le : A → A → Bool) where
  unfoldable pub insert_sorted : A → List A → List A
  insert_sorted x [] = x ∷ []
  insert_sorted x (y ∷ ys) =
      let rest = insert_sorted x ys in elim (le x y) [ true ↦ x ∷ y ∷ ys | false ↦ y ∷ rest ]

  unfoldable pub sort_by : List A → List A
  sort_by [] = []
  sort_by (x ∷ xs) = insert_sorted x (sort_by xs)

module _ {ℓ} {A : Type ℓ} (le : A → A → Bool) where
  abbrev pub Precedes : A → List A → Type 0
  Precedes x [] = Unit
  Precedes x (y ∷ ys) = le x y ≡ true

  -- No item comes before one that it has to follow.
  abbrev pub IsSorted : List A → Type 0
  IsSorted [] = Unit
  IsSorted (x ∷ xs) = Precedes x xs × IsSorted xs

  pub sum_by-insert_sorted :
      (f : A → ℕ) (x : A) (xs : List A) → sum_by f (insert_sorted le x xs) ≡ f x + sum_by f xs
  unfolding insert_sorted
  sum_by-insert_sorted f x [] = refl
  sum_by-insert_sorted f x (y ∷ ys) = ground (arith, sum_by-insert_sorted f x ys)

  pub sum_by-sort_by : (f : A → ℕ) (xs : List A) → sum_by f (sort_by le xs) ≡ sum_by f xs
  unfolding sort_by
  sum_by-sort_by f [] = refl
  sum_by-sort_by f (x ∷ xs) =
      omega (arith, sum_by-insert_sorted f x (sort_by le xs), sum_by-sort_by f xs)

  all-insert_sorted :
      (p : A → Bool) (x : A) (xs : List A) → all p (insert_sorted le x xs) ≡ (p x && all p xs)
  unfolding insert_sorted
  all-insert_sorted p x [] = refl
  all-insert_sorted p x (y ∷ ys) = ground (arith, all-insert_sorted p x ys)

  pub all-sort_by : (p : A → Bool) (xs : List A) → all p (sort_by le xs) ≡ all p xs
  unfolding sort_by
  all-sort_by p [] = refl
  all-sort_by p (x ∷ xs) = ground (arith, all-insert_sorted p x (sort_by le xs), all-sort_by p xs)

  module _ (total : (x y : A) → le x y ≡ false → le y x ≡ true) where
    Precedes-insert_sorted :
        (z x : A) (xs : List A) → le z x ≡ true → Precedes z xs → Precedes z (insert_sorted le x xs)
    unfolding insert_sorted
    Precedes-insert_sorted z x [] h p = h
    Precedes-insert_sorted z x (y ∷ ys) h p = ground (arith, p)

    insert_sorted-IsSorted : (x : A) (xs : List A) → IsSorted xs → IsSorted (insert_sorted le x xs)
    unfolding insert_sorted
    insert_sorted-IsSorted x [] _ = (_, _)
    insert_sorted-IsSorted x (y ∷ ys) (p, s) = elim (Bool-cases (le x y)) [
      | inl e ↦ rw (e, insert_sorted) (e, (p, s))
      | inr e ↦
          rw (e, insert_sorted)
            (Precedes-insert_sorted y x ys (total x y e) p, insert_sorted-IsSorted x ys s)
    ]

    pub sort_by-IsSorted : (xs : List A) → IsSorted (sort_by le xs)
    unfolding sort_by
    sort_by-IsSorted [] = _
    sort_by-IsSorted (x ∷ xs) = insert_sorted-IsSorted x (sort_by le xs) (sort_by-IsSorted xs)

-- The comparison of texts, turned around.
pub flip_compare : (s t : String) → compare s t ≡ Ordering.gt → compare t s ≡ Ordering.lt
flip_compare String.[] String.[] h = ground (arith, compare.nil-nil)
flip_compare String.[] (String.◌∷◌ d t) h = ground (arith, compare.nil-cons d t)
flip_compare (String.◌∷◌ c s) String.[] h = compare.nil-cons c s
flip_compare (String.◌∷◌ c s) (String.◌∷◌ d t) h =
    ground (arith, compare.cons-cons c d s t, compare.cons-cons d c t s, flip_compare s t)

-- The order of texts by their bytes.
abbrev pub text_le : String → String → Bool
text_le s t = elim (compare s t) [ Ordering.gt ↦ false | _ ↦ true ]

pub text_le_total : (s t : String) → text_le s t ≡ false → text_le t s ≡ true
text_le_total s t h = ground (arith, flip_compare s t)
