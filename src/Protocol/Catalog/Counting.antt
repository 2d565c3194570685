-- ===== src/Protocol/Catalog/Counting.antt =====
-- Loops that count units under a limit, over any kind of object.
use pg_mcp.Prelude.{
  ℕ, ◌+◌, ◌≤◌, List, [], ◌∷◌, All, length, sum_by, Result, ok, ◌≡◌, refl, arith, Result-cases, inl,
  inr,
}
use pg_mcp.Protocol.Status.{ValidationError}
use pg_mcp.Protocol.Catalog.{count_each}

module _ {A : Type 0} (step : ℕ → A → Result ℕ ValidationError) (size : A → ℕ)
    (P : A → Type 0) where
  pub count_each_sound :
      ((u : ℕ) (a : A) (v : ℕ) → step u a ≡ ok v → P a × (v ≡ u + size a))
      → (xs : List A) (u v : ℕ) → count_each step u xs ≡ ok v
      → All P xs × (v ≡ u + sum_by size xs)
  count_each_sound h [] u v e = (tt, ground arith)
  count_each_sound h (x ∷ xs) u v e = elim (Result-cases (step u x)) [
    | inl (w, q) ↦ ground (arith, h u x w, count_each_sound h xs w v)
    | inr (x, q) ↦ cc
  ]

  pub count_each_complete :
      (limit : ℕ)
      → ((u : ℕ) (a : A) → P a → u + size a ≤ limit → step u a ≡ ok (u + size a))
      → (xs : List A) (u : ℕ) → All P xs
      → u + sum_by size xs ≤ limit
      → count_each step u xs ≡ ok (u + sum_by size xs)
  count_each_complete limit h [] u p e = ground arith
  count_each_complete limit h (x ∷ xs) u p e =
      ground (arith, h u x, count_each_complete limit h xs (u + size x))

-- A bound that every step establishes holds of the count.
pub count_each_le :
    {A : Type 0} (step : ℕ → A → Result ℕ ValidationError) (limit : ℕ)
    → ((u : ℕ) (a : A) (v : ℕ) → step u a ≡ ok v → v ≤ limit)
    → (xs : List A) (u v : ℕ) → u ≤ limit
    → count_each step u xs ≡ ok v
    → v ≤ limit
count_each_le step limit h [] u v b e = ground arith
count_each_le step limit h (x ∷ xs) u v b e = elim (Result-cases (step u x)) [
  | inl (w, q) ↦ count_each_le step limit h xs w v (h u x w q) (ground arith)
  | inr (x, q) ↦ cc
]

pub sum_by-one {ℓ} : {A : Type ℓ} (xs : List A) → sum_by (λ _. 1) xs ≡ length xs
sum_by-one [] = refl
sum_by-one (x ∷ xs) = omega (arith, sum_by-one xs)
