-- ===== src/Prelude/Assoc.antt =====
-- A `BTreeMap` with text keys as the list of its entries in key order.
use Prim.Native.Nat.{ℕ, ◌+◌, Ordering}
use Prim.Native.String.{String, compare}
use mathlib.Core.Path.{◌≡◌, refl, sym, subst}
use mathlib.Core.Logic.{inl, inr}
use mathlib.Core.Option.{Option, none, some}
use mathlib.Core.List.{List, [], ◌∷◌, map}
use native.Mathlib.Omega.{arith}
use text.Mathlib.Text.{◌==◌ as str_eq}
use text.Mathlib.TextEquality.{eq_iff, path_by_compare}
use text.Mathlib.TextPositions.{compare_refl}
use pg_mcp.Prelude.Tests.{if◌then◌else◌, Bool-cases, Option-cases}

abbrev pub Map {ℓ} : Type ℓ → Type ℓ
Map V = List (String × V)

module _ {ℓ} {V : Type ℓ} where
  -- `get`.
  unfoldable pub lookup : String → Map V → Option V
  lookup key [] = none
  lookup key ((found, value) ∷ entries) =
      if str_eq found key then some value else lookup key entries

  -- A write through `get_mut`: nothing happens at a key that is not there.
  unfoldable pub adjust : String → (V → V) → Map V → Map V
  adjust key write [] = []
  adjust key write ((found, value) ∷ entries) =
      (found, if str_eq found key then write value else value) ∷ adjust key write entries

  -- A write through `get_mut` at the first entry of the key.
  unfoldable pub modify : String → (V → V) → Map V → Map V
  modify key write [] = []
  modify key write ((found, value) ∷ entries) =
      let rest = modify key write entries in
      if str_eq found key then (found, write value) ∷ entries else (found, value) ∷ rest

  -- `insert`.
  unfoldable pub insert : String → V → Map V → Map V
  insert key value [] = (key, value) ∷ []
  insert key value ((found, old) ∷ entries) = elim (compare key found) [
    | Ordering.lt ↦ (key, value) ∷ (found, old) ∷ entries
    | Ordering.eq ↦ (key, value) ∷ entries
    | Ordering.gt ↦ (found, old) ∷ insert key value entries
  ]

  -- `entry(key).or_insert(value)`.
  abbrev pub entry_or_insert : String → V → Map V → Map V
  entry_or_insert key value entries = elim (lookup key entries) [
    | none ↦ insert key value entries
    | some _ ↦ entries
  ]

  -- `remove`.
  unfoldable pub remove : String → Map V → Map V
  remove key [] = []
  remove key ((found, value) ∷ entries) =
      let rest = remove key entries in if str_eq found key then rest else (found, value) ∷ rest

  abbrev pub keys : Map V → List String
  keys entries = map (λ e. e.0) entries

  abbrev pub map_option : (V → V) → Option V → Option V
  map_option write none = none
  map_option write (some value) = some (write value)

  pub lookup-adjust :
      (key found : String) (write : V → V) (entries : Map V)
      → lookup found (adjust key write entries) ≡ (
          if str_eq key found
          then map_option write (lookup found entries)
          else lookup found entries)
  unfolding lookup adjust
  lookup-adjust key found write [] = ground arith
  lookup-adjust key found write ((first, value) ∷ entries) = ground (
    arith,
    eq_iff key found,
    eq_iff first key,
    eq_iff first found,
    lookup-adjust key found write entries,
  )

  pub lookup-remove :
      (key found : String) (entries : Map V)
      → lookup found (remove key entries)
        ≡ (if str_eq key found then none else lookup found entries)
  unfolding lookup remove
  lookup-remove key found [] = ground arith
  lookup-remove key found ((first, value) ∷ entries) = ground (
    arith,
    eq_iff key found,
    eq_iff first key,
    eq_iff first found,
    lookup-remove key found entries,
  )

  pub lookup-insert :
      (key found : String) (value : V) (entries : Map V)
      → lookup found (insert key value entries)
        ≡ (if str_eq key found then some value else lookup found entries)
  unfolding lookup insert
  lookup-insert key found value [] = refl
  lookup-insert key found value ((first, old) ∷ entries) = ground (
    arith,
    eq_iff key found,
    eq_iff first key,
    eq_iff first found,
    path_by_compare key first,
    compare_refl key,
    lookup-insert key found value entries,
  )

  pub keys-adjust :
      (key : String) (write : V → V) (entries : Map V)
      → keys (adjust key write entries) ≡ keys entries
  unfolding adjust
  keys-adjust key write [] = refl
  keys-adjust key write ((found, value) ∷ entries) = cc (keys-adjust key write entries)

  -- The sum of a measure over the entries.
  abbrev pub total_by : (String → V → ℕ) → Map V → ℕ
  total_by f [] = 0
  total_by f ((found, value) ∷ entries) = f found value + total_by f entries

  pub total_by-modify :
      (f : String → V → ℕ) (key : String) (write : V → V) (entries : Map V) (value : V)
      → lookup key entries ≡ some value
      → total_by f (modify key write entries) + f key value
        ≡ total_by f entries + f key (write value)
  unfolding lookup modify
  total_by-modify f key write [] value h = ground arith
  total_by-modify f key write ((found, old) ∷ entries) value h =
      ground (arith, eq_iff found key, total_by-modify f key write entries value)

  pub total_by-insert :
      (f : String → V → ℕ) (key : String) (value : V) (entries : Map V)
      → lookup key entries ≡ none
      → total_by f (insert key value entries) ≡ f key value + total_by f entries
  unfolding lookup insert
  total_by-insert f key value [] h = ground arith
  total_by-insert f key value ((found, old) ∷ entries) h =
      ground
        (arith, eq_iff found key, path_by_compare key found, total_by-insert f key value entries)

  module _ {κ} (P : String → V → Type κ) where
    -- Every entry satisfies the predicate.
    abbrev pub Every : Map V → Type κ
    Every [] = Unit
    Every ((found, value) ∷ entries) = P found value × Every entries

    pub Every-modify :
        (key : String) (write : V → V) (entries : Map V)
        → ((value : V) → P key value → P key (write value))
        → Every entries
        → Every (modify key write entries)
    unfolding modify
    Every-modify key write [] keep h = h
    Every-modify key write ((found, value) ∷ entries) keep (p, h) =
        elim (Bool-cases (str_eq found key)) [
          | inl e ↦
              rw (e, modify)
                (
                  subst (λ k. P k (write value)) (sym ((eq_iff found key).0 e))
                      (keep value (subst (λ k. P k value) ((eq_iff found key).0 e) p)),
                  h,
                )
          | inr e ↦ rw (e, modify) (p, Every-modify key write entries keep h)
        ]

    pub Every-insert :
        (key : String) (value : V) (entries : Map V)
        → P key value
        → Every entries
        → Every (insert key value entries)
    unfolding insert
    Every-insert key value [] p h = (p, h)
    Every-insert key value ((found, old) ∷ entries) p (q, h) =
        go (compare key found) (Every-insert key value entries p h)
      where
        go :
            (o : Ordering)
            → Every (insert key value entries)
            → Every (elim o [
              | Ordering.lt ↦ (key, value) ∷ (found, old) ∷ entries
              | Ordering.eq ↦ (key, value) ∷ entries
              | Ordering.gt ↦ (found, old) ∷ insert key value entries
            ])
        go Ordering.lt rest = (p, (q, h))
        go Ordering.eq rest = (p, h)
        go Ordering.gt rest = (q, rest)

    pub Every-entry_or_insert :
        (key : String) (value : V) (entries : Map V)
        → P key value
        → Every entries
        → Every (entry_or_insert key value entries)
    Every-entry_or_insert key value entries p h = elim (Option-cases (lookup key entries)) [
      | inl e ↦ rw (e, entry_or_insert) (Every-insert key value entries p h)
      | inr (old, e) ↦ rw (e, entry_or_insert) h
    ]
