-- ===== src/Schema/Assembly/Growth.antt =====
-- How each row changes what the collected relations add up to, for any measure of a relation.
use mathlib.Core.Path.{subst}
use pg_mcp.Prelude.{
  ℕ, String, ◌+◌, some, List, [], ◌∷◌, sum_by, Map, lookup, modify, Every, Every-modify,
  Every-entry_or_insert, entry_or_insert, total_by, total_by-modify, total_by-insert, Result, ok,
  err, ◌≡◌, refl, sym, ap, ◌∙◌, inl, inr, arith, Option-cases, Result-cases, lookup-insert, eq_refl,
}
use pg_mcp.Protocol.Json.Canonical.{Writer}
use pg_mcp.Protocol.Rows.{Row}
use pg_mcp.Protocol.Catalog.{Relation, RelationKind}
use pg_mcp.Config.{Config}
use pg_mcp.Libpq.{SchemaError}
use pg_mcp.Schema.{required, relation_kind}
use pg_mcp.Schema.Assembly.{
  Schemas, find_relation, write_relation, new_relation, add_relation, add_item, each_row,
}

-- A measure of a relation, by the schema and the name under which it is kept.
abbrev pub Measure : Type 0
Measure = String → String → Relation → ℕ

abbrev pub total : Measure → Schemas → ℕ
total f schemas = total_by (λ s relations. total_by (f s) relations) schemas

-- A write changes the total by what it changes of the relation.
total-write_relation :
    (f : Measure) (s r : String) (write : Relation → Relation) (schemas : Schemas) (old : Relation)
    → find_relation s r schemas ≡ ok old
    → total f (write_relation s r write schemas) + f s r old ≡ total f schemas + f s r (write old)
unfolding find_relation
total-write_relation f s r write schemas old h = elim (Option-cases (lookup s schemas)) [
  | inl e ↦ absurd (ground (arith, e))
  | inr (relations, e) ↦
      let inner = total_by-modify (f s) r write relations old (ground (arith, e)) in
      let outer =
        total_by-modify (λ t rs. total_by (f t) rs) s (modify r write) schemas relations e in
      omega (arith, inner, outer)
]

-- An entry that weighs nothing may be added.
total_by-entry_or_insert {ℓ} :
    {V : Type ℓ} (f : String → V → ℕ) (key : String) (value : V) (entries : Map V)
    → f key value ≡ 0
    → total_by f (entry_or_insert key value entries) ≡ total_by f entries
total_by-entry_or_insert f key value entries h = elim (Option-cases (lookup key entries)) [
  | inl e ↦ rw (e, entry_or_insert) (omega (arith, h, total_by-insert f key value entries e))
  | inr (old, e) ↦ rw (e, entry_or_insert) refl
]

entry_or_insert_there {ℓ} :
    {V : Type ℓ} (key : String) (value : V) (entries : Map V)
    → (old : V) × (lookup key (entry_or_insert key value entries) ≡ some old)
entry_or_insert_there key value entries = elim (Option-cases (lookup key entries)) [
  | inl e ↦ (value, ground (arith, e, lookup-insert key key value entries, eq_refl key))
  | inr (old, e) ↦ (old, ground (arith, e))
]

total-new_relation :
    (f : Measure) (s r : String) (fresh : Relation) (schemas : Schemas)
    → f s r fresh ≡ 0
    → total f (modify s (entry_or_insert r fresh) (entry_or_insert s [] schemas)) ≡ total f schemas
total-new_relation f s r fresh schemas h =
    let (relations, e) = entry_or_insert_there s [] schemas in
    omega (
      arith,
      total_by-modify (λ t rs. total_by (f t) rs) s (entry_or_insert r fresh)
          (entry_or_insert s [] schemas) relations e,
      total_by-entry_or_insert (λ t rs. total_by (f t) rs) s [] schemas refl,
      total_by-entry_or_insert (f s) r fresh relations h,
    )

-- What a row that describes an item weighs, and zero for one that describes none.
abbrev pub row_weight :
    {A : Type 0} → (Row → Result A SchemaError) → (String → String → A → ℕ) → Row → ℕ
row_weight read w row = elim (required row 0) [
  | err _ ↦ 0
  | ok s ↦ elim (required row 1) [
    | err _ ↦ 0
    | ok r ↦ elim (read row) [ err _ ↦ 0 | ok item ↦ w s r item ]
  ]
]

-- Each relation has the name under which it is kept.
abbrev pub IsNamedRelation : String → Relation → Type 0
IsNamedRelation key rel = rel.name ≡ key

abbrev pub IsNamedSchema : String → Map Relation → Type 0
IsNamedSchema _ relations = Every IsNamedRelation relations

abbrev pub IsNamed : Schemas → Type 0
IsNamed schemas = Every IsNamedSchema schemas

module _ (to_vec : Writer) (config : Config) where
  -- What a row of the relations that is accepted does.
  add_relation_lem :
      (schemas next : Schemas) (row : Row)
      → add_relation to_vec config schemas row ≡ ok next
      → (s : String) × (r : String) × (kind : RelationKind) × (next
          ≡ modify s (entry_or_insert r (new_relation r kind)) (entry_or_insert s [] schemas))
  unfolding add_relation
  add_relation_lem schemas next row h = elim (Result-cases (required row 0)) [
    | inr (x, e) ↦ absurd (ground (arith, e))
    | inl (s, e1) ↦ elim (Result-cases (required row 1)) [
      | inr (x, e) ↦ absurd (ground (arith, e1, e))
      | inl (r, e2) ↦ elim (Result-cases (required row 2)) [
        | inr (x, e) ↦ absurd (ground (arith, e1, e2, e))
        | inl (text, e3) ↦ elim (Result-cases (relation_kind text)) [
          | inr (x, e) ↦ absurd (ground (arith, e1, e2, e3, e))
          | inl (kind, e4) ↦ (s, r, kind, ground (arith, e1, e2, e3, e4))
        ]
      ]
    ]
  ]

  -- A row of the relations changes no measure that is zero for a new relation.
  pub total-add_relation :
      (f : Measure)
      → ((s r : String) (kind : RelationKind) → f s r (new_relation r kind) ≡ 0)
      → (schemas next : Schemas) (row : Row) → add_relation to_vec config schemas row ≡ ok next
      → total f next ≡ total f schemas
  total-add_relation f zero_new schemas next row h =
      let (s, r, kind, e) = add_relation_lem schemas next row h in
      ap (total f) e ∙ total-new_relation f s r (new_relation r kind) schemas (zero_new s r kind)

  pub add_relation-IsNamed :
      (schemas next : Schemas) (row : Row)
      → add_relation to_vec config schemas row ≡ ok next
      → IsNamed schemas
      → IsNamed next
  add_relation-IsNamed schemas next row h named =
      let (s, r, kind, e) = add_relation_lem schemas next row h in
      subst IsNamed (sym e) (
        Every-modify IsNamedSchema s (entry_or_insert r (new_relation r kind))
          (entry_or_insert s [] schemas)
          (λ relations.
            Every-entry_or_insert IsNamedRelation r (new_relation r kind) relations refl)
          (Every-entry_or_insert IsNamedSchema s [] schemas tt named))

  module _ {A : Type 0} (width : ℕ) (read : Row → Result A SchemaError)
      (push : A → Relation → Relation) where
    -- What a row that is accepted does.
    abbrev IsAdded : Schemas → Schemas → Row → Type 0
    IsAdded schemas next row =
        (s : String) × (r : String) × (old : Relation) × (item : A) × (required row 0 ≡ ok s)
        × (required row 1 ≡ ok r)
        × (find_relation s r schemas ≡ ok old)
        × (read row ≡ ok item)
        × (next ≡ write_relation s r (push item) schemas)

    add_item-IsAdded :
        (schemas next : Schemas) (row : Row)
        → add_item to_vec config width read push schemas row ≡ ok next
        → IsAdded schemas next row
    unfolding add_item
    add_item-IsAdded schemas next row h = elim (Result-cases (required row 0)) [
      | inr (x, e) ↦ absurd (ground (arith, e))
      | inl (s, e1) ↦ elim (Result-cases (required row 1)) [
        | inr (x, e) ↦ absurd (ground (arith, e1, e))
        | inl (r, e2) ↦ elim (Result-cases (find_relation s r schemas)) [
          | inr (x, e) ↦ absurd (ground (arith, e1, e2, e))
          | inl (old, e3) ↦ elim (Result-cases (read row)) [
            | inr (x, e) ↦ absurd (ground (arith, e1, e2, e3, e))
            | inl (c, e4) ↦ (s, r, old, c, e1, e2, e3, e4, ground (arith, e1, e2, e3, e4))
          ]
        ]
      ]
    ]

    -- What the row adds to a measure that grows by `w` with each item.
    pub total-add_item :
        (f : Measure) (w : String → String → A → ℕ)
        → ((s r : String) (item : A) (old : Relation)
            → f s r (push item old) ≡ f s r old + w s r item)
        → (schemas next : Schemas) (row : Row)
        → add_item to_vec config width read push schemas row ≡ ok next
        → total f next ≡ total f schemas + row_weight read w row
    total-add_item f w grows schemas next row h =
        let (s, r, old, item, e1, e2, e3, e4, e5) = add_item-IsAdded schemas next row h in
        ground (
          arith,
          e1,
          e2,
          e4,
          e5,
          grows s r item old,
          total-write_relation f s r (push item) schemas old e3,
        )

    pub add_item-IsNamed :
        ((item : A) (old : Relation) → (push item old).name ≡ old.name)
        → (schemas next : Schemas) (row : Row)
        → add_item to_vec config width read push schemas row ≡ ok next
        → IsNamed schemas
        → IsNamed next
    add_item-IsNamed keeps schemas next row h named =
        let (s, r, old, item, _, _, _, _, e) = add_item-IsAdded schemas next row h in
        subst IsNamed (sym e) (
          Every-modify IsNamedSchema s (modify r (push item)) schemas
            (λ relations.
              Every-modify IsNamedRelation r (push item) relations (λ rel q. keeps item rel ∙ q))
            named)

  pub total-each_row :
      (step : Schemas → Row → Result Schemas SchemaError) (f : Measure) (weight : Row → ℕ)
      → ((schemas next : Schemas) (row : Row)
          → step schemas row ≡ ok next
          → total f next ≡ total f schemas + weight row)
      → (schemas final : Schemas) (rows : List Row)
      → each_row to_vec config step schemas rows ≡ ok final
      → total f final ≡ total f schemas + sum_by weight rows
  total-each_row step f weight adds schemas final [] h = ground (arith)
  total-each_row step f weight adds schemas final (row ∷ rows) h =
      elim (Result-cases (step schemas row)) [
        | inr (x, e) ↦ absurd (ground (arith, e))
        | inl (next, e) ↦
            let rest = total-each_row step f weight adds next final rows (ground (arith, e)) in
            omega (arith, rest, adds schemas next row e)
      ]

  pub each_row-IsNamed :
      (step : Schemas → Row → Result Schemas SchemaError)
      → ((schemas next : Schemas) (row : Row)
          → step schemas row ≡ ok next
          → IsNamed schemas
          → IsNamed next)
      → (schemas final : Schemas) (rows : List Row)
      → each_row to_vec config step schemas rows ≡ ok final
      → IsNamed schemas
      → IsNamed final
  each_row-IsNamed step keeps schemas final [] h named = subst IsNamed (ground arith) named
  each_row-IsNamed step keeps schemas final (row ∷ rows) h named =
      elim (Result-cases (step schemas row)) [
        | inr (x, e) ↦ absurd (ground (arith, e))
        | inl (next, e) ↦
            each_row-IsNamed step keeps next final rows (ground (arith, e))
              (keeps schemas next row e named)
      ]
