-- ===== src/Protocol/Catalog/Budget.antt =====
-- One aggregate budget over the whole schema response.
use pg_mcp.Prelude.{
  ℕ, ◌+◌, ◌≤◌, ◌<◌, String, len, some, List, All, length, sum_by, ok, ◌≡◌, ◌↔◌, arith, Result-cases,
  Option-cases, inl, inr,
}
use pg_mcp.Protocol.Request.{usize_mod}
use pg_mcp.Protocol.Json.Canonical.{Writer, canonicalize}
use pg_mcp.Protocol.Rows.{check_bytes}
use pg_mcp.Protocol.Catalog.{
  SchemaColumn, Constraint, Relation, SchemaInfo, SchemaResult, check_schema_cell, checked_unit,
  check_default, count_each, count_column, count_constraint, count_relation, count_schema,
  schema_value, validate_schema,
}
use pg_mcp.Protocol.Catalog.Counting.{
  count_each_sound, count_each_complete, count_each_le, sum_by-one,
}
use pg_mcp.Config.{Config}

-- The texts of an object fit the cell limit.
abbrev ColumnFits : ℕ → SchemaColumn → Type 0
ColumnFits limit c =
    (len c.name ≤ limit)
    × (len c.type_name ≤ limit)
    × ((text : String) → c.default_expression ≡ some text → len text ≤ limit)

abbrev ConstraintFits : ℕ → Constraint → Type 0
ConstraintFits limit c = (len c.name ≤ limit) × (len c.definition ≤ limit)

abbrev RelationFits : ℕ → Relation → Type 0
RelationFits limit r =
    (len r.name ≤ limit)
    × All (ColumnFits limit) r.columns
    × All (ConstraintFits limit) r.constraints

abbrev SchemaFits : ℕ → SchemaInfo → Type 0
SchemaFits limit s = (len s.name ≤ limit) × All (RelationFits limit) s.relations

-- The units of an object: itself and all that it holds.
abbrev pub relation_units : Relation → ℕ
relation_units r = 1 + length r.columns + length r.constraints

abbrev pub schema_units : SchemaInfo → ℕ
schema_units s = 1 + sum_by relation_units s.relations

column_sound :
    (config : Config) (u : ℕ) (c : SchemaColumn) (v : ℕ)
    → count_column config u c ≡ ok v
    → ColumnFits config.cell_bytes c × (v ≡ u + 1)
unfolding count_column checked_unit check_schema_cell check_default
column_sound config u c v h = ground arith

column_complete :
    (config : Config) (u : ℕ) (c : SchemaColumn)
    → config.result_rows < usize_mod
    → ColumnFits config.cell_bytes c
    → u + 1 ≤ config.result_rows
    → count_column config u c ≡ ok (u + 1)
unfolding count_column checked_unit check_schema_cell check_default
column_complete config u c m h b = elim (Option-cases c.default_expression) [
  | inl e ↦ ground arith
  | inr (text, e) ↦ let fits = h.2 text e in ground arith
]

constraint_sound :
    (config : Config) (u : ℕ) (c : Constraint) (v : ℕ)
    → count_constraint config u c ≡ ok v
    → ConstraintFits config.cell_bytes c × (v ≡ u + 1)
unfolding count_constraint checked_unit check_schema_cell
constraint_sound config u c v h = ground arith

constraint_complete :
    (config : Config) (u : ℕ) (c : Constraint)
    → config.result_rows < usize_mod
    → ConstraintFits config.cell_bytes c
    → u + 1 ≤ config.result_rows
    → count_constraint config u c ≡ ok (u + 1)
unfolding count_constraint checked_unit check_schema_cell
constraint_complete config u c m h b = ground arith

columns_sound :
    (config : Config) (cs : List SchemaColumn) (u v : ℕ)
    → count_each (count_column config) u cs ≡ ok v
    → All (ColumnFits config.cell_bytes) cs × (v ≡ u + length cs)
columns_sound config cs u v h =
    let (fits, e) =
      count_each_sound (count_column config) (λ _. 1) (ColumnFits config.cell_bytes)
        (column_sound config) cs u v h in
    (fits, omega (arith, sum_by-one cs))

constraints_sound :
    (config : Config) (cs : List Constraint) (u v : ℕ)
    → count_each (count_constraint config) u cs ≡ ok v
    → All (ConstraintFits config.cell_bytes) cs × (v ≡ u + length cs)
constraints_sound config cs u v h =
    let (fits, e) =
      count_each_sound (count_constraint config) (λ _. 1) (ConstraintFits config.cell_bytes)
        (constraint_sound config) cs u v h in
    (fits, omega (arith, sum_by-one cs))

relation_sound :
    (config : Config) (u : ℕ) (r : Relation) (v : ℕ)
    → count_relation config u r ≡ ok v
    → RelationFits config.cell_bytes r × (v ≡ u + relation_units r) × (v ≤ config.result_rows)
unfolding count_relation checked_unit check_schema_cell
relation_sound config u r v h =
    elim (Result-cases (count_each (count_column config) (u + 1) r.columns)) [
      | inr (x, q) ↦ ground arith
      | inl (w, q) ↦ elim (Result-cases (count_each (count_constraint config) w r.constraints)) [
        | inr (x, p) ↦ ground arith
        | inl (t, p) ↦ ground (
          arith,
          columns_sound config r.columns (u + 1) w,
          constraints_sound config r.constraints w t,
        )
      ]
    ]

schema_sound :
    (config : Config) (u : ℕ) (s : SchemaInfo) (v : ℕ)
    → count_schema config u s ≡ ok v
    → SchemaFits config.cell_bytes s × (v ≡ u + schema_units s) × (v ≤ config.result_rows)
unfolding count_schema checked_unit check_schema_cell
schema_sound config u s v h = ground (
  arith,
  count_each_sound (count_relation config) relation_units (RelationFits config.cell_bytes)
      (λ u r v e. let p = relation_sound config u r v e in (p.0, p.1)) s.relations (u + 1) v,
  count_each_le (count_relation config) config.result_rows
      (λ u r v e. (relation_sound config u r v e).2) s.relations (u + 1) v,
)

columns_complete :
    (config : Config) (cs : List SchemaColumn) (u : ℕ)
    → config.result_rows < usize_mod
    → All (ColumnFits config.cell_bytes) cs
    → u + length cs ≤ config.result_rows
    → count_each (count_column config) u cs ≡ ok (u + length cs)
columns_complete config cs u m h b = rw (← sum_by-one cs) (
    count_each_complete (count_column config) (λ _. 1) (ColumnFits config.cell_bytes)
      config.result_rows (λ u c. column_complete config u c m) cs u h
      (omega (arith, sum_by-one cs)))

constraints_complete :
    (config : Config) (cs : List Constraint) (u : ℕ)
    → config.result_rows < usize_mod
    → All (ConstraintFits config.cell_bytes) cs
    → u + length cs ≤ config.result_rows
    → count_each (count_constraint config) u cs ≡ ok (u + length cs)
constraints_complete config cs u m h b = rw (← sum_by-one cs) (
    count_each_complete (count_constraint config) (λ _. 1) (ConstraintFits config.cell_bytes)
      config.result_rows (λ u c. constraint_complete config u c m) cs u h
      (omega (arith, sum_by-one cs)))

relation_complete :
    (config : Config) (u : ℕ) (r : Relation)
    → config.result_rows < usize_mod
    → RelationFits config.cell_bytes r
    → u + relation_units r ≤ config.result_rows
    → count_relation config u r ≡ ok (u + relation_units r)
unfolding count_relation checked_unit check_schema_cell
relation_complete config u r m h b = ground (
  arith,
  columns_complete config r.columns (u + 1),
  constraints_complete config r.constraints (u + 1 + length r.columns),
)

schema_complete :
    (config : Config) (u : ℕ) (s : SchemaInfo)
    → config.result_rows < usize_mod
    → SchemaFits config.cell_bytes s
    → u + schema_units s ≤ config.result_rows
    → count_schema config u s ≡ ok (u + schema_units s)
unfolding count_schema checked_unit check_schema_cell
schema_complete config u s m h b = ground (
  arith,
  count_each_complete (count_relation config) relation_units (RelationFits config.cell_bytes)
      config.result_rows (λ u r. relation_complete config u r m) s.relations (u + 1),
)

-- The response as a whole is within the configuration's limits.
pub record IsBounded (to_vec : Writer) (config : Config) (r : SchemaResult) : Type 0 where
  pub texts_fit : All (SchemaFits config.cell_bytes) r.schemas
  pub units_fit : sum_by schema_units r.schemas ≤ config.result_rows
  pub bytes_fit :
      (bytes : List ℕ) × (to_vec (canonicalize (schema_value r)) ≡ some bytes)
      × (length bytes ≤ config.result_json_bytes)

-- Where `result_rows` is a `usize`, `SchemaResult::validate` accepts exactly the responses in
-- which every text fits a cell, the schemas, relations, columns and constraints together are at
-- most `result_rows`, and the canonical JSON is at most `result_json_bytes` long.
pub validate_schema_iff :
    (to_vec : Writer) (config : Config) (r : SchemaResult)
    → config.result_rows < usize_mod
    → (validate_schema to_vec config r ≡ ok tt) ↔ IsBounded to_vec config r
unfolding validate_schema check_bytes
validate_schema_iff to_vec config r m = (sound, complete)
  where
    counted :
        (v : ℕ)
        → count_each (count_schema config) 0 r.schemas ≡ ok v
        → All (SchemaFits config.cell_bytes) r.schemas × (v ≡ 0 + sum_by schema_units r.schemas)
    counted v =
        count_each_sound (count_schema config) schema_units (SchemaFits config.cell_bytes)
          (λ u s v e. let p = schema_sound config u s v e in (p.0, p.1)) r.schemas 0 v

    within : (v : ℕ) → count_each (count_schema config) 0 r.schemas ≡ ok v → v ≤ config.result_rows
    within v =
        count_each_le (count_schema config) config.result_rows
          (λ u s v e. (schema_sound config u s v e).2) r.schemas 0 v (omega arith)

    sound : validate_schema to_vec config r ≡ ok tt → IsBounded to_vec config r
    sound h = elim (Result-cases (count_each (count_schema config) 0 r.schemas)) [
      | inr (x, q) ↦ absurd (cc)
      | inl (v, q) ↦ elim (Option-cases (to_vec (canonicalize (schema_value r)))) [
        | inl e ↦ absurd (ground arith)
        | inr (bytes, e) ↦ record {
          texts_fit = (counted v q).0;
          units_fit = omega (arith, counted v q, within v q);
          bytes_fit = (bytes, e, ground arith);
        }
      ]
    ]

    complete : IsBounded to_vec config r → validate_schema to_vec config r ≡ ok tt
    complete b = ground (
      arith,
      b.bytes_fit.1,
      b.bytes_fit.2,
      count_each_complete (count_schema config) schema_units (SchemaFits config.cell_bytes)
          config.result_rows (λ u s. schema_complete config u s m) r.schemas 0 b.texts_fit,
    )
