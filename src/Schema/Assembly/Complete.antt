-- ===== src/Schema/Assembly/Complete.antt =====
-- Every column and constraint row stands in the response, under its relation.
use pg_mcp.Prelude.{
  ℕ, String, ◌+◌, List, [], ◌∷◌, sum_by, sum_by-append, sum_by-zero, sum_by-sort_by, Map, total_by,
  Every, ok, ◌≡◌, refl, ap, ◌∙◌, arith,
}
use pg_mcp.Protocol.Json.Canonical.{Writer}
use pg_mcp.Protocol.Rows.{Row}
use pg_mcp.Protocol.Catalog.{SchemaColumn, Constraint, Relation, SchemaResult}
use pg_mcp.Config.{Config}
use pg_mcp.Schema.{read_column, read_constraint}
use pg_mcp.Schema.Assembly.{
  Schemas, by_ordinal, by_name, sorted_relations, push_column, push_constraint, add_relation,
  add_column, add_constraint, assemble, schema_from_maps,
}
use pg_mcp.Schema.Assembly.Stages.{IsStaged, assemble-IsStaged}
use pg_mcp.Schema.Assembly.Growth.{
  Measure, total, row_weight, IsNamed, IsNamedRelation, total-add_relation, total-add_item,
  add_item-IsNamed, add_relation-IsNamed, total-each_row, each_row-IsNamed,
}

-- A weight of each column and each constraint, by the names of the schema and the relation.
module _ (of_column : String → String → SchemaColumn → ℕ)
    (of_constraint : String → String → Constraint → ℕ) where
  abbrev weigh : Measure
  weigh s r rel = sum_by (of_column s r) rel.columns + sum_by (of_constraint s r) rel.constraints

  -- What the columns and the constraints of a response weigh.
  abbrev pub response_weight : SchemaResult → ℕ
  response_weight snapshot =
      sum_by (λ info. sum_by (λ rel. weigh info.name rel.name rel) info.relations) snapshot.schemas

  -- What the columns and the constraints weigh that the rows describe.
  abbrev pub rows_weight : List Row → List Row → ℕ
  rows_weight columns constraints =
      sum_by (row_weight read_column of_column) columns
      + sum_by (row_weight read_constraint of_constraint) constraints

  sorted_relations_weight :
      (s : String) (relations : Map Relation)
      → Every IsNamedRelation relations
      → sum_by (λ rel. weigh s rel.name rel) (sorted_relations relations)
        ≡ total_by (weigh s) relations
  sorted_relations_weight s [] _ = refl
  sorted_relations_weight s ((key, rel) ∷ relations) (e, named) = ground (
    arith,
    e,
    sum_by-sort_by by_ordinal (of_column s rel.name) rel.columns,
    sum_by-sort_by by_name (of_constraint s rel.name) rel.constraints,
    sorted_relations_weight s relations named,
  )

  schema_infos_weight :
      (schemas : Schemas)
      → IsNamed schemas
      → response_weight (schema_from_maps schemas) ≡ total weigh schemas
  schema_infos_weight [] _ = refl
  schema_infos_weight ((name, []) ∷ schemas) (_, named) =
      omega (arith, schema_infos_weight schemas named)
  schema_infos_weight ((name, first ∷ others) ∷ schemas) (here, named) =
      omega (
        arith,
        sorted_relations_weight name (first ∷ others) here,
        schema_infos_weight schemas named,
      )

  push_column_weight :
      (s r : String) (c : SchemaColumn) (old : Relation)
      → weigh s r (push_column c old) ≡ weigh s r old + of_column s r c
  push_column_weight s r c old = omega (arith, sum_by-append (of_column s r) old.columns (c ∷ []))

  push_constraint_weight :
      (s r : String) (c : Constraint) (old : Relation)
      → weigh s r (push_constraint c old) ≡ weigh s r old + of_constraint s r c
  push_constraint_weight s r c old =
      omega (arith, sum_by-append (of_constraint s r) old.constraints (c ∷ []))

  module _ (to_vec : Writer) (config : Config) where
    staged-IsNamed :
        (relations columns constraints : List Row) (snapshot : SchemaResult)
        → (stages : IsStaged to_vec config relations columns constraints snapshot)
        → IsNamed stages.2
    staged-IsNamed relations columns constraints snapshot (first, second, third, e1, e2, e3, _, _) =
        each_row-IsNamed to_vec config (add_constraint to_vec config)
          (add_item-IsNamed to_vec config 5 read_constraint push_constraint (λ c old. refl)) second
          third constraints e3
          (each_row-IsNamed to_vec config (add_column to_vec config)
            (add_item-IsNamed to_vec config 10 read_column push_column (λ c old. refl)) first second
            columns e2
            (each_row-IsNamed to_vec config (add_relation to_vec config)
              (add_relation-IsNamed to_vec config) [] first relations e1 tt))

    staged_weight :
        (relations columns constraints : List Row) (snapshot : SchemaResult)
        → (stages : IsStaged to_vec config relations columns constraints snapshot)
        → total weigh stages.2 ≡ rows_weight columns constraints
    staged_weight relations columns constraints snapshot (first, second, third, e1, e2, e3, _, _) =
        omega (
          arith,
          sum_by-zero relations,
          total-each_row to_vec config (add_relation to_vec config) weigh (λ _. 0)
              (λ schemas next row h. omega (
                arith,
                total-add_relation to_vec config weigh (λ s r kind. refl) schemas next row h,
              ))
              [] first relations e1,
          total-each_row to_vec config (add_column to_vec config) weigh
              (row_weight read_column of_column)
              (total-add_item to_vec config 10 read_column push_column weigh of_column
                push_column_weight)
              first second columns e2,
          total-each_row to_vec config (add_constraint to_vec config) weigh
              (row_weight read_constraint of_constraint)
              (total-add_item to_vec config 5 read_constraint push_constraint weigh of_constraint
                push_constraint_weight)
              second third constraints e3,
        )

    -- The columns and the constraints of an assembled response are those that the rows describe, each
    -- as often as rows describe it, and under the schema and the relation that its row names: any
    -- weight of them has the same sum over the response as over the rows.
    pub assemble_complete :
        (relations columns constraints : List Row) (snapshot : SchemaResult)
        → assemble to_vec config relations columns constraints ≡ ok snapshot
        → response_weight snapshot ≡ rows_weight columns constraints
    assemble_complete relations columns constraints snapshot h =
        let stages = assemble-IsStaged to_vec config relations columns constraints snapshot h in
        ap response_weight stages.7
        ∙ schema_infos_weight stages.2
            (staged-IsNamed relations columns constraints snapshot stages)
        ∙ staged_weight relations columns constraints snapshot stages
