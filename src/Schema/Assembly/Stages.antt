-- ===== src/Schema/Assembly/Stages.antt =====
-- The stages of `retrieve_inner`.
use pg_mcp.Prelude.{List, [], All, ok, ◌≡◌, inl, inr, arith, sym, Result-cases}
use mathlib.Core.Path.{subst}
use pg_mcp.Protocol.Json.Canonical.{Writer}
use pg_mcp.Protocol.Rows.{Row}
use pg_mcp.Protocol.Catalog.{SchemaResult, validate_schema}
use pg_mcp.Config.{Config}
use pg_mcp.Schema.Assembly.{
  Schemas, add_relation, add_column, add_constraint, each_row, validate_partial, assemble,
  schema_from_maps,
}
use pg_mcp.Schema.Assembly.Order.{IsInOrder, schema_infos-IsInOrder}

module _ (to_vec : Writer) (config : Config) (relations columns constraints : List Row)
    (snapshot : SchemaResult) where
  -- The three loops succeeded one after the other, and the response is made of what they collected.
  abbrev pub IsStaged : Type 0
  IsStaged =
      (first : Schemas) × (second : Schemas) × (third : Schemas) × (each_row to_vec config
          (add_relation to_vec config) [] relations
        ≡ ok first)
      × (each_row to_vec config (add_column to_vec config) first columns ≡ ok second)
      × (each_row to_vec config (add_constraint to_vec config) second constraints ≡ ok third)
      × (validate_partial to_vec config third ≡ ok tt)
      × (snapshot ≡ schema_from_maps third)

  pub assemble-IsStaged :
      assemble to_vec config relations columns constraints ≡ ok snapshot → IsStaged
  unfolding assemble
  assemble-IsStaged h =
      elim (Result-cases (each_row to_vec config (add_relation to_vec config) [] relations)) [
        | inr (x, e) ↦ absurd (ground (arith, e))
        | inl (first, e1) ↦
            elim (Result-cases (each_row to_vec config (add_column to_vec config) first columns)) [
              | inr (x, e) ↦ absurd (ground (arith, e1, e))
              | inl (second, e2) ↦
                  elim (Result-cases
                    (each_row to_vec config (add_constraint to_vec config) second constraints)) [
                      | inr (x, e) ↦ absurd (ground (arith, e1, e2, e))
                      | inl (third, e3) ↦ (
                        first,
                        second,
                        third,
                        e1,
                        e2,
                        e3,
                        ground (arith, e1, e2, e3),
                        ground (arith, e1, e2, e3),
                      )
                    ]
            ]
      ]

  -- The response is within the limits, and in every relation the columns stand by their ordinals
  -- and the constraints by the bytes of their names.
  abbrev pub IsPresentable : Type 0
  IsPresentable =
      (validate_schema to_vec config snapshot ≡ ok tt)
      × All (λ info. All IsInOrder info.relations) snapshot.schemas

  -- An assembled response is within the limits, and in every relation the columns stand by their
  -- ordinals and the constraints by the bytes of their names.
  pub assemble-IsPresentable :
      assemble to_vec config relations columns constraints ≡ ok snapshot → IsPresentable
  unfolding validate_partial
  assemble-IsPresentable h =
      let (_, _, third, _, _, _, e4, e5) = assemble-IsStaged h in
      (
        ground (arith, e4, e5),
        subst (λ s. All (λ info. All IsInOrder info.relations) s.schemas) (sym e5)
            (schema_infos-IsInOrder third),
      )
