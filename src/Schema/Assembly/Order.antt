-- ===== src/Schema/Assembly/Order.antt =====
-- The order of the columns and constraints of a response.
use pg_mcp.Prelude.{
  true, false, [], ◌∷◌, All, ◌≡◌, arith, sort_by-IsSorted, IsSorted, text_le_total,
}
use pg_mcp.Protocol.Catalog.{SchemaColumn, Constraint, Relation}
use pg_mcp.Schema.Assembly.{Schemas, by_ordinal, by_name, schema_infos, sorted_relations}
use pg_mcp.Prelude.{Map}

by_ordinal_total : (x y : SchemaColumn) → by_ordinal x y ≡ false → by_ordinal y x ≡ true
by_ordinal_total x y h = ground arith

by_name_total : (x y : Constraint) → by_name x y ≡ false → by_name y x ≡ true
by_name_total x y h = text_le_total x.name y.name h

-- The columns stand by their ordinals and the constraints by the bytes of their names.
abbrev pub IsInOrder : Relation → Type 0
IsInOrder r = IsSorted by_ordinal r.columns × IsSorted by_name r.constraints

sorted_relations-IsInOrder : (relations : Map Relation) → All IsInOrder (sorted_relations relations)
sorted_relations-IsInOrder [] = _
sorted_relations-IsInOrder ((_, r) ∷ relations) = (
  (
    sort_by-IsSorted by_ordinal by_ordinal_total r.columns,
    sort_by-IsSorted by_name by_name_total r.constraints,
  ),
  sorted_relations-IsInOrder relations,
)

pub schema_infos-IsInOrder :
    (schemas : Schemas) → All (λ info. All IsInOrder info.relations) (schema_infos schemas)
schema_infos-IsInOrder [] = _
schema_infos-IsInOrder ((name, []) ∷ schemas) = schema_infos-IsInOrder schemas
schema_infos-IsInOrder ((name, first ∷ others) ∷ schemas) =
    (sorted_relations-IsInOrder (first ∷ others), schema_infos-IsInOrder schemas)
