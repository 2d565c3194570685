-- ===== src/Examples/Parameters.antt =====
-- Parameters, as the tool `query` and as the core read them.
use pg_mcp.Prelude.{none, some, ok, err, ◌≡◌, refl}
use pg_mcp.Protocol.Json.{
  Value, null, string, array, object, Fields, field, end, item, no_items, get,
}
use pg_mcp.Protocol.Json.Derive.{malformed}
use pg_mcp.Protocol.Request.{validate_parameter, contains_nul, new_parameter}
use pg_mcp.Protocol.Request.Wire.{read_parameter}
use pg_mcp.Server.Tools.{read_parameter_arg}
use pg_mcp.Server.Parameters.{read_by_tool, read_parameter-eq-read_by_tool}

-- A text whose type the server infers.
abbrev inferred : Fields
inferred = field "type_oid" null (field "value" (string "7") end)

read_parameter-eq-read_by_tool_example :
    read_parameter (object inferred) ≡ read_by_tool (object inferred)
read_parameter-eq-read_by_tool_example = read_parameter-eq-read_by_tool inferred

inferred_read : read_by_tool (object inferred) ≡ ok (record { type_oid = none; value = some "7" })
unfolding read_parameter_arg get new_parameter validate_parameter contains_nul
inferred_read = refl

-- The tool takes the two values without their keys too, which the core refuses.
abbrev in_place : Value
in_place = array (item null (item (string "7") no_items))

in_place_read : read_by_tool in_place ≡ ok (record { type_oid = none; value = some "7" })
unfolding read_parameter_arg get new_parameter validate_parameter contains_nul
in_place_read = refl

in_place_refused : read_parameter in_place ≡ err malformed
unfolding read_parameter
in_place_refused = refl
