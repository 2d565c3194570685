-- ===== src/Protocol/Rows.antt =====
-- protocol.rs: query results and their limits.
pub mod Bounds
use pg_mcp.Prelude.{
  ℕ, String, len, Bool, true, false, ◌&&◌, ◌||◌, not, Option, none, some, List, [], ◌∷◌, map,
  length, all, ltb, ◌==◌, str_eq, ok, err, ◌>>=◌, ◌>>◌, fail_if, Result,
}
use pg_mcp.Protocol.Status.{
  Check, ValidationError, result_limit, invalid_affected_rows, invalid_result_shape, serialization,
}
use pg_mcp.Protocol.Json.{
  Value, string, array, object, Fields, end, field, items, text_or_null, unsigned,
}
use pg_mcp.Protocol.Json.Canonical.{canonicalize, Writer}
use pg_mcp.Protocol.Errors.{codes, is_ascii_digit}
use pg_mcp.Protocol.Envelope.{for_each}
use pg_mcp.Config.{Config}

pub record ResultColumn : Type 0 where
  pub name : String
  pub type_oid : ℕ

-- A row: a text or SQL NULL for each column.
abbrev pub Row : Type 0
Row = List (Option String)

pub record QueryResult : Type 0 where
  pub columns : List ResultColumn
  pub rows : List Row
  pub command_tag : String
  pub affected_rows : Option String

-- How serde writes a column (its format is always "text"), a row and a result.
column_value : ResultColumn → Value
column_value c = object (
    field "name" (string c.name)
      (field "type_oid" (unsigned c.type_oid) (field "format" (string "text") end)))

row_value : Row → Value
row_value r = array (items (map text_or_null r))

unfoldable pub query_value : QueryResult → Value
unfolding column_value row_value
query_value q = object (
    field "columns" (array (items (map column_value q.columns))) (
      field "rows" (array (items (map row_value q.rows))) (
        field "command_tag" (string q.command_tag)
          (field "affected_rows" (text_or_null q.affected_rows) end))))

-- `check_cell`.
unfoldable pub check_cell : ℕ → String → Check
check_cell limit value = fail_if (ltb limit (len value)) result_limit

unfoldable pub is_decimal_text : String → Bool
is_decimal_text s = not (str_eq s "") && all is_ascii_digit (codes s)

unfoldable pub is_decimal_or_none : Option String → Bool
unfolding is_decimal_text
is_decimal_or_none none = true
is_decimal_or_none (some s) = is_decimal_text s

-- The check of a cell that may be NULL, or of an optional text.
unfoldable pub check_optional : ℕ → Option String → Check
unfolding check_cell
check_optional limit none = ok tt
check_optional limit (some s) = check_cell limit s

-- The body of the loop over the rows.
unfoldable pub check_row : ℕ → ℕ → Row → Check
check_row width limit row = do
  fail_if (not (length row == width)) invalid_result_shape
  for_each (check_optional limit) row

-- `canonical_json_bytes(&value)?.len() > limit`, with the error for a text that is too long.
unfoldable pub check_bytes : Writer → Value → ℕ → ValidationError → Check
check_bytes to_vec value limit e = elim (to_vec (canonicalize value)) [
  | none ↦ err serialization
  | some bytes ↦ fail_if (ltb limit (length bytes)) e
]

-- `QueryResult::validate`.
unfoldable pub validate_result : Writer → Config → QueryResult → Check
validate_result to_vec config q = do
  fail_if (ltb config.columns (length q.columns) || ltb config.result_rows (length q.rows))
      result_limit
  fail_if (not (is_decimal_or_none q.affected_rows)) invalid_affected_rows
  for_each (λ c. check_cell config.cell_bytes c.name) q.columns
  check_cell config.cell_bytes q.command_tag
  check_optional config.cell_bytes q.affected_rows
  for_each (check_row (length q.columns) config.cell_bytes) q.rows
  check_bytes to_vec (query_value q) config.result_json_bytes result_limit
