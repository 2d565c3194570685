-- ===== src/Libpq/Collector.antt =====
-- libpq.rs: `ResultCollector`, which copies the results of a query under the limits.
pub mod Retained
pub mod Copied
use pg_mcp.Prelude.{
  ℕ, zero, suc, String, len, Bool, true, false, ◌&&◌, not, ◌+◌, leb, ltb, ◌==◌, Option, none, some,
  unwrap_or, List, [], ◌∷◌, ◌++◌, map, all, length, str_eq, Result, ok, err, ◌>>=◌, ◌>>◌, fail_if,
  is_ok, if◌then◌else◌,
}
use pg_mcp.Protocol.Json.Canonical.{Writer}
use pg_mcp.Protocol.Errors.{codes, is_ascii_digit, is_ascii_alphanumeric}
use pg_mcp.Protocol.Rows.{Row, ResultColumn, QueryResult, validate_result}
use pg_mcp.Config.{Config, default}
use pg_mcp.Libpq.{
  QueryLimits, Column, ResultSet, AdapterError, ErrorClass, adapter_error, database, result_limit,
}

-- The text that a pointer of libpq leads to, if it is not null and is UTF-8.
abbrev pub NativeText : Type 0
NativeText = Option String

-- What PQgetisnull, PQgetlength and PQgetvalue say of a cell. A length below 0 and a null pointer
-- are errors of their own.
pub data NativeCell : Type 0 where
  sql_null negative_length : NativeCell
  no_pointer not_utf8 : ℕ → NativeCell
  bytes : ℕ → String → NativeCell

pub data ExecStatus : Type 0 where
  single_tuple tuples_chunk tuples_ok command_ok copy_in copy_out copy_both : ExecStatus
  fatal_error bad_response nonfatal_error empty_query other_status : ExecStatus

-- A PGresult by what its accessors return: PQresultStatus, PQnfields and PQntuples (none where they
-- are negative), PQfname, PQftype, the cells, PQcmdStatus, PQcmdTuples and the SQLSTATE field.
pub record NativeResult : Type 0 where
  pub status : ExecStatus
  pub nfields : Option ℕ
  pub ntuples : Option ℕ
  pub fname : ℕ → NativeText
  pub ftype : ℕ → ℕ
  pub cell : ℕ → ℕ → NativeCell
  pub cmd_status : NativeText
  pub cmd_tuples : NativeText
  pub sqlstate : NativeText

pub record Collector : Type 0 where
  pub limits : QueryLimits
  pub columns : List Column
  pub rows : List Row
  pub command_tag : Option String
  pub affected_rows : Option String

-- `ResultCollector::new`.
abbrev pub new_collector : QueryLimits → Collector
new_collector limits = record {
  limits = limits;
  columns = [];
  rows = [];
  command_tag = none;
  affected_rows = none;
}

abbrev pub public_column : Column → ResultColumn
public_column c = record { name = c.name; type_oid = c.type_oid }

-- The public result that `ensure_candidate_fits` builds, and the configuration it is checked by.
abbrev pub candidate : Collector → QueryResult
candidate c = record {
  columns = map public_column c.columns;
  rows = c.rows;
  command_tag = unwrap_or c.command_tag "";
  affected_rows = c.affected_rows;
}

abbrev pub limits_config : QueryLimits → Config
limits_config l = record default {
  result_json_bytes = l.result_json_bytes;
  result_rows = l.result_rows;
  columns = l.columns;
  cell_bytes = l.cell_bytes;
}

abbrev pub Consumed : Type 0
Consumed = Result (Unit {0}) AdapterError

-- The outcome of a change to the collector, and the collector that is left.
abbrev pub Step : Type 0
Step = Consumed × Collector

-- `e?` on a step, and the rest of the function.
infixl 5 ◌then_do◌
abbrev pub ◌then_do◌ : Step → (Collector → Step) → Step
(ok _, c) then_do next = next c
(err e, c) then_do next = (err e, c)

module _ (to_vec : Writer) where
  -- `ensure_candidate_fits`.
  unfoldable pub ensure_candidate_fits : Collector → Consumed
  ensure_candidate_fits c = elim (validate_result to_vec (limits_config c.limits) (candidate c)) [
    | ok _ ↦ ok tt
    | err _ ↦ err (adapter_error result_limit)
  ]

  -- A change that is kept if the candidate fits, and undone otherwise.
  unfoldable pub retain : Collector → Collector → Step
  retain before after = elim (ensure_candidate_fits after) [
    | ok _ ↦ (ok tt, after)
    | err e ↦ (err e, before)
  ]

  -- The loop over the fields of a first result, from `field` on.
  unfoldable pub push_columns : NativeResult → ℕ → ℕ → Collector → Step
  push_columns r field zero c = (ok tt, c)
  push_columns r field (suc left) c = elim (r.fname field) [
    | none ↦ (err (adapter_error database), c)
    | some name ↦
        let column : Column = record { name = name; type_oid = r.ftype field } in
        retain c (record c { columns = c.columns ++ (column ∷ []) })
        then_do push_columns r (field + 1) left
  ]

  -- One cell.
  unfoldable pub read_cell : ℕ → NativeCell → Result (Option String) AdapterError
  read_cell limit sql_null = ok none
  read_cell limit negative_length = err (adapter_error database)
  read_cell limit (no_pointer n) =
      if ltb limit n then err (adapter_error result_limit) else err (adapter_error database)
  read_cell limit (not_utf8 n) =
      if ltb limit n then err (adapter_error result_limit) else err (adapter_error database)
  read_cell limit (bytes n text) =
      if ltb limit n then err (adapter_error result_limit) else ok (some text)

  -- The loop over the fields of a row, from `field` on.
  unfoldable pub read_row : NativeResult → ℕ → ℕ → ℕ → ℕ → Result Row AdapterError
  read_row r limit index field zero = ok []
  read_row r limit index field (suc left) = do
    value ← read_cell limit (r.cell index field)
    rest ← read_row r limit index (field + 1) left
    ok (value ∷ rest)

  -- The loop over the rows, from `index` on.
  unfoldable pub push_rows : NativeResult → ℕ → ℕ → ℕ → Collector → Step
  push_rows r fields index zero c = (ok tt, c)
  push_rows r fields index (suc left) c =
      if leb c.limits.result_rows (length c.rows)
      then (err (adapter_error result_limit), c)
      else elim (read_row r c.limits.cell_bytes index 0 fields) [
        | err e ↦ (err e, c)
        | ok row ↦
            retain c (record c { rows = c.rows ++ (row ∷ []) })
            then_do push_rows r fields (index + 1) left
      ]

  -- The columns are taken from the first result that has any; later results have as many.
  unfoldable pub take_columns : NativeResult → ℕ → Collector → Step
  take_columns r fields c =
      if length c.columns == 0 && ltb 0 fields
      then push_columns r 0 fields c
      else if not (length c.columns == fields)
      then (err (adapter_error database), c)
      else (ok tt, c)

  -- `consume_rows`.
  unfoldable pub consume_rows : NativeResult → Collector → Step
  consume_rows r c = elim r.nfields [
    | none ↦ (err (adapter_error database), c)
    | some fields ↦ elim r.ntuples [
      | none ↦ (err (adapter_error database), c)
      | some rows ↦
          if ltb c.limits.columns fields
          then (err (adapter_error result_limit), c)
          else (take_columns r fields c then_do push_rows r fields 0 rows)
    ]
  ]

  -- The second half of `consume_command`.
  unfoldable pub consume_affected : NativeResult → Collector → Step
  consume_affected r c = elim r.cmd_tuples [
    | none ↦ (err (adapter_error database), c)
    | some affected ↦
        if str_eq affected ""
        then (ok tt, c)
        else if not (all is_ascii_digit (codes affected))
        then (err (adapter_error database), c)
        else retain c (record c { affected_rows = some affected })
  ]

  -- `consume_command`.
  unfoldable pub consume_command : NativeResult → Collector → Step
  consume_command r c = elim r.cmd_status [
    | none ↦ (err (adapter_error database), c)
    | some tag ↦ retain c (record c { command_tag = some tag }) then_do consume_affected r
  ]

-- `result_sqlstate`.
unfoldable pub result_sqlstate : NativeResult → Option String
result_sqlstate r = elim r.sqlstate [
  | none ↦ none
  | some s ↦ if (len s == 5) && all is_ascii_alphanumeric (codes s) then some s else none
]

-- `finish`.
unfoldable pub finish : Collector → ResultSet
finish c = record {
  columns = c.columns;
  rows = c.rows;
  command_tag = unwrap_or c.command_tag "";
  affected_rows = c.affected_rows;
}
