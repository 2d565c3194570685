-- ===== src/Server/Tools.antt =====
-- crates/postgres-mcp/src/tools.rs: the tools, as functions over the core. The router of rmcp,
-- which reads the arguments by their schemas, is not part of it.
use pg_mcp.Prelude.{
  ℕ, String, ◌^◌, ltb, Option, none, some, is_some, List, [], ◌∷◌, Result, ok, err, ◌>>=◌,
  if◌then◌else◌,
}
use pg_mcp.Protocol.Json.{
  Value, null, number, string, array, object, pos_int, field, end, get, no_items, unsigned,
}
use pg_mcp.Protocol.Json.Canonical.{canonicalize}
use pg_mcp.Protocol.Json.Derive.{Read, malformed, struct_fields, member}
use pg_mcp.Protocol.Moves.{process_moves}
use pg_mcp.Protocol.Errors.{ErrorCode, message, internal, invalid_input, new_payload}
use pg_mcp.Protocol.Envelope.{Envelope, failure, error_envelope_with_sqlstate}
use pg_mcp.Protocol.Envelope.Wire.{encode_envelope}
use pg_mcp.Protocol.Request.{Parameter, new_parameter}
use pg_mcp.Worker.Execute.{CoreFailure, Outcome}

-- `Deserialize for ParameterArg`: both keys are needed, and each may be null.
abbrev pub read_oid : Read (Option ℕ)
read_oid null = ok none
read_oid (number (pos_int n)) = if ltb n (2 ^ 32) then ok (some n) else err malformed
read_oid _ = err malformed

abbrev pub read_text : Read (Option String)
read_text null = ok none
read_text (string s) = ok (some s)
read_text _ = err malformed

pub record ParameterArg : Type 0 where
  pub type_oid : Option ℕ
  pub value : Option String

unfoldable pub read_parameter_arg : Read ParameterArg
unfolding get
read_parameter_arg v = do
  fs ← struct_fields ("type_oid" ∷ "value" ∷ []) v
  type_oid ← member read_oid "type_oid" fs
  value ← member read_text "value" fs
  ok (record { type_oid = type_oid; value = value })

pub record QueryArgs : Type 0 where
  pub handle : String
  pub sql : String
  pub parameters : List ParameterArg

-- `Parameter::try_from` over the list, and `QueryArgs::into_core`; the error is not read.
unfoldable pub core_parameters : List ParameterArg → Result (List Parameter) (Unit {0})
unfolding new_parameter
core_parameters [] = ok []
core_parameters (p ∷ ps) = elim (new_parameter p.type_oid p.value) [
  | err _ ↦ err tt
  | ok parameter ↦ core_parameters ps >>= λ rest. ok (parameter ∷ rest)
]

unfoldable pub into_core : QueryArgs → Result (String × String × List Parameter) (Unit {0})
unfolding core_parameters
into_core args = core_parameters args.parameters >>= λ ps. ok (args.handle, args.sql, ps)

-- `CallToolResult::structured` and `CallToolResult::structured_error`.
pub data CallToolResult : Type 0 where
  structured structured_error : Value → CallToolResult

-- The fallback of `canonical_value`.
abbrev internal_value : Value
internal_value = object (
    field "envelope_version" (unsigned 1) (
      field "handle_state" null (
        field "next_moves" (array no_items) (
          field "error"
            (object (
              field "code" (string "INTERNAL") (
                field "message" (string (message internal))
                  (field "sqlstate" null (field "transaction_outcome" null end)))))
            end))))

-- `canonical_value`, for the envelopes of the core, whose results are JSON values.
unfoldable pub canonical_value : Envelope Value → Value
unfolding canonicalize encode_envelope
canonical_value e =
    canonicalize
      (elim (encode_envelope Value (λ v. ok v) (λ v. v) e) [ ok v ↦ v | err _ ↦ internal_value ])

-- `success`, `failure` and `failure_for`.
unfoldable pub success_result : Envelope Value → CallToolResult
unfolding canonical_value
success_result e =
    if is_some e.error then structured_error (canonical_value e) else structured (canonical_value e)

unfoldable pub failure_result : ErrorCode → CallToolResult
unfolding canonical_value failure new_payload
failure_result c = structured_error (canonical_value (failure none process_moves (new_payload c)))

unfoldable pub failure_for : CoreFailure → CallToolResult
unfolding canonical_value error_envelope_with_sqlstate
failure_for f = structured_error (
    canonical_value
      (error_envelope_with_sqlstate f.handle_state f.error f.outcome_unknown f.sqlstate))

-- The `match` that every tool ends with.
unfoldable pub tool_result : Outcome → CallToolResult
unfolding success_result failure_for
tool_result (ok e) = success_result e
tool_result (err f) = failure_for f

-- The operations of the core that the tools call, each with the state that it leaves.
pub record CoreCalls : Type 1 where
  pub State : Type 0
  pub open_database : String → State → Outcome × State
  pub list_handles : State → Outcome × State
  pub get_schema : String → State → Outcome × State
  pub open_read : String → State → Outcome × State
  pub open_write : String → State → Outcome × State
  pub query : String → String → List Parameter → State → Outcome × State
  pub commit : String → State → Outcome × State
  pub rollback : String → State → Outcome × State
  pub close_database : String → State → Outcome × State

-- A call of one of the nine tools, with the arguments that were read.
pub data ToolCall : Type 0 where
  open_database : (profile : String) → ToolCall
  list_handles : ToolCall
  get_schema open_read open_write commit rollback close_database : (handle : String) → ToolCall
  query : QueryArgs → ToolCall

module _ (c : CoreCalls) where
  abbrev answered : Outcome × c.State → CallToolResult × c.State
  answered (outcome, s) = (tool_result outcome, s)

  -- The bodies of the tools.
  unfoldable pub call_tool : ToolCall → c.State → CallToolResult × c.State
  unfolding tool_result into_core failure_result
  call_tool (open_database profile) s = answered (c.open_database profile s)
  call_tool list_handles s = answered (c.list_handles s)
  call_tool (get_schema h) s = answered (c.get_schema h s)
  call_tool (open_read h) s = answered (c.open_read h s)
  call_tool (open_write h) s = answered (c.open_write h s)
  call_tool (commit h) s = answered (c.commit h s)
  call_tool (rollback h) s = answered (c.rollback h s)
  call_tool (close_database h) s = answered (c.close_database h s)
  call_tool (query args) s = elim (into_core args) [
    | err _ ↦ (failure_result invalid_input, s)
    | ok (handle, sql, ps) ↦ answered (c.query handle sql ps s)
  ]
