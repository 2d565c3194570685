-- ===== src/Protocol/Errors/Wire.antt =====
-- protocol.rs: how an error payload is written to JSON and read back.
use pg_mcp.Prelude.{
  String, not, Option, none, some, List, [], ◌∷◌, any, str_eq, eq_iff, eq_refl, if◌then◌else◌,
  Result, ok, err, ◌>>=◌, ◌>>◌, fail_if, is_some, false, ◌≡◌, refl, ap, arith,
}
use pg_mcp.Protocol.Json.{Value, null, string, object, Fields, end, field, get, text_or_null}
use pg_mcp.Protocol.Json.Derive.{Read, is_null, malformed, read_string, nullable, variant_name}
use pg_mcp.Protocol.Status.{ValidationError}
use pg_mcp.Protocol.Errors.{
  ErrorCode, all_codes, code, message, ErrorPayload, TransactionOutcome, outcome_unknown,
  bad_sqlstate, validate_payload,
}

-- Why a payload or an envelope is refused.
pub data DecodeError : Type 0 where
  not_an_object : DecodeError
  missing_field unknown_field invalid_field : String → DecodeError
  wrong_message bad_state no_single_outcome : DecodeError
  refused : ValidationError → DecodeError

-- `exact_object_keys`: the keys in turn must be there, and no other may be.
unfoldable pub require_keys : List String → Fields → Result (Unit {0}) DecodeError
require_keys [] fs = ok tt
require_keys (key ∷ keys) fs = do
  fail_if (not (is_some (get key fs))) (missing_field key)
  require_keys keys fs

unfoldable pub allow_keys : List String → Fields → Result (Unit {0}) DecodeError
allow_keys keys end = ok tt
allow_keys keys (field k v fs) = do
  fail_if (not (any (str_eq k) keys)) (unknown_field k)
  allow_keys keys fs

exact_object_keys : Fields → List String → Result (Unit {0}) DecodeError
unfolding require_keys allow_keys get
exact_object_keys fs keys = do require_keys keys fs; allow_keys keys fs

-- `decode_value` at one key, for a reader of the value.
unfoldable pub decode_value {ℓ} : {A : Type ℓ} → Read A → Fields → String → Result A DecodeError
unfolding get
decode_value read fs key = elim (get key fs) [
  | none ↦ err (missing_field key)
  | some v ↦ elim (read v) [ err _ ↦ err (invalid_field key) | ok a ↦ ok a ]
]

-- The derived readers of a code, by its name, and of the one outcome.
find_code : List ErrorCode → String → Option ErrorCode
find_code [] s = none
find_code (c ∷ cs) s = if str_eq (code c) s then some c else find_code cs s

read_code : Read ErrorCode
read_code v = do
  name ← variant_name v
  elim (find_code all_codes name) [ none ↦ err malformed | some c ↦ ok c ]

read_outcome : Read TransactionOutcome
read_outcome v = do
  name ← variant_name v
  if str_eq name "unknown" then ok outcome_unknown else err malformed

-- `Deserialize for ErrorPayload`.
decode_fields : Fields → Result ErrorPayload DecodeError
unfolding exact_object_keys decode_value read_code read_outcome
decode_fields fs = do
  exact_object_keys fs ("code" ∷ "message" ∷ "sqlstate" ∷ "transaction_outcome" ∷ [])
  c ← decode_value read_code fs "code"
  text ← decode_value read_string fs "message"
  state ← decode_value (nullable read_string) fs "sqlstate"
  outcome ← decode_value (nullable read_outcome) fs "transaction_outcome"
  fail_if (not (str_eq text (message c))) wrong_message
  fail_if (bad_sqlstate state) bad_state
  ok (record { code = c; message = text; sqlstate = state; transaction_outcome = outcome })

pub decode : Value → Result ErrorPayload DecodeError
unfolding decode_fields
decode (object fs) = decode_fields fs
decode _ = err not_an_object

outcome_or_null : Option TransactionOutcome → Value
outcome_or_null none = null
outcome_or_null (some outcome_unknown) = string "unknown"

-- `Serialize for ErrorPayload`: the message is the code's own, not the field's.
pub encode : ErrorPayload → Value
unfolding outcome_or_null
encode p = object (
    field "code" (string (code p.code)) (
      field "message" (string (message p.code)) (
        field "sqlstate" (text_or_null p.sqlstate)
          (field "transaction_outcome" (outcome_or_null p.transaction_outcome) end))))

-- The reader of codes finds every code by its own spelling: the 24 spellings are different.
find_code-code : (c : ErrorCode) → find_code all_codes (code c) ≡ some c
unfolding find_code code
find_code-code ErrorCode.unsupported_server = refl
find_code-code _ = refl

-- Different codes are spelled differently.
code-injective : (c d : ErrorCode) → code c ≡ code d → c ≡ d
code-injective c d h = cc (find_code-code c, find_code-code d, ap (find_code all_codes) h)

-- A payload that passes `ErrorPayload::validate` is read back as it was from what is written.
pub decode-encode : (p : ErrorPayload) → validate_payload p ≡ ok tt → decode (encode p) ≡ ok p
unfolding decode encode validate_payload
decode-encode p h =
    ground
      (arith, find_code-code p.code, eq_iff p.message (message p.code), eq_refl (message p.code))

-- What is written is not null.
pub encode_given : (p : ErrorPayload) → is_null (encode p) ≡ false
unfolding encode
encode_given p = refl
