-- ===== src/Protocol/Request.antt =====
-- protocol.rs: query parameters and the checks on a query request. A `usize` is a number below
-- 2 ^ 64 (the supported targets are 64-bit).
pub mod Limits
pub mod Wire
use pg_mcp.Prelude.{
  ℕ, ◌+◌, ◌^◌, String, len, Bool, true, false, ◌&&◌, ◌||◌, not, Option, none, some, List, [], ◌∷◌,
  length, any, all, ltb, leb, ◌==◌, if◌then◌else◌, Result, ok, err, ◌>>=◌, ◌>>◌, fail_if,
}
use pg_mcp.Protocol.Status.{
  Check, ValidationError, embedded_nul, invalid_query, parameter_count_limit, parameter_byte_limit,
}
use pg_mcp.Protocol.Errors.{codes}

abbrev pub usize_mod : ℕ
usize_mod = 2 ^ 64

-- `usize::checked_add`, with the error that `ok_or` gives.
unfoldable pub checked_add : ℕ → ℕ → ValidationError → Result ℕ ValidationError
checked_add a b e = if ltb (a + b) usize_mod then ok (a + b) else err e

-- `char::is_whitespace`: the characters with the property White_Space.
abbrev pub is_whitespace : ℕ → Bool
is_whitespace c =
    (leb 0x09 c && leb c 0x0d)
    || c == 0x20
    || c == 0x85
    || c == 0xa0
    || c == 0x1680
    || (leb 0x2000 c && leb c 0x200a)
    || c == 0x2028
    || c == 0x2029
    || c == 0x202f
    || c == 0x205f
    || c == 0x3000

-- `s.trim().is_empty()`.
unfoldable pub is_blank : String → Bool
is_blank s = all is_whitespace (codes s)

-- `s.contains('\0')`.
unfoldable pub contains_nul : String → Bool
contains_nul s = any (λ c. c == 0) (codes s)

pub record Parameter : Type 0 where
  pub type_oid : Option ℕ
  pub value : Option String

-- `Parameter::validate`.
unfoldable pub validate_parameter : Parameter → Check
validate_parameter p = elim p.value [
  | none ↦ ok tt
  | some v ↦ fail_if (contains_nul v) embedded_nul
]

-- `Parameter::new`.
unfoldable pub new_parameter : Option ℕ → Option String → Result Parameter ValidationError
unfolding validate_parameter
new_parameter oid v =
    let p : Parameter = record { type_oid = oid; value = v } in validate_parameter p >>= λ _. ok p

-- `Parameter::value_bytes`.
unfoldable pub value_bytes : Parameter → ℕ
value_bytes p = elim p.value [ none ↦ 0 | some v ↦ len v ]

pub record QueryRequest : Type 0 where
  pub sql : String
  pub parameters : List Parameter

-- The loop of `validate_with_limits` over the parameters.
unfoldable pub check_parameters : ℕ → ℕ → List Parameter → Check
unfolding validate_parameter checked_add value_bytes
check_parameters limit total [] = ok tt
check_parameters limit total (p ∷ ps) = do
  validate_parameter p
  next ← checked_add total (value_bytes p) parameter_byte_limit
  fail_if (ltb limit next) parameter_byte_limit
  check_parameters limit next ps

-- `QueryRequest::validate_with_limits`.
unfoldable pub validate_with_limits : QueryRequest → ℕ → ℕ → ℕ → Check
unfolding check_parameters is_blank contains_nul
validate_with_limits r sql_bytes parameter_limit parameter_bytes = do
  fail_if (is_blank r.sql || contains_nul r.sql || ltb sql_bytes (len r.sql)) invalid_query
  fail_if (ltb parameter_limit (length r.parameters)) parameter_count_limit
  check_parameters parameter_bytes 0 r.parameters

-- `QueryRequest::parameter_bytes`.
unfoldable pub total_bytes : ℕ → List Parameter → Result ℕ ValidationError
unfolding validate_parameter checked_add value_bytes
total_bytes total [] = ok total
total_bytes total (p ∷ ps) = do
  validate_parameter p
  next ← checked_add total (value_bytes p) parameter_byte_limit
  total_bytes next ps

unfoldable pub parameter_bytes : QueryRequest → Result ℕ ValidationError
unfolding total_bytes
parameter_bytes r = total_bytes 0 r.parameters
