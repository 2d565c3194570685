-- ===== src/Protocol/Request/Limits.antt =====
-- What the checks on a query request accept.
use pg_mcp.Prelude.{
  ℕ, ◌+◌, ◌≤◌, ◌<◌, len, false, List, [], ◌∷◌, All, length, sum_by, ok, ◌≡◌, ◌∙◌, ap, ◌↔◌, refl,
  arith,
}
use pg_mcp.Protocol.Request.{
  usize_mod, Parameter, QueryRequest, is_blank, contains_nul, validate_parameter, value_bytes,
  check_parameters, validate_with_limits, total_bytes, parameter_bytes,
}

-- A parameter without an embedded NUL.
abbrev pub IsClean : Parameter → Type 0
IsClean p = validate_parameter p ≡ ok tt

check_parameters_sound :
    (limit total : ℕ) (ps : List Parameter)
    → total ≤ limit
    → check_parameters limit total ps ≡ ok tt
    → All IsClean ps × (total + sum_by value_bytes ps ≤ limit)
unfolding check_parameters
check_parameters_sound limit total [] t h = (tt, omega arith)
check_parameters_sound limit total (p ∷ ps) t h =
    ground (arith, check_parameters_sound limit (total + value_bytes p) ps)

check_parameters_complete :
    (limit total : ℕ) (ps : List Parameter)
    → limit < usize_mod
    → All IsClean ps
    → total + sum_by value_bytes ps ≤ limit
    → check_parameters limit total ps ≡ ok tt
unfolding check_parameters
check_parameters_complete limit total [] u c h = refl
check_parameters_complete limit total (p ∷ ps) u c h =
    ground (arith, check_parameters_complete limit (total + value_bytes p) ps)

-- A request within its limits: text that is not blank and has no NUL, few enough parameters, none
-- with a NUL, and few enough bytes in all.
pub record IsWithin (r : QueryRequest) (sql_bytes parameter_limit bytes : ℕ) : Type 0 where
  pub not_blank : is_blank r.sql ≡ false
  pub no_nul : contains_nul r.sql ≡ false
  pub sql_fits : len r.sql ≤ sql_bytes
  pub count_fits : length r.parameters ≤ parameter_limit
  pub clean : All IsClean r.parameters
  pub bytes_fit : sum_by value_bytes r.parameters ≤ bytes

-- Where the byte limit is a `usize`, `validate_with_limits` accepts exactly the requests within
-- their limits: its overflow test refuses nothing more.
pub validate_with_limits_iff :
    (r : QueryRequest) (sql_bytes parameter_limit bytes : ℕ)
    → bytes < usize_mod
    → (validate_with_limits r sql_bytes parameter_limit bytes ≡ ok tt)
      ↔ IsWithin r sql_bytes parameter_limit bytes
unfolding validate_with_limits
validate_with_limits_iff r sql_bytes parameter_limit bytes u = (sound, complete)
  where
    sound :
        validate_with_limits r sql_bytes parameter_limit bytes ≡ ok tt
        → IsWithin r sql_bytes parameter_limit bytes
    sound h = ground (arith, check_parameters_sound bytes 0 r.parameters)

    complete :
        IsWithin r sql_bytes parameter_limit bytes
        → validate_with_limits r sql_bytes parameter_limit bytes ≡ ok tt
    complete w = ground (arith, check_parameters_complete bytes 0 r.parameters)

total_bytes_lem :
    (total : ℕ) (ps : List Parameter)
    → All IsClean ps
    → total + sum_by value_bytes ps < usize_mod
    → total_bytes total ps ≡ ok (total + sum_by value_bytes ps)
unfolding total_bytes
total_bytes_lem total [] c h = ground arith
total_bytes_lem total (p ∷ ps) c h = ground (arith, total_bytes_lem (total + value_bytes p) ps)

-- For an accepted request `parameter_bytes` returns the exact sum of the value lengths.
parameter_bytes-eq-sum :
    (r : QueryRequest) (sql_bytes parameter_limit bytes : ℕ)
    → bytes < usize_mod
    → validate_with_limits r sql_bytes parameter_limit bytes ≡ ok tt
    → parameter_bytes r ≡ ok (sum_by value_bytes r.parameters)
unfolding parameter_bytes
parameter_bytes-eq-sum r sql_bytes parameter_limit bytes u h =
    let w = (validate_with_limits_iff r sql_bytes parameter_limit bytes u).0 h in
    total_bytes_lem 0 r.parameters w.clean (omega arith) ∙ ap ok (omega arith)
