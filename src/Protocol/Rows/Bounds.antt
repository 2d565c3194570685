-- ===== src/Protocol/Rows/Bounds.antt =====
-- What a validated query result satisfies.
use pg_mcp.Prelude.{
  ℕ, ◌≤◌, String, len, true, Option, none, some, List, [], ◌∷◌, All, length, ok, ◌≡◌, ◌↔◌, refl,
  arith, inl, inr, Option-cases,
}
use pg_mcp.Protocol.Status.{Check, result_limit}
use pg_mcp.Protocol.Json.Canonical.{canonicalize, Writer}
use pg_mcp.Protocol.Envelope.{for_each}
use pg_mcp.Protocol.Rows.{
  ResultColumn, Row, QueryResult, query_value, is_decimal_or_none, check_cell, check_optional,
  check_row, check_bytes, validate_result,
}
use pg_mcp.Config.{Config}

-- A text or NULL within the cell limit.
abbrev pub Fits : ℕ → Option String → Type 0
Fits limit none = Unit
Fits limit (some s) = len s ≤ limit

-- A row of the table's width whose cells fit.
abbrev pub IsRow : ℕ → ℕ → Row → Type 0
IsRow width limit row = (length row ≡ width) × All (Fits limit) row

-- The canonical text of the result has at most so many bytes.
abbrev pub EncodesWithin : Writer → QueryResult → ℕ → Type 0
EncodesWithin to_vec q limit =
    (bytes : List ℕ) × (to_vec (canonicalize (query_value q)) ≡ some bytes) × (length bytes ≤ limit)

pub record IsBounded (to_vec : Writer) (config : Config) (q : QueryResult) : Type 0 where
  pub columns_fit : length q.columns ≤ config.columns
  pub rows_fit : length q.rows ≤ config.result_rows
  pub decimal : is_decimal_or_none q.affected_rows ≡ true
  pub names_fit : All (λ (c : ResultColumn). len c.name ≤ config.cell_bytes) q.columns
  pub tag_fits : len q.command_tag ≤ config.cell_bytes
  pub affected_fits : Fits config.cell_bytes q.affected_rows
  pub rectangular : All (IsRow (length q.columns) config.cell_bytes) q.rows
  pub bytes_fit : EncodesWithin to_vec q config.result_json_bytes

-- A loop of checks passes exactly when each check does.
for_each_iff {ℓ κ} :
    {A : Type ℓ} (check : A → Check) (P : A → Type κ)
    → ((a : A) → (check a ≡ ok tt) ↔ P a)
    → (xs : List A) → (for_each check xs ≡ ok tt) ↔ All P xs
for_each_iff check P h [] = ((λ _. tt), (λ _. refl))
for_each_iff check P h (x ∷ xs) = ground (arith, h x, for_each_iff check P h xs)

check_cell_iff : (limit : ℕ) (s : String) → (check_cell limit s ≡ ok tt) ↔ (len s ≤ limit)
unfolding check_cell
check_cell_iff limit s = ground arith

check_optional_iff :
    (limit : ℕ) (o : Option String) → (check_optional limit o ≡ ok tt) ↔ Fits limit o
unfolding check_optional
check_optional_iff limit none = ground arith
check_optional_iff limit (some s) = ground arith

check_row_iff :
    (width limit : ℕ) (row : Row) → (check_row width limit row ≡ ok tt) ↔ IsRow width limit row
unfolding check_row
check_row_iff width limit row =
    ground (arith, for_each_iff (check_optional limit) (Fits limit) (check_optional_iff limit) row)

check_bytes_iff :
    (to_vec : Writer) (q : QueryResult) (limit : ℕ)
    → (check_bytes to_vec (query_value q) limit result_limit ≡ ok tt) ↔ EncodesWithin to_vec q limit
unfolding check_bytes
check_bytes_iff to_vec q limit = elim (Option-cases (to_vec (canonicalize (query_value q)))) [
  | inl e ↦ rw e ((λ h. cc), (λ h. cc h.1))
  | inr (bytes, e) ↦ rw e (
    (λ h. (bytes, refl, ground arith)),
    (λ h. let same : bytes ≡ h.0 = ground (arith, h.1) in ground (arith, h.2)),
  )
]

-- `QueryResult::validate` accepts exactly the results within every limit of the configuration:
-- the numbers of columns and rows, each name, tag and cell, the shape of the table, decimal
-- affected rows, and the bytes of the canonical JSON.
pub validate_result_iff :
    (to_vec : Writer) (config : Config) (q : QueryResult)
    → (validate_result to_vec config q ≡ ok tt) ↔ IsBounded to_vec config q
unfolding validate_result
validate_result_iff to_vec config q = (sound, complete)
  where
    names :
        (for_each (λ (c : ResultColumn). check_cell config.cell_bytes c.name) q.columns ≡ ok tt)
        ↔ All (λ (c : ResultColumn). len c.name ≤ config.cell_bytes) q.columns
    names = for_each_iff _ _ (λ c. check_cell_iff config.cell_bytes c.name) q.columns

    rows :
        (for_each (check_row (length q.columns) config.cell_bytes) q.rows ≡ ok tt)
        ↔ All (IsRow (length q.columns) config.cell_bytes) q.rows
    rows = for_each_iff _ _ (check_row_iff (length q.columns) config.cell_bytes) q.rows

    sound : validate_result to_vec config q ≡ ok tt → IsBounded to_vec config q
    sound h = ground (
      arith,
      names,
      rows,
      check_cell_iff config.cell_bytes q.command_tag,
      check_optional_iff config.cell_bytes q.affected_rows,
      check_bytes_iff to_vec q config.result_json_bytes,
    )

    complete : IsBounded to_vec config q → validate_result to_vec config q ≡ ok tt
    complete b = ground (
      arith,
      names,
      rows,
      check_cell_iff config.cell_bytes q.command_tag,
      check_optional_iff config.cell_bytes q.affected_rows,
      check_bytes_iff to_vec q config.result_json_bytes,
    )
