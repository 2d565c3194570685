-- ===== src/Libpq/Collector/Retained.antt =====
-- What a collector holds after any sequence of results.
use pg_mcp.Prelude.{
  ℕ, zero, suc, ◌+◌, leb, ltb, some, map, length, ok, err, ◌≡◌, ◌⊎◌, inl, inr, refl, ap, arith,
  Result-cases, Option-cases, Bool-cases,
}
use pg_mcp.Protocol.Json.Canonical.{Writer}
use pg_mcp.Protocol.Rows.{validate_result}
use pg_mcp.Libpq.{QueryLimits}
use pg_mcp.Libpq.Collector.{
  NativeResult, Collector, new_collector, candidate, limits_config, Step, ◌then_do◌,
  ensure_candidate_fits, retain, push_columns, read_row, push_rows, take_columns, consume_rows,
  consume_affected, consume_command, finish, public_column,
}

module _ (to_vec : Writer) where
  -- Nothing was retained yet, or the whole candidate passes the public validation.
  abbrev pub IsRetained : Collector → Type 0
  IsRetained c =
      (c ≡ new_collector c.limits)
      ⊎ (validate_result to_vec (limits_config c.limits) (candidate c) ≡ ok tt)

  -- The step leaves a retained collector under the same limits.
  abbrev pub Keeps : QueryLimits → Step → Type 0
  Keeps l s = IsRetained s.1 × (s.1.limits ≡ l)

  pub then_do-Keeps :
      (l : QueryLimits) (s : Step) (next : Collector → Step)
      → Keeps l s
      → ((c : Collector) → IsRetained c → c.limits ≡ l → Keeps l (next c))
      → Keeps l (s then_do next)
  then_do-Keeps l (ok _, c) next k h = h c k.0 k.1
  then_do-Keeps l (err e, c) next k h = k

  retain-Keeps :
      (l : QueryLimits) (before after : Collector)
      → IsRetained before
      → before.limits ≡ l
      → after.limits ≡ l
      → Keeps l (retain to_vec before after)
  unfolding retain ensure_candidate_fits
  retain-Keeps l before after k e e' =
      elim (Result-cases (validate_result to_vec (limits_config after.limits) (candidate after))) [
        | inl (_, v) ↦ rw (v, retain, ensure_candidate_fits) (inr v, e')
        | inr (x, v) ↦ rw (v, retain, ensure_candidate_fits) (k, e)
      ]

  push_columns-Keeps :
      (l : QueryLimits) (r : NativeResult) (field left : ℕ) (c : Collector)
      → IsRetained c
      → c.limits ≡ l
      → Keeps l (push_columns to_vec r field left c)
  unfolding push_columns
  push_columns-Keeps l r field zero c k e = (k, e)
  push_columns-Keeps l r field (suc left) c k e = elim (Option-cases (r.fname field)) [
    | inl n ↦ rw (n, push_columns) (k, e)
    | inr (name, n) ↦
        rw (n, push_columns)
          (then_do-Keeps l _ _ (retain-Keeps l c _ k e e) (push_columns-Keeps l r (field + 1) left))
  ]

  push_rows-Keeps :
      (l : QueryLimits) (r : NativeResult) (fields index left : ℕ) (c : Collector)
      → IsRetained c
      → c.limits ≡ l
      → Keeps l (push_rows to_vec r fields index left c)
  unfolding push_rows
  push_rows-Keeps l r fields index zero c k e = (k, e)
  push_rows-Keeps l r fields index (suc left) c k e =
      elim (Bool-cases (leb c.limits.result_rows (length c.rows))) [
        | inl full ↦ rw (full, push_rows) (k, e)
        | inr room ↦ elim (Result-cases (read_row to_vec r c.limits.cell_bytes index 0 fields)) [
          | inr (x, q) ↦ rw (room, q, push_rows) (k, e)
          | inl (row, q) ↦
              rw (room, q, push_rows)
                (then_do-Keeps l _ _ (retain-Keeps l c _ k e e)
                  (push_rows-Keeps l r fields (index + 1) left))
        ]
      ]

  take_columns-Keeps :
      (l : QueryLimits) (r : NativeResult) (fields : ℕ) (c : Collector)
      → IsRetained c
      → c.limits ≡ l
      → Keeps l (take_columns to_vec r fields c)
  unfolding take_columns
  take_columns-Keeps l r fields c k e = ground (arith, k, e, push_columns-Keeps l r 0 fields c k e)

  -- Whatever a result holds, and whether it is consumed or refused, a collector that retains only
  -- what passes `QueryResult::validate` under its limits still does so afterwards.
  pub consume_rows-Keeps :
      (r : NativeResult) (c : Collector) → IsRetained c → Keeps c.limits (consume_rows to_vec r c)
  unfolding consume_rows
  consume_rows-Keeps r c k = elim (Option-cases r.nfields) [
    | inl n ↦ rw (n, consume_rows) (k, refl)
    | inr (fields, n) ↦ elim (Option-cases r.ntuples) [
      | inl m ↦ rw (n, m, consume_rows) (k, refl)
      | inr (rows, m) ↦ elim (Bool-cases (ltb c.limits.columns fields)) [
        | inl wide ↦ rw (n, m, wide, consume_rows) (k, refl)
        | inr fits ↦
            rw (n, m, fits, consume_rows)
              (then_do-Keeps c.limits _ _ (take_columns-Keeps c.limits r fields c k refl)
                (push_rows-Keeps c.limits r fields 0 rows))
      ]
    ]
  ]

  consume_affected-Keeps :
      (l : QueryLimits) (r : NativeResult) (c : Collector)
      → IsRetained c
      → c.limits ≡ l
      → Keeps l (consume_affected to_vec r c)
  unfolding consume_affected
  consume_affected-Keeps l r c k e = elim (Option-cases r.cmd_tuples) [
    | inl n ↦ rw (n, consume_affected) (k, e)
    | inr (affected, n) ↦
        let kept = retain-Keeps l c (record c { affected_rows = some affected }) k e e in
        ground (arith, n, k, e, kept)
  ]

  -- The same holds of the command tag and the number of affected rows.
  pub consume_command-Keeps :
      (r : NativeResult) (c : Collector)
      → IsRetained c
      → Keeps c.limits (consume_command to_vec r c)
  unfolding consume_command
  consume_command-Keeps r c k = elim (Option-cases r.cmd_status) [
    | inl n ↦ rw (n, consume_command) (k, refl)
    | inr (tag, n) ↦
        rw (n, consume_command)
          (then_do-Keeps c.limits _ _ (retain-Keeps c.limits c _ k refl refl)
            (consume_affected-Keeps c.limits r))
  ]

  -- What a retained collector finishes with.
  pub finish_lem :
      (c : Collector)
      → IsRetained c
      → (finish c ≡ finish (new_collector c.limits))
        ⊎ (validate_result to_vec (limits_config c.limits) (record {
          columns = map public_column (finish c).columns;
          rows = (finish c).rows;
          command_tag = (finish c).command_tag;
          affected_rows = (finish c).affected_rows;
        })
            ≡ ok tt)
  unfolding finish
  finish_lem c (inl e) = inl (ap finish e)
  finish_lem c (inr v) = inr v
