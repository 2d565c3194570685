-- ===== src/Libpq/Collector/Copied.antt =====
-- The rows that a collector copies from a result.
use pg_mcp.Prelude.{
  ℕ, zero, suc, String, ◌+◌, leb, ltb, Option, none, some, List, [], ◌∷◌, ◌++◌, length, ok, err,
  ◌≡◌, inl, inr, refl, sym, ◌∙◌, ap, arith, Result-cases, Option-cases, Bool-cases,
}
use mathlib.Core.List.{append_assoc, append-nil}
use pg_mcp.Protocol.Json.Canonical.{Writer}
use pg_mcp.Protocol.Rows.{Row}
use pg_mcp.Libpq.Collector.{
  NativeResult, NativeCell, bytes, Collector, Step, ◌then_do◌, ensure_candidate_fits, retain,
  push_columns, read_cell, read_row, push_rows, take_columns, consume_rows,
}

-- The text of a cell that can be read.
abbrev cell_text : NativeCell → Option String
cell_text (bytes n text) = some text
cell_text _ = none

abbrev row_texts : NativeResult → ℕ → ℕ → ℕ → Row
row_texts r index field zero = []
row_texts r index field (suc left) =
    cell_text (r.cell index field) ∷ row_texts r index (field + 1) left

-- The rows of a result from `index` on.
abbrev pub table : NativeResult → ℕ → ℕ → ℕ → List Row
table r fields index zero = []
table r fields index (suc left) = row_texts r index 0 fields ∷ table r fields (index + 1) left

module _ (to_vec : Writer) where
  read_row_lem :
      (r : NativeResult) (limit index field left : ℕ) (row : Row)
      → read_row to_vec r limit index field left ≡ ok row
      → row ≡ row_texts r index field left
  unfolding read_row read_cell
  read_row_lem r limit index field zero row h = ground arith
  read_row_lem r limit index field (suc left) row h =
      elim (Result-cases (read_row to_vec r limit index (field + 1) left)) [
        | inl (rest, e) ↦ ground (arith, e, read_row_lem r limit index (field + 1) left rest e)
        | inr (x, e) ↦ ground (arith, e)
      ]

  then_do_ok :
      (s : Step) (next : Collector → Step)
      → (s then_do next).0 ≡ ok tt
      → (s.0 ≡ ok tt) × ((s then_do next) ≡ next s.1)
  then_do_ok (ok _, c) next h = (refl, refl)
  then_do_ok (err e, c) next h = cc

  retain_ok :
      (before after : Collector)
      → (retain to_vec before after).0 ≡ ok tt
      → (retain to_vec before after).1 ≡ after
  unfolding retain
  retain_ok before after h = elim (Result-cases (ensure_candidate_fits to_vec after)) [
    | inl (_, e) ↦ rw (e, retain) refl
    | inr (x, e) ↦ absurd (ground (arith, e))
  ]

  retain_rows :
      (before after : Collector)
      → after.rows ≡ before.rows
      → (retain to_vec before after).1.rows ≡ before.rows
  unfolding retain
  retain_rows before after h = ground (arith, h)

  push_columns_rows :
      (r : NativeResult) (field left : ℕ) (c : Collector)
      → (push_columns to_vec r field left c).1.rows ≡ c.rows
  unfolding push_columns
  push_columns_rows r field zero c = refl
  push_columns_rows r field (suc left) c = elim (Option-cases (r.fname field)) [
    | inl n ↦ rw (n, push_columns) refl
    | inr (name, n) ↦
        let more = record c {
          columns = c.columns ++ (record { name = name; type_oid = r.ftype field } ∷ []);
        } in
        elim (Result-cases (retain to_vec c more).0) [
          | inl (_, e) ↦ ground (
            arith,
            n,
            e,
            retain_rows c more refl,
            push_columns_rows r (field + 1) left (retain to_vec c more).1,
          )
          | inr (x, e) ↦ ground (arith, n, e, retain_rows c more refl)
        ]
  ]

  take_columns_rows :
      (r : NativeResult) (fields : ℕ) (c : Collector)
      → (take_columns to_vec r fields c).1.rows ≡ c.rows
  unfolding take_columns
  take_columns_rows r fields c = ground (arith, push_columns_rows r 0 fields c)

  push_rows_lem :
      (r : NativeResult) (fields index left : ℕ) (c : Collector)
      → (push_rows to_vec r fields index left c).0 ≡ ok tt
      → (push_rows to_vec r fields index left c).1.rows ≡ c.rows ++ table r fields index left
  unfolding push_rows
  push_rows_lem r fields index zero c h = sym (append-nil c.rows)
  push_rows_lem r fields index (suc left) c h =
      elim (Bool-cases (leb c.limits.result_rows (length c.rows))) [
        | inl full ↦ absurd (ground (arith, full))
        | inr room ↦ elim (Result-cases (read_row to_vec r c.limits.cell_bytes index 0 fields)) [
          | inr (x, q) ↦ absurd (ground (arith, room, q))
          | inl (row, q) ↦
              let more = record c { rows = c.rows ++ (row ∷ []) } in
              let rest : Collector → Step = push_rows to_vec r fields (index + 1) left in
              let runs : push_rows to_vec r fields index (suc left) c
                  ≡ (retain to_vec c more then_do rest) =
                rw (room, q, push_rows) refl in
              let both = then_do_ok (retain to_vec c more) rest (sym (ap (λ s. s.0) runs) ∙ h) in
              let kept = retain_ok c more both.0 in
              let all = runs ∙ both.1 ∙ ap rest kept in
              ap (λ s. s.1.rows) all
              ∙ push_rows_lem r fields (index + 1) left more (sym (ap (λ s. s.0) all) ∙ h)
              ∙ append_assoc c.rows (row ∷ []) _
              ∙ ap (λ x. c.rows ++ (x ∷ table r fields (index + 1) left))
                  (read_row_lem r c.limits.cell_bytes index 0 fields row q)
        ]
      ]

  -- A result that is consumed adds all of its rows, in its order and with the text or NULL of every
  -- cell, to what the collector holds.
  pub consume_rows_lem :
      (r : NativeResult) (c : Collector) (fields rows : ℕ)
      → r.nfields ≡ some fields
      → r.ntuples ≡ some rows
      → (consume_rows to_vec r c).0 ≡ ok tt
      → (consume_rows to_vec r c).1.rows ≡ c.rows ++ table r fields 0 rows
  unfolding consume_rows take_columns push_rows push_columns read_row
  consume_rows_lem r c fields rows n m h = elim (Bool-cases (ltb c.limits.columns fields)) [
    | inl wide ↦ absurd (ground (arith, n, m, wide))
    | inr fits ↦
        let rest : Collector → Step = push_rows to_vec r fields 0 rows in
        let runs : consume_rows to_vec r c ≡ (take_columns to_vec r fields c then_do rest) =
          rw (n, m, fits, consume_rows) refl in
        let both =
          then_do_ok (take_columns to_vec r fields c) rest (sym (ap (λ s. s.0) runs) ∙ h) in
        let all = runs ∙ both.1 in
        ap (λ s. s.1.rows) all
        ∙ push_rows_lem r fields 0 rows _ (sym (ap (λ s. s.0) all) ∙ h)
        ∙ ap (λ x. x ++ table r fields 0 rows) (take_columns_rows r fields c)
  ]
