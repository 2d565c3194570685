-- ===== src/Libpq/Session/Answers.antt =====
-- What a command that was sent answers.
use mathlib.Core.Path.{subst}
use pg_mcp.Prelude.{
  ℕ, zero, suc, String, Bool, true, false, ◌+◌, Option, none, some, or, map, List, Result, ok, err,
  ◌≡◌, ◌⊎◌, inl, inr, refl, ◌∙◌, arith, Option-cases, Result-cases, Bool-cases,
}
use pg_mcp.Protocol.Json.Canonical.{Writer}
use pg_mcp.Protocol.Rows.{validate_result}
use pg_mcp.Libpq.{
  PollControl, QueryLimits, QueryParameter, CancelReason, AdapterError, ResultSet, reason_error,
}
use pg_mcp.Libpq.Collector.{
  NativeResult, Collector, new_collector, consume_rows, consume_command, finish, limits_config,
  public_column,
}
use pg_mcp.Libpq.Collector.Retained.{
  IsRetained, Keeps, then_do-Keeps, consume_rows-Keeps, consume_command-Keeps, finish_lem,
}
use pg_mcp.Libpq.Session.{
  Foreign, of_connection, Run, caught_answers, passed, Session, now, poll_loop, flush_output,
}
use pg_mcp.Libpq.Session.Cancel.{with_unknown, dispatch_cancel, cancel_and_drain}
use pg_mcp.Libpq.Session.Collect.{
  consume_result, get_results, receive, collect_loop, collect_results, interruption, after_wait,
}
use pg_mcp.Libpq.Session.Send.{dispatched, send_query}

module _ (to_vec : Writer) where
  consume_result-Keeps :
      (r : NativeResult) (c : Collector)
      → IsRetained to_vec c
      → Keeps to_vec c.limits (consume_result to_vec r c)
  unfolding consume_result
  consume_result-Keeps r c k =
      let rows = consume_rows-Keeps to_vec r c k in
      let command = consume_command-Keeps to_vec r c k in
      let both =
        then_do-Keeps to_vec c.limits (consume_rows to_vec r c) (consume_command to_vec r) rows
          (λ c' k' e.
            subst (λ l. Keeps to_vec l (consume_command to_vec r c')) e
              (consume_command-Keeps to_vec r c' k')) in
      ground (arith, rows, command, both, k)

  -- The result is that of a collector that retained nothing, or its public form is within the
  -- limits.
  abbrev pub IsWithin : QueryLimits → ResultSet → Type 0
  IsWithin limits r =
      (r ≡ finish (new_collector limits))
      ⊎ (validate_result to_vec (limits_config limits) (record {
        columns = map public_column r.columns;
        rows = r.rows;
        command_tag = r.command_tag;
        affected_rows = r.affected_rows;
      })
          ≡ ok tt)

  finish-IsWithin :
      (limits : QueryLimits) (c : Collector)
      → IsRetained to_vec c
      → c.limits ≡ limits
      → IsWithin limits (finish c)
  finish-IsWithin limits c k e = subst (λ l. IsWithin l (finish c)) e (finish_lem to_vec c k)

  module _ (f : Foreign) where
    -- The collection is over, and the connection is kept.
    abbrev pub IsCollected : QueryLimits → ResultSet → Session f → Type 0
    IsCollected limits r s = IsWithin limits r × (s.owned ≡ true) × (s.busy ≡ false)

    get_results-IsCollected :
        (n : ℕ) (limits : QueryLimits) (c : Collector) (first : Option AdapterError)
        (s s' : Session f) (r : ResultSet)
        → IsRetained to_vec c
        → c.limits ≡ limits
        → s.owned ≡ true
        → get_results to_vec f n c first s ≡ some (ok r, s')
        → IsCollected limits r s'
    unfolding get_results
    get_results-IsCollected zero limits c first s s' r k e own h = absurd (ground (arith))
    get_results-IsCollected (suc n) limits c first s s' r k e own h =
        let s1 = record s { world = (f.get_result s.world).1 } in
        elim (Option-cases (f.get_result s.world).0) [
          | inl q ↦ elim (Option-cases first) [
            | inr (x, there) ↦ absurd (ground (arith, q, there))
            | inl there ↦ (
              subst (IsWithin limits) (ground (arith, q, there)) (finish-IsWithin limits c k e),
              ground (arith, q, there, own),
              ground (arith, q, there, own),
            )
          ]
          | inr (native, q) ↦
              let c1 = (consume_result to_vec native c).1 in
              let (k1, e1) = consume_result-Keeps native c k in
              elim (Result-cases (consume_result to_vec native c).0) [
                | inl (_, a) ↦
                    get_results-IsCollected n limits c1 first s1 s' r k1 (e1 ∙ e) own
                      (ground (arith, q, a))
                | inr (x, a) ↦
                    get_results-IsCollected n limits c1 (or first (some x)) s1 s' r k1 (e1 ∙ e) own
                      (ground (arith, q, a))
              ]
        ]

    passed_on :
        {A : Type 0} {P : Type 0} (next : Run (Session f) ResultSet)
        (answer : Result A AdapterError) (s s' : Session f) (r : ResultSet)
        → passed (λ _. next) answer s ≡ some (ok r, s')
        → (next s ≡ some (ok r, s') → P)
        → P
    passed_on next (err x) s s' r h go = absurd (ground (arith))
    passed_on next (ok _) s s' r h go = go h

    module _ (control : PollControl) (deadline : ℕ) where
      receive-IsCollected :
          (again : Run (Session f) ResultSet) (n : ℕ) (limits : QueryLimits) (c : Collector)
          (first : Option AdapterError) (until : ℕ) (s s' : Session f) (r : ResultSet)
          → IsRetained to_vec c
          → c.limits ≡ limits
          → ((s1 : Session f) → again s1 ≡ some (ok r, s') → IsCollected limits r s')
          → receive to_vec f control deadline again n c first until s ≡ some (ok r, s')
          → IsCollected limits r s'
      unfolding receive
      receive-IsCollected again n limits c first until s s' r k e rounds h =
          let w1 = (f.consume_input s.world).1 in
          let s2 = record s { world = (f.is_busy w1).1 } in
          elim (Bool-cases s.owned) [
            | inr gone ↦ absurd (ground (arith, gone))
            | inl own ↦ elim (Bool-cases (f.is_busy w1).0) [
              | inr quiet ↦
                  get_results-IsCollected n limits c first s2 s' r k e own
                    (ground (arith, own, quiet))
              | inl busy ↦
                  let (answer, s1, _, go) =
                    caught_answers (poll_loop f n of_connection true false until s2)
                      (after_wait to_vec f control deadline first again) (ok r) s'
                      (ground (arith, own, busy)) in
                  waited answer s1 go
            ]
          ]
        where
          waited :
              (answer : Result Bool AdapterError) (s1 : Session f)
              → after_wait to_vec f control deadline first again answer s1 ≡ some (ok r, s')
              → IsCollected limits r s'
          waited (err x) s1 go = absurd (ground (arith))
          waited (ok _) s1 go = rounds s1 go

      collect_loop-IsCollected :
          (n : ℕ) (limits : QueryLimits) (c : Collector) (first : Option AdapterError) (until : ℕ)
          (s s' : Session f) (r : ResultSet)
          → IsRetained to_vec c
          → c.limits ≡ limits
          → collect_loop to_vec f control deadline n c first until s ≡ some (ok r, s')
          → IsCollected limits r s'
      unfolding collect_loop
      collect_loop-IsCollected zero limits c first until s s' r k e h = absurd (ground (arith))
      collect_loop-IsCollected (suc n) limits c (some x) until s s' r k e h =
          receive-IsCollected (collect_loop to_vec f control deadline n c (some x) until) n limits c
            (some x) until s s' r k e
            (λ s1 go. collect_loop-IsCollected n limits c (some x) until s1 s' r k e go) h
      collect_loop-IsCollected (suc n) limits c none until s s' r k e h =
          elim (Option-cases (interruption control deadline (now f s))) [
            | inl q ↦
                receive-IsCollected (collect_loop to_vec f control deadline n c none until) n limits
                  c none until s s' r k e
                  (λ s1 go. collect_loop-IsCollected n limits c none until s1 s' r k e go)
                  (ground (arith, q))
            | inr (reason, q) ↦
                let x = with_unknown (reason_error reason) in
                let grace = now f s + control.cancel_drain_grace in
                let again = collect_loop to_vec f control deadline n c (some x) grace in
                let (answer, s1, _, go) =
                  caught_answers (dispatch_cancel f n reason grace s)
                    (passed (λ _. receive to_vec f control deadline again n c (some x) grace))
                    (ok r) s' (ground (arith, q)) in
                passed_on (receive to_vec f control deadline again n c (some x) grace) answer s1 s'
                  r go
                  (λ go'.
                    receive-IsCollected again n limits c (some x) grace s1 s' r k e
                      (λ s2 go''.
                        collect_loop-IsCollected n limits c (some x) grace s2 s' r k e go'')
                      go')
          ]

      collect_results-IsCollected :
          (n : ℕ) (limits : QueryLimits) (s s' : Session f) (r : ResultSet)
          → collect_results to_vec f control deadline n limits s ≡ some (ok r, s')
          → IsCollected limits r s'
      unfolding collect_results
      collect_results-IsCollected n limits s s' r h =
          let loop =
            collect_loop to_vec f control deadline n (new_collector limits) none deadline in
          let (answer, s1, _, go) =
            caught_answers (flush_output f n deadline control s) (passed (λ _. loop)) (ok r) s' h in
          passed_on loop answer s1 s' r go (λ go'.
            collect_loop-IsCollected n limits (new_collector limits) none deadline s1 s' r
              (inl refl) refl go')

  -- A query that is answered has a result that is within its limits or is empty, and its
  -- connection is kept and no longer busy.
  pub send_query-IsCollected :
      (f : Foreign) (n : ℕ) (sql : String) (ps : List QueryParameter) (limits : QueryLimits)
      (deadline : ℕ) (control : PollControl) (s s' : Session f) (r : ResultSet)
      → send_query to_vec f n sql ps limits deadline control s ≡ some (ok r, s')
      → IsCollected f limits r s'
  unfolding send_query dispatched
  send_query-IsCollected f n sql ps limits deadline control s s' r h =
      let w = (f.send_query_params sql ps s.world).1 in
      let s1 : Session f = record s { world = (f.set_single_row_mode w).1; busy = true } in
      let collected = collect_results to_vec f control deadline n limits s1 in
      elim (Bool-cases (f.set_single_row_mode w).0) [
        | inr refused ↦
            elim (Option-cases (cancel_and_drain f n CancelReason.cancelled deadline s1)) [
              | inl e ↦ absurd (ground (arith, refused, e))
              | inr ((answer, s2), e) ↦ absurd (ground (arith, refused, e))
            ]
        | inl single ↦ elim (Option-cases collected) [
          | inl e ↦ absurd (ground (arith, single, e))
          | inr ((err x, s2), e) ↦ absurd (ground (arith, single, e))
          | inr ((ok r2, s2), e) ↦
              let (within, own, _) =
                collect_results-IsCollected f control deadline n limits s1 s2 r2 e in
              (
                subst (IsWithin limits) (ground (arith, single, e)) within,
                ground (arith, single, e, own),
                ground (arith, single, e),
              )
        ]
      ]
