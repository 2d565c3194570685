-- ===== src/Libpq/Session/Outcomes.antt =====
-- What a connection says of the outcome of a command that was interrupted.
use pg_mcp.Prelude.{
  ℕ, zero, suc, String, Bool, true, false, ◌+◌, none, some, List, Result, ok, err, ◌≡◌, inl, inr,
  refl, arith, Option-cases, Result-cases, Bool-cases,
}
use pg_mcp.Protocol.Json.Canonical.{Writer}
use pg_mcp.Libpq.{
  PollControl, QueryLimits, QueryParameter, CancelReason, AdapterError, ResultSet, reason_error,
  unknown_adapter_error, copy_unsupported,
}
use pg_mcp.Libpq.Collector.{Collector}
use pg_mcp.Libpq.Session.{
  Foreign, of_connection, Run, caught_answers, passed, Session, now, poll_loop, flush_output,
  check_control, lost,
}
use pg_mcp.Libpq.Session.Cancel.{with_unknown, dispatch_cancel}
use pg_mcp.Libpq.Session.Collect
use pg_mcp.Libpq.Session.Collect.{
  consume_result, get_results, receive, collect_loop, collect_results, interruption, is_copy,
}
use pg_mcp.Libpq.Session.Send.{dispatched}
use pg_mcp.Libpq.Session.Cancel.Settled.{dispatch_cancel-IsOf}

module _ (to_vec : Writer) (f : Foreign) where
  -- An error with an unknown outcome.
  abbrev pub IsUnknown : Result ResultSet AdapterError → Type 0
  IsUnknown r = (x : AdapterError) × (r ≡ err x) × (x.outcome_unknown ≡ true)

  -- Once there is an error with an unknown outcome, the answer is such an error.
  get_results-IsUnknown :
      (n : ℕ) (c : Collector) (e : AdapterError) (s s' : Session f)
      (r : Result ResultSet AdapterError)
      → e.outcome_unknown ≡ true
      → get_results to_vec f n c (some e) s ≡ some (r, s')
      → IsUnknown r
  unfolding get_results
  get_results-IsUnknown zero c e s s' r u h = absurd (ground (arith))
  get_results-IsUnknown (suc n) c e s s' r u h =
      let s1 = record s { world = (f.get_result s.world).1 } in
      elim (Option-cases (f.get_result s.world).0) [
        | inl q ↦ (e, ground (arith, q), u)
        | inr (native, q) ↦
            let c1 = (consume_result to_vec native c).1 in
            elim (Result-cases (consume_result to_vec native c).0) [
              | inl (_, a) ↦ get_results-IsUnknown n c1 e s1 s' r u (ground (arith, q, a))
              | inr (x, a) ↦ elim (Bool-cases (is_copy x)) [
                | inl copy ↦
                    (unknown_adapter_error copy_unsupported, ground (arith, q, a, copy), refl)
                | inr other ↦ get_results-IsUnknown n c1 e s1 s' r u (ground (arith, q, a, other))
              ]
            ]
      ]

  module _ (control : PollControl) (deadline : ℕ) where
    receive-IsUnknown :
        (again : Run (Session f) ResultSet) (n : ℕ) (c : Collector) (e : AdapterError) (until : ℕ)
        (s s' : Session f) (r : Result ResultSet AdapterError)
        → e.outcome_unknown ≡ true
        → ((s1 : Session f) → again s1 ≡ some (r, s') → IsUnknown r)
        → receive to_vec f control deadline again n c (some e) until s ≡ some (r, s')
        → IsUnknown r
    unfolding receive
    receive-IsUnknown again n c e until s s' r u rounds h =
        let w1 = (f.consume_input s.world).1 in
        let s2 = record s { world = (f.is_busy w1).1 } in
        elim (Bool-cases s.owned) [
          | inr gone ↦ (lost, ground (arith, gone), refl)
          | inl own ↦ elim (Bool-cases (f.consume_input s.world).0) [
            | inr broken ↦ (lost, ground (arith, own, broken), refl)
            | inl consumed ↦ elim (Bool-cases (f.is_busy w1).0) [
              | inr quiet ↦
                  get_results-IsUnknown n c e s2 s' r u (ground (arith, own, consumed, quiet))
              | inl busy ↦ elim (Bool-cases (f.socket of_connection (f.is_busy w1).1)) [
                | inr closed ↦ (e, ground (arith, own, consumed, busy, closed), u)
                | inl there ↦
                    let (answer, s1, _, go) =
                      caught_answers (poll_loop f n of_connection true false until s2)
                        (Collect.after_wait to_vec f control deadline (some e) again) r s'
                        (ground (arith, own, consumed, busy, there)) in
                    waited answer s1 go
              ]
            ]
          ]
        ]
      where
        waited :
            (answer : Result Bool AdapterError) (s1 : Session f)
            → Collect.after_wait to_vec f control deadline (some e) again answer s1 ≡ some (r, s')
            → IsUnknown r
        waited (err x) s1 go = (e, ground (arith), u)
        waited (ok _) s1 go = rounds s1 go

    collect_loop-IsUnknown :
        (n : ℕ) (c : Collector) (e : AdapterError) (until : ℕ) (s s' : Session f)
        (r : Result ResultSet AdapterError)
        → e.outcome_unknown ≡ true
        → collect_loop to_vec f control deadline n c (some e) until s ≡ some (r, s')
        → IsUnknown r
    unfolding collect_loop
    collect_loop-IsUnknown zero c e until s s' r u h = absurd (ground (arith))
    collect_loop-IsUnknown (suc n) c e until s s' r u h =
        receive-IsUnknown (collect_loop to_vec f control deadline n c (some e) until) n c e until s
          s' r u (λ s1 go. collect_loop-IsUnknown n c e until s1 s' r u go) h

    -- A collection that finds its request cancelled, late or overtaken by a shutdown while no error
    -- has been seen answers with an error, and says that the outcome is unknown.
    pub interrupted-IsUnknown :
        (n : ℕ) (c : Collector) (s s' : Session f) (r : Result ResultSet AdapterError)
        (reason : CancelReason)
        → interruption control deadline (now f s) ≡ some reason
        → collect_loop to_vec f control deadline n c none deadline s ≡ some (r, s')
        → IsUnknown r
    unfolding collect_loop
    interrupted-IsUnknown zero c s s' r reason q h = absurd (ground (arith))
    interrupted-IsUnknown (suc n) c s s' r reason q h =
        let x = with_unknown (reason_error reason) in
        let grace = now f s + control.cancel_drain_grace in
        let again = collect_loop to_vec f control deadline n c (some x) grace in
        let (answer, s1, e, go) =
          caught_answers (dispatch_cancel f n reason grace s)
            (passed (λ _. receive to_vec f control deadline again n c (some x) grace)) r s'
            (ground (arith, q)) in
        elim (Result-cases answer) [
          | inr (y, a) ↦ elim (dispatch_cancel-IsOf f n reason grace s s1 answer e) [
            | inl (b, b_ok) ↦ absurd (ground (arith, a, b_ok))
            | inr failed_so ↦ (x, ground (arith, a, failed_so, go), refl)
          ]
          | inl (b, a) ↦
              receive-IsUnknown again n c x grace s1 s' r refl
                (λ s2 go'. collect_loop-IsUnknown n c x grace s2 s' r refl go')
                (ground (arith, a, go))
        ]

  -- On a connection that is owned, with a control that lets the command be sent and stops it right
  -- after PQsendQueryParams has taken it: the call reports an error with a known outcome and a
  -- connection that is not busy, and nothing of the command was flushed, cancelled or drained.
  pub dispatched_abandons :
      (n : ℕ) (sql : String) (ps : List QueryParameter) (limits : QueryLimits) (deadline : ℕ)
      (control : PollControl) (s : Session f) (e : AdapterError)
      → check_control control deadline (now f s) ≡ ok tt
      → s.owned ≡ true
      → (f.send_query_params sql ps s.world).0 ≡ true
      → check_control control deadline (f.clock (f.send_query_params sql ps s.world).1) ≡ err e
      → (dispatched to_vec f (suc n) sql ps false limits deadline control s
          ≡ some (err e, record s { world = (f.send_query_params sql ps s.world).1; busy = false }))
        × (e.outcome_unknown ≡ false)
  unfolding dispatched collect_results flush_output check_control
  dispatched_abandons n sql ps limits deadline control s e before own sent after =
      (ground (arith), ground (arith))
