-- ===== src/Libpq/Session/Progress/Collecting.antt =====
-- The collection of the results of a command ends, and so does each call of the adapter.
use pg_mcp.Prelude.{
  ℕ, zero, suc, String, len, Bool, true, false, ◌+◌, ◌≤◌, ◌<◌, Option, none, some, is_some, List,
  Result, ok, err, is_ok, ◌≡◌, refl, inl, inr, arith, Option-cases, Result-cases, or,
}
use pg_mcp.Protocol.Json.Canonical.{Writer}
use pg_mcp.Libpq.{
  PollControl, QueryLimits, QueryParameter, CancelReason, AdapterError, ResultSet, reason_error,
}
use pg_mcp.Libpq.Collector.{Collector, new_collector}
use pg_mcp.Libpq.Session.{Foreign, of_connection, Run, passed, Session, now, flush_output}
use pg_mcp.Libpq.Session.Cancel.{with_unknown, dispatch_cancel}
use pg_mcp.Libpq.Session.Collect.{
  consume_result, get_results, receive, collect_loop, collect_results, interruption, after_wait,
}
use pg_mcp.Libpq.Session.Send.{dispatched, send_query, send_and_collect, no_limits}
use pg_mcp.Libpq.Session.Progress.{
  Live, budget, Follows, Took, wait_ends, caught_ends, flush_output_ends, flush_output_moves,
}
use pg_mcp.Libpq.Session.Progress.Cancelling.{
  dispatch_cancel_ends, dispatch_cancel_moves, cancel_and_drain_ends,
}

module _ (to_vec : Writer) (f : Foreign) (live : Live f) where
  get_results_ends :
      (n : ℕ) (c : Collector) (first : Option AdapterError) (s : Session f)
      → live.left s.world < n
      → is_some (get_results to_vec f n c first s) ≡ true
  unfolding get_results
  get_results_ends zero c first s h = absurd (omega arith)
  get_results_ends (suc n) c first s h =
      let s' = record s { world = (f.get_result s.world).1 } in
      let l = live.result_left s.world in
      let less = live.result_event s.world in
      elim (Option-cases (f.get_result s.world).0) [
        | inl e ↦ ground (arith, e)
        | inr (r, e) ↦
            let c' = (consume_result to_vec r c).1 in
            elim (Result-cases (consume_result to_vec r c).0) [
              | inl (_, a) ↦ ground (arith, e, a, less, l, get_results_ends n c' first s')
              | inr (x, a) ↦
                  ground (arith, e, a, less, l, get_results_ends n c' (or first (some x)) s')
            ]
      ]

  module _ (control : PollControl) (deadline : ℕ) where
    after_wait_ends :
        (first : Option AdapterError) (again : Run (Session f) ResultSet) (until : ℕ)
        (s : Session f)
        → ((s' : Session f)
            → Follows f live s s'
            → Took f live until s s'
            → is_some (again s') ≡ true)
        → (r : Result Bool AdapterError) (s' : Session f) → Follows f live s s'
        → (is_ok r ≡ true → Took f live until s s')
        → is_some (after_wait to_vec f control deadline first again r s') ≡ true
    after_wait_ends first again until s ends (err e) s' moved less = refl
    after_wait_ends first again until s ends (ok _) s' moved less = ends s' moved (less refl)

    receive_ends :
        (again : Run (Session f) ResultSet) (n : ℕ) (c : Collector) (first : Option AdapterError)
        (until : ℕ) (s : Session f)
        → budget f live until s < n
        → ((s' : Session f)
            → Follows f live s s'
            → Took f live until s s'
            → is_some (again s') ≡ true)
        → is_some (receive to_vec f control deadline again n c first until s) ≡ true
    unfolding receive
    receive_ends again n c first until s h ends =
        let w1 = (f.consume_input s.world).1 in
        let s2 = record s { world = (f.is_busy w1).1 } in
        let t1 = live.consume_time s.world in
        let l1 = live.consume_left s.world in
        let t2 = live.busy_time w1 in
        let l2 = live.busy_left w1 in
        let go =
          wait_ends f live n of_connection true false until s2
            (after_wait to_vec f control deadline first again) (omega arith)
            (after_wait_ends first again until s2 (λ s' (time, left) (early, later).
              ends s' (omega arith, omega arith) (omega arith, omega arith))) in
        ground (arith, go, get_results_ends n c first s2 (omega arith))

    failing_ends :
        (n : ℕ) (c : Collector) (e : AdapterError) (until : ℕ) (s : Session f)
        → budget f live until s + 1 < n
        → is_some (collect_loop to_vec f control deadline n c (some e) until s) ≡ true
    unfolding collect_loop
    failing_ends zero c e until s h = absurd (omega arith)
    failing_ends (suc n) c e until s h =
        receive_ends (collect_loop to_vec f control deadline n c (some e) until) n c (some e) until
          s (omega arith)
          (λ s' (time, left) (early, later). failing_ends n c e until s' (omega arith))

    -- The round after a cancellation.
    cancelled_ends :
        (n : ℕ) (c : Collector) (x : AdapterError) (reason : CancelReason) (until : ℕ)
        (s : Session f)
        → budget f live until s + 1 < n
        → (r : Result Bool AdapterError) (s' : Session f)
        → dispatch_cancel f n reason until s ≡ some (r, s')
        → is_some (
            passed
              (λ _.
                receive to_vec f control deadline
                  (collect_loop to_vec f control deadline n c (some x) until)
                  n
                  c
                  (some x)
                  until)
              r
              s')
          ≡ true
    cancelled_ends n c x reason until s h (err e) s' q = refl
    cancelled_ends n c x reason until s h (ok b) s' q =
        let (time, left) = dispatch_cancel_moves f live n reason until s s' b q in
        receive_ends (collect_loop to_vec f control deadline n c (some x) until) n c (some x) until
          s' (omega arith)
          (λ s1 (time', left') (early, later). failing_ends n c x until s1 (omega arith))

    loop_ends :
        (n : ℕ) (c : Collector) (s : Session f)
        → budget f live deadline s + control.cancel_drain_grace + 2 < n
        → is_some (collect_loop to_vec f control deadline n c none deadline s) ≡ true
    unfolding collect_loop
    loop_ends zero c s h = absurd (omega arith)
    loop_ends (suc n) c s h = elim (Option-cases (interruption control deadline (now f s))) [
      | inl e ↦
          let go =
            receive_ends (collect_loop to_vec f control deadline n c none deadline) n c none
              deadline s (omega arith)
              (λ s' (time, left) (early, later). loop_ends n c s' (omega arith)) in
          ground (arith, e, go)
      | inr (reason, e) ↦
          let x = with_unknown (reason_error reason) in
          let grace = now f s + control.cancel_drain_grace in
          let go =
            caught_ends f live (dispatch_cancel f n reason grace s)
              (passed (λ _.
                receive to_vec f control deadline
                  (collect_loop to_vec f control deadline n c (some x) grace) n c (some x) grace))
              (dispatch_cancel_ends f live n reason grace s (omega arith))
              (cancelled_ends n c x reason grace s (omega arith)) in
          ground (arith, e, go)
    ]

    -- What the collection may take: the results that are left, the time until the deadline, and the
    -- grace that a cancellation is given.
    abbrev pub allowance : Session f → ℕ
    allowance s = budget f live deadline s + control.cancel_drain_grace + 3

    pub collect_results_ends :
        (n : ℕ) (limits : QueryLimits) (s : Session f)
        → allowance s ≤ n
        → is_some (collect_results to_vec f control deadline n limits s) ≡ true
    unfolding collect_results
    collect_results_ends n limits s h =
        caught_ends f live (flush_output f n deadline control s) _
          (flush_output_ends f live n deadline control s (omega arith)) (λ r s' q. flushed r s' q)
      where
        flushed :
            (r : Result (Unit {0}) AdapterError) (s' : Session f)
            → flush_output f n deadline control s ≡ some (r, s')
            → is_some (
                passed
                  (λ _.
                    collect_loop to_vec f control deadline n (new_collector limits) none deadline)
                  r
                  s')
              ≡ true
        flushed (err e) s' q = refl
        flushed (ok u) s' q =
            let (time, left) = flush_output_moves f live n deadline control s s' u q in
            loop_ends n (new_collector limits) s' (omega arith)

  -- The session after PQsendQueryParams, and the one after PQsetSingleRowMode.
  abbrev pub after_send : String → List QueryParameter → Session f → Session f
  after_send sql ps s = record s { world = (f.send_query_params sql ps s.world).1; busy = true }

  abbrev pub after_mode : String → List QueryParameter → Session f → Session f
  after_mode sql ps s = record s {
    world = (f.set_single_row_mode (f.send_query_params sql ps s.world).1).1;
    busy = true;
  }

  dispatched_ends :
      (n : ℕ) (sql : String) (ps : List QueryParameter) (single_row : Bool) (limits : QueryLimits)
      (deadline : ℕ) (control : PollControl) (s : Session f)
      → allowance control deadline (after_send sql ps s) ≤ n
      → allowance control deadline (after_mode sql ps s) ≤ n
      → is_some (dispatched to_vec f n sql ps single_row limits deadline control s) ≡ true
  unfolding dispatched
  dispatched_ends n sql ps single_row limits deadline control s h h' =
      let sent = after_send sql ps s in
      let moded = after_mode sql ps s in
      let a = collect_results_ends control deadline n limits sent h in
      let b = collect_results_ends control deadline n limits moded h' in
      let c = cancel_and_drain_ends f live n CancelReason.cancelled deadline moded (omega arith) in
      ground (arith, a, b, c)

  pub send_query_ends :
      (n : ℕ) (sql : String) (ps : List QueryParameter) (limits : QueryLimits) (deadline : ℕ)
      (control : PollControl) (s : Session f)
      → allowance control deadline (after_send sql ps s) ≤ n
      → allowance control deadline (after_mode sql ps s) ≤ n
      → is_some (send_query to_vec f n sql ps limits deadline control s) ≡ true
  unfolding send_query
  send_query_ends n sql ps limits deadline control s h h' =
      ground (arith, dispatched_ends n sql ps true limits deadline control s h h')

  -- The same holds of a command.
  pub send_and_collect_ends :
      (n : ℕ) (sql : String) (ps : List QueryParameter) (single_row : Bool) (deadline : ℕ)
      (control : PollControl) (s : Session f)
      → allowance control deadline (after_send sql ps s) ≤ n
      → allowance control deadline (after_mode sql ps s) ≤ n
      → is_some (send_and_collect to_vec f n sql ps single_row deadline control s) ≡ true
  unfolding send_and_collect
  send_and_collect_ends n sql ps single_row deadline control s h h' =
      ground
        (arith, dispatched_ends n sql ps single_row (no_limits (len sql)) deadline control s h h')
