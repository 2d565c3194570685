-- ===== src/Libpq/Session/Progress.antt =====
-- Why the loops of the connection end: each of them tests its deadline, each wait takes time, and
-- the commands that were sent give finitely many results.
pub mod Collecting
pub mod Cancelling
use pg_mcp.Prelude.{
  ℕ, zero, suc, Bool, true, false, ◌+◌, ◌-◌, ◌≤◌, ◌<◌, Option, none, some, is_some, Result, ok, err,
  ◌≡◌, inl, inr, refl, arith, Option-cases, Result-cases, is_ok, String, List,
}
use pg_mcp.Libpq.{PollControl, AdapterError, QueryParameter}
use pg_mcp.Libpq.Session.{
  Foreign, Polling, reading, writing, active, finished, failed, Polled, ready, timed_out,
  interrupted, refused, Flushed, Socket, of_connection, Run, caught, passed, Session, now,
  poll_loop, poll_fd, service_input, flush_output, clear_results, drain_until_idle, check_control,
  poll_millis, lost,
}

-- What the loops rely on. A system call takes time on the monotonic clock, which counts nanoseconds,
-- so a poll returns later than it was called, whatever it reports, and so does PQcancelPoll; no other
-- call turns the clock back. The commands that were sent give finitely many results, so PQgetResult
-- returns NULL at last, as its documentation says; no other call here adds a result.
pub record Live (f : Foreign) : Type 0 where
  pub left : f.World → ℕ
  pub poll_time :
      (fd : Socket) (read write : Bool) (millis : ℕ) (w : f.World)
      → f.clock w < f.clock (f.poll fd read write millis w).1
  pub poll_left :
      (fd : Socket) (read write : Bool) (millis : ℕ) (w : f.World)
      → left (f.poll fd read write millis w).1 ≤ left w
  pub flush_time : (w : f.World) → f.clock w ≤ f.clock (f.flush w).1
  pub flush_left : (w : f.World) → left (f.flush w).1 ≤ left w
  pub consume_time : (w : f.World) → f.clock w ≤ f.clock (f.consume_input w).1
  pub consume_left : (w : f.World) → left (f.consume_input w).1 ≤ left w
  pub busy_time : (w : f.World) → f.clock w ≤ f.clock (f.is_busy w).1
  pub busy_left : (w : f.World) → left (f.is_busy w).1 ≤ left w
  pub result_time : (w : f.World) → f.clock w ≤ f.clock (f.get_result w).1
  pub result_left : (w : f.World) → left (f.get_result w).1 ≤ left w
  pub result_event :
      (w : f.World) → is_some (f.get_result w).0 ≡ true → left (f.get_result w).1 < left w
  pub create_time : (w : f.World) → f.clock w ≤ f.clock (f.cancel_create w).1
  pub create_left : (w : f.World) → left (f.cancel_create w).1 ≤ left w
  pub start_time : (w : f.World) → f.clock w ≤ f.clock (f.cancel_start w).1
  pub start_left : (w : f.World) → left (f.cancel_start w).1 ≤ left w
  pub cancel_time : (w : f.World) → f.clock w < f.clock (f.cancel_poll w).1
  pub cancel_left : (w : f.World) → left (f.cancel_poll w).1 ≤ left w
  pub end_time : (w : f.World) → f.clock w ≤ f.clock (f.cancel_finish w)
  pub end_left : (w : f.World) → left (f.cancel_finish w) ≤ left w

module _ (f : Foreign) (live : Live f) where
  -- What a loop may still take until an instant.
  abbrev pub budget : ℕ → Session f → ℕ
  budget deadline s = live.left s.world + (deadline - now f s)

  -- A state that is not before another, in time and in results.
  abbrev pub Follows : Session f → Session f → Type 0
  Follows s s' = (now f s ≤ now f s') × (live.left s'.world ≤ live.left s.world)

  -- A wait that was answered began before its deadline and has taken time.
  abbrev pub Took : ℕ → Session f → Session f → Type 0
  Took deadline s s' = (now f s < deadline) × (now f s < now f s')

  pub poll_loop_ends :
      (n : ℕ) (fd : Socket) (read write : Bool) (deadline : ℕ) (s : Session f)
      → budget deadline s < n
      → is_some (poll_loop f n fd read write deadline s) ≡ true
  unfolding poll_loop
  poll_loop_ends zero fd read write deadline s h = absurd (omega arith)
  poll_loop_ends (suc n) fd read write deadline s h =
      let millis = poll_millis (deadline - now f s) in
      let s' = record s { world = (f.poll fd read write millis s.world).1 } in
      ground (
        arith,
        live.poll_time fd read write millis s.world,
        live.poll_left fd read write millis s.world,
        poll_loop_ends n fd read write deadline s',
      )

  -- A wait moves on, and one that is answered has taken time.
  pub poll_loop_moves :
      (n : ℕ) (fd : Socket) (read write : Bool) (deadline : ℕ) (s s' : Session f)
      (r : Result Bool AdapterError)
      → poll_loop f n fd read write deadline s ≡ some (r, s')
      → Follows s s' × (is_ok r ≡ true → Took deadline s s')
  unfolding poll_loop
  poll_loop_moves zero fd read write deadline s s' r h = absurd (ground (arith))
  poll_loop_moves (suc n) fd read write deadline s s' r h =
      let millis = poll_millis (deadline - now f s) in
      let next = record s { world = (f.poll fd read write millis s.world).1 } in
      ground (
        arith,
        live.poll_time fd read write millis s.world,
        live.poll_left fd read write millis s.world,
        poll_loop_moves n fd read write deadline next s' r,
      )

  -- To go on after a routine that ends.
  pub caught_ends :
      {A B : Type 0} (o : Option (Result A AdapterError × Session f))
      (k : Result A AdapterError → Run (Session f) B)
      → is_some o ≡ true
      → ((r : Result A AdapterError) (s : Session f) → o ≡ some (r, s) → is_some (k r s) ≡ true)
      → is_some (caught o k) ≡ true
  caught_ends none k h next = absurd (ground (arith))
  caught_ends (some (r, s)) k h next = next r s refl

  -- A wait inside a loop: its answer leaves less to do than there was.
  pub wait_ends :
      {B : Type 0} (n : ℕ) (fd : Socket) (read write : Bool) (deadline : ℕ) (s : Session f)
      (k : Result Bool AdapterError → Run (Session f) B)
      → budget deadline s < n
      → ((r : Result Bool AdapterError) (s' : Session f)
          → Follows s s'
          → (is_ok r ≡ true → Took deadline s s')
          → is_some (k r s') ≡ true)
      → is_some (caught (poll_fd f n fd read write deadline s) k) ≡ true
  wait_ends n fd read write deadline s k h next = ground (
    arith,
    caught_ends (poll_loop f n fd read write deadline s) k
        (poll_loop_ends n fd read write deadline s h)
        (λ r s' e.
          let moved = poll_loop_moves n fd read write deadline s s' r e in
          next r s' moved.0 moved.1),
    next (err lost) s (omega arith, omega arith) (λ e. absurd (ground (arith))),
  )

  serviced :
      (again : Run (Session f) (Unit {0})) (deadline n : ℕ) (s : Session f)
      → budget deadline s < n
      → ((s' : Session f) → budget deadline s' + 1 < n → is_some (again s') ≡ true)
      → (r : Result Bool AdapterError) (s' : Session f) → Follows s s'
      → (is_ok r ≡ true → Took deadline s s')
      → is_some (passed (service_input f again) r s') ≡ true
  serviced again deadline n s h ends (err e) s' moved less = refl
  serviced again deadline n s h ends (ok readable) s' moved less = ground (
    arith,
    less refl,
    live.consume_time s'.world,
    live.consume_left s'.world,
    ends s',
    ends (record s' { world = (f.consume_input s'.world).1 }),
  )

  -- The next round of a loop after a wait that was answered.
  pub continued :
      {B : Type 0} (again : Run (Session f) B) (deadline : ℕ) (s : Session f)
      → ((s' : Session f) → Follows s s' → Took deadline s s' → is_some (again s') ≡ true)
      → (r : Result Bool AdapterError) (s' : Session f) → Follows s s'
      → (is_ok r ≡ true → Took deadline s s')
      → is_some (passed (λ _. again) r s') ≡ true
  continued again deadline s ends (err e) s' moved less = refl
  continued again deadline s ends (ok _) s' moved less = ends s' moved (less refl)

  -- The loops end that wait for output to be sent, for a drained connection and for its results.
  pub flush_output_ends :
      (n : ℕ) (deadline : ℕ) (control : PollControl) (s : Session f)
      → budget deadline s + 1 < n
      → is_some (flush_output f n deadline control s) ≡ true
  unfolding flush_output
  flush_output_ends zero deadline control s h = absurd (omega arith)
  flush_output_ends (suc n) deadline control s h =
      let s1 = record s { world = (f.flush s.world).1 } in
      let time = live.flush_time s.world in
      let left = live.flush_left s.world in
      let go =
        wait_ends n of_connection true true deadline s1
          (passed (service_input f (flush_output f n deadline control))) (omega arith)
          (serviced (flush_output f n deadline control) deadline n s1 (omega arith)
            (flush_output_ends n deadline control)) in
      ground (arith, go)

  -- Where the output is sent, time has moved on and no result has been added.
  pub flush_output_moves :
      (n : ℕ) (deadline : ℕ) (control : PollControl) (s s'' : Session f) (u : Unit {0})
      → flush_output f n deadline control s ≡ some (ok u, s'')
      → Follows s s''
  unfolding flush_output
  flush_output_moves zero deadline control s s'' u h = absurd (ground (arith))
  flush_output_moves (suc n) deadline control s s'' u h =
      let s1 = record s { world = (f.flush s.world).1 } in
      let waited = poll_loop f n of_connection true true deadline s1 in
      elim (Option-cases waited) [
        | inl e ↦ ground (arith, e, live.flush_time s.world, live.flush_left s.world)
        | inr ((err x, s2), e) ↦ ground (arith, e, live.flush_time s.world, live.flush_left s.world)
        | inr ((ok readable, s2), e) ↦
            let s3 = record s2 { world = (f.consume_input s2.world).1 } in
            ground (
              arith,
              e,
              live.flush_time s.world,
              live.flush_left s.world,
              poll_loop_moves n of_connection true true deadline s1 s2 (ok readable) e,
              live.consume_time s2.world,
              live.consume_left s2.world,
              flush_output_moves n deadline control s2 s'' u,
              flush_output_moves n deadline control s3 s'' u,
            )
      ]

  pub clear_results_ends :
      (n : ℕ) (s : Session f) → live.left s.world < n → is_some (clear_results f n s) ≡ true
  unfolding clear_results
  clear_results_ends zero s h = absurd (omega arith)
  clear_results_ends (suc n) s h = ground (
    arith,
    live.result_left s.world,
    live.result_event s.world,
    clear_results_ends n (record s { world = (f.get_result s.world).1 }),
  )

  pub drain_until_idle_ends :
      (n deadline : ℕ) (s : Session f)
      → budget deadline s + 1 < n
      → is_some (drain_until_idle f n deadline s) ≡ true
  unfolding drain_until_idle
  drain_until_idle_ends zero deadline s h = absurd (omega arith)
  drain_until_idle_ends (suc n) deadline s h =
      let w1 = (f.consume_input s.world).1 in
      let s2 = record s { world = (f.is_busy w1).1 } in
      let t1 = live.consume_time s.world in
      let l1 = live.consume_left s.world in
      let t2 = live.busy_time w1 in
      let l2 = live.busy_left w1 in
      let go =
        wait_ends n of_connection true false deadline s2
          (passed (λ _. drain_until_idle f n deadline)) (omega arith)
          (continued (drain_until_idle f n deadline) deadline s2
            (λ s' moved less. drain_until_idle_ends n deadline s' (omega arith))) in
      ground (arith, go, clear_results_ends n s2 (omega arith))
