-- ===== src/Libpq/Session/Progress/Cancelling.antt =====
-- The cancellation of a command ends.
use pg_mcp.Prelude.{
  ℕ, zero, suc, Bool, true, false, ◌+◌, ◌<◌, some, is_some, Result, ok, err, is_ok, ◌≡◌, refl, inl,
  inr, leb, Bool-cases, arith,
}
use pg_mcp.Libpq.{CancelReason, AdapterError}
use pg_mcp.Libpq.Session.{
  Foreign, Polling, reading, writing, active, finished, failed, of_cancel, Run, caught,
  caught_answers, Session, now, poll_loop, drain_until_idle,
}
use pg_mcp.Libpq.Session.Cancel.{
  cancel_loop, dispatch_cancel, cancel_and_drain, after_wait, after_drain, cancel_polled,
}
use pg_mcp.Libpq.Session.Progress.{
  Live, budget, Follows, Took, wait_ends, caught_ends, poll_loop_moves, drain_until_idle_ends,
}

module _ (f : Foreign) (live : Live f) where
  -- A round of the handshake takes time.
  cancel_polled_ends :
      (again : Polling → Run (Session f) Bool) (s : Session f)
      → ((state : Polling) (s' : Session f)
          → Follows f live s s'
          → now f s < now f s'
          → is_some (again state s') ≡ true)
      → is_some (cancel_polled f again s) ≡ true
  cancel_polled_ends again s ends =
      let t = live.cancel_time s.world in
      ends (f.cancel_poll s.world).0 (record s { world = (f.cancel_poll s.world).1 })
        (omega arith, live.cancel_left s.world) (omega arith)

  after_wait_ends :
      (reason : CancelReason) (again : Polling → Run (Session f) Bool) (deadline : ℕ)
      (s : Session f)
      → ((state : Polling) (s' : Session f)
          → Follows f live s s'
          → Took f live deadline s s'
          → is_some (again state s') ≡ true)
      → (r : Result Bool AdapterError) (s' : Session f) → Follows f live s s'
      → (is_ok r ≡ true → Took f live deadline s s')
      → is_some (after_wait f reason again r s') ≡ true
  after_wait_ends reason again deadline s ends (err e) s' moved took = refl
  after_wait_ends reason again deadline s ends (ok _) s' (time, left) took =
      let (early, later) = took refl in
      cancel_polled_ends again s' (λ state s'' (time', left') _.
        ends state s'' (omega arith, omega arith) (early, omega arith))

  -- The loop gives up at its deadline, and each of its rounds takes time.
  cancel_loop_ends :
      (n : ℕ) (reason : CancelReason) (deadline : ℕ) (state : Polling) (s : Session f)
      → budget f live deadline s + 1 < n
      → is_some (cancel_loop f n reason deadline state s) ≡ true
  unfolding cancel_loop
  cancel_loop_ends zero reason deadline state s h = absurd (omega arith)
  cancel_loop_ends (suc n) reason deadline finished s h = ground (arith)
  cancel_loop_ends (suc n) reason deadline failed s h = ground (arith)
  cancel_loop_ends (suc n) reason deadline active s h = elim (Bool-cases (leb deadline (now f s))) [
    | inl late ↦ ground (arith, late)
    | inr early ↦
        let still : now f s < deadline = ground (arith, early) in
        let go =
          cancel_polled_ends (cancel_loop f n reason deadline) s (λ state s' (time, left) later.
            cancel_loop_ends n reason deadline state s' (omega arith)) in
        ground (arith, go)
  ]
  cancel_loop_ends (suc n) reason deadline reading s h =
      let go =
        wait_ends f live n of_cancel true false deadline s
          (after_wait f reason (cancel_loop f n reason deadline)) (omega arith)
          (after_wait_ends reason (cancel_loop f n reason deadline) deadline s
            (λ state s' (time, left) (early, later).
              cancel_loop_ends n reason deadline state s' (omega arith))) in
      ground (arith, go)
  cancel_loop_ends (suc n) reason deadline writing s h =
      let go =
        wait_ends f live n of_cancel false true deadline s
          (after_wait f reason (cancel_loop f n reason deadline)) (omega arith)
          (after_wait_ends reason (cancel_loop f n reason deadline) deadline s
            (λ state s' (time, left) (early, later).
              cancel_loop_ends n reason deadline state s' (omega arith))) in
      ground (arith, go)

  pub dispatch_cancel_ends :
      (n : ℕ) (reason : CancelReason) (deadline : ℕ) (s : Session f)
      → budget f live deadline s + 1 < n
      → is_some (dispatch_cancel f n reason deadline s) ≡ true
  unfolding dispatch_cancel
  dispatch_cancel_ends n reason deadline s h =
      let w1 = (f.cancel_create s.world).1 in
      let s2 = record s { world = (f.cancel_start w1).1 } in
      let t1 = live.create_time s.world in
      let l1 = live.create_left s.world in
      let t2 = live.start_time w1 in
      let l2 = live.start_left w1 in
      let go = cancel_loop_ends n reason deadline writing s2 (omega arith) in ground (arith, go)

  -- Where the request is answered, time has moved on and no result has been added.
  after_wait_moves :
      (reason : CancelReason) (again : Polling → Run (Session f) Bool) (b : Bool)
      (s s'' : Session f)
      → ((state : Polling) (s' : Session f)
          → again state s' ≡ some (ok b, s'')
          → Follows f live s' s'')
      → (r : Result Bool AdapterError) (s' : Session f) → Follows f live s s'
      → after_wait f reason again r s' ≡ some (ok b, s'')
      → Follows f live s s''
  after_wait_moves reason again b s s'' follows (err e) s' moved h = absurd (ground (arith))
  after_wait_moves reason again b s s'' follows (ok _) s' (time, left) h =
      let s1 = record s' { world = (f.cancel_poll s'.world).1 } in
      let (time', left') = follows (f.cancel_poll s'.world).0 s1 h in
      let t = live.cancel_time s'.world in
      let l = live.cancel_left s'.world in (omega arith, omega arith)

  waited_moves :
      (reason : CancelReason) (again : Polling → Run (Session f) Bool) (b : Bool) (n : ℕ)
      (read write : Bool) (deadline : ℕ) (s s'' : Session f)
      → ((state : Polling) (s' : Session f)
          → again state s' ≡ some (ok b, s'')
          → Follows f live s' s'')
      → caught (poll_loop f n of_cancel read write deadline s) (after_wait f reason again)
        ≡ some (ok b, s'')
      → Follows f live s s''
  waited_moves reason again b n read write deadline s s'' follows h =
      let (r, s', e, h') =
        caught_answers (poll_loop f n of_cancel read write deadline s) (after_wait f reason again)
          (ok b) s'' h in
      after_wait_moves reason again b s s'' follows r s'
        (poll_loop_moves f live n of_cancel read write deadline s s' r e).0 h'

  cancel_loop_moves :
      (n : ℕ) (reason : CancelReason) (deadline : ℕ) (state : Polling) (s s'' : Session f)
      (b : Bool)
      → cancel_loop f n reason deadline state s ≡ some (ok b, s'')
      → Follows f live s s''
  unfolding cancel_loop
  cancel_loop_moves zero reason deadline state s s'' b h = absurd (ground (arith))
  cancel_loop_moves (suc n) reason deadline finished s s'' b h =
      ground (arith, live.end_time s.world, live.end_left s.world)
  cancel_loop_moves (suc n) reason deadline failed s s'' b h =
      ground (arith, live.end_time s.world, live.end_left s.world)
  cancel_loop_moves (suc n) reason deadline active s s'' b h =
      let state' = (f.cancel_poll s.world).0 in
      let s1 = record s { world = (f.cancel_poll s.world).1 } in
      let t = live.cancel_time s.world in
      let l = live.cancel_left s.world in
      let (time', left') = cancel_loop_moves n reason deadline state' s1 s'' b (ground (arith)) in
      (omega arith, omega arith)
  cancel_loop_moves (suc n) reason deadline reading s s'' b h =
      waited_moves reason (cancel_loop f n reason deadline) b n true false deadline s s''
        (λ state s' e. cancel_loop_moves n reason deadline state s' s'' b e) (ground (arith))
  cancel_loop_moves (suc n) reason deadline writing s s'' b h =
      waited_moves reason (cancel_loop f n reason deadline) b n false true deadline s s''
        (λ state s' e. cancel_loop_moves n reason deadline state s' s'' b e) (ground (arith))

  pub dispatch_cancel_moves :
      (n : ℕ) (reason : CancelReason) (deadline : ℕ) (s s'' : Session f) (b : Bool)
      → dispatch_cancel f n reason deadline s ≡ some (ok b, s'')
      → Follows f live s s''
  unfolding dispatch_cancel
  dispatch_cancel_moves n reason deadline s s'' b h =
      let w1 = (f.cancel_create s.world).1 in
      let s2 = record s { world = (f.cancel_start w1).1 } in
      ground (
        arith,
        live.create_time s.world,
        live.create_left s.world,
        live.start_time w1,
        live.start_left w1,
        cancel_loop_moves n reason deadline writing s2 s'' b,
      )

  after_drain_ends :
      (reason : CancelReason) (b : Bool) (r : Result (Unit {0}) AdapterError) (s : Session f)
      → is_some (after_drain f reason b r s) ≡ true
  after_drain_ends reason b (err e) s = refl
  after_drain_ends reason true (ok _) s = refl
  after_drain_ends reason false (ok _) s = refl

  -- With as much fuel as there are results left and instants until the deadline, and two more, a
  -- cancellation and the drain after it end.
  pub cancel_and_drain_ends :
      (n : ℕ) (reason : CancelReason) (deadline : ℕ) (s : Session f)
      → budget f live deadline s + 1 < n
      → is_some (cancel_and_drain f n reason deadline s) ≡ true
  unfolding cancel_and_drain
  cancel_and_drain_ends n reason deadline s h =
      caught_ends f live (dispatch_cancel f n reason deadline s) _
        (dispatch_cancel_ends n reason deadline s h) (λ r s' e. drained r s' e)
    where
      drained :
          (r : Result Bool AdapterError) (s' : Session f)
          → dispatch_cancel f n reason deadline s ≡ some (r, s')
          → is_some (elim r [
            | err e ↦ some (err e, s')
            | ok d ↦ caught (drain_until_idle f n deadline s') (after_drain f reason d)
          ])
            ≡ true
      drained (err e) s' q = refl
      drained (ok d) s' q =
          let (time, left) = dispatch_cancel_moves n reason deadline s s' d q in
          caught_ends f live (drain_until_idle f n deadline s') (after_drain f reason d)
            (drain_until_idle_ends f live n deadline s' (omega arith))
            (λ r s1 _. after_drain_ends reason d r s1)
