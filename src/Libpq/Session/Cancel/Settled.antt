-- ===== src/Libpq/Session/Cancel/Settled.antt =====
-- What a cancellation amounts to once it has ended.
use pg_mcp.Prelude.{
  ℕ, zero, suc, Bool, true, false, some, Result, ok, err, ◌≡◌, ◌⊎◌, inl, inr, ◌∙◌, leb, arith,
  Option-cases, Bool-cases,
}
use pg_mcp.Libpq.{CancelReason, AdapterError, reason_error}
use pg_mcp.Libpq.Session.{
  Foreign, Polling, reading, writing, active, finished, failed, of_cancel, Run, caught,
  caught_answers, Session, now, poll_loop, drain_until_idle,
}
use pg_mcp.Libpq.Session.Cancel.{
  with_unknown, dispatch_cancel, cancel_loop, cancel_and_drain, after_wait,
}

module _ (f : Foreign) where
  -- The request was dispatched or refused, or the error is that of its reason, with an unknown
  -- outcome.
  abbrev pub IsOf : CancelReason → Result Bool AdapterError → Type 0
  IsOf reason r = ((b : Bool) × (r ≡ ok b)) ⊎ (r ≡ err (with_unknown (reason_error reason)))

  waited-IsOf :
      (reason : CancelReason) (again : Polling → Run (Session f) Bool) (n : ℕ) (read write : Bool)
      (deadline : ℕ) (s s' : Session f) (r : Result Bool AdapterError)
      → ((state : Polling) (s1 : Session f) → again state s1 ≡ some (r, s') → IsOf reason r)
      → caught (poll_loop f n of_cancel read write deadline s) (after_wait f reason again)
        ≡ some (r, s')
      → IsOf reason r
  waited-IsOf reason again n read write deadline s s' r rounds h =
      let (answer, s1, _, go) =
        caught_answers (poll_loop f n of_cancel read write deadline s) (after_wait f reason again) r
          s' h in
      waited answer s1 go
    where
      waited :
          (answer : Result Bool AdapterError) (s1 : Session f)
          → after_wait f reason again answer s1 ≡ some (r, s')
          → IsOf reason r
      waited (err x) s1 go = inr (ground (arith))
      waited (ok _) s1 go =
          rounds (f.cancel_poll s1.world).0 (record s1 { world = (f.cancel_poll s1.world).1 }) go

  cancel_loop-IsOf :
      (n : ℕ) (reason : CancelReason) (deadline : ℕ) (state : Polling) (s s' : Session f)
      (r : Result Bool AdapterError)
      → cancel_loop f n reason deadline state s ≡ some (r, s')
      → IsOf reason r
  unfolding cancel_loop
  cancel_loop-IsOf zero reason deadline state s s' r h = absurd (ground (arith))
  cancel_loop-IsOf (suc n) reason deadline finished s s' r h =
      elim (Bool-cases (leb deadline (now f s))) [
        | inl late ↦ inr (ground (arith, late))
        | inr early ↦ inl (true, ground (arith, early))
      ]
  cancel_loop-IsOf (suc n) reason deadline failed s s' r h =
      elim (Bool-cases (leb deadline (now f s))) [
        | inl late ↦ inr (ground (arith, late))
        | inr early ↦ inl (false, ground (arith, early))
      ]
  cancel_loop-IsOf (suc n) reason deadline active s s' r h =
      let s1 = record s { world = (f.cancel_poll s.world).1 } in
      elim (Bool-cases (leb deadline (now f s))) [
        | inl late ↦ inr (ground (arith, late))
        | inr early ↦
            cancel_loop-IsOf n reason deadline (f.cancel_poll s.world).0 s1 s' r
              (ground (arith, early))
      ]
  cancel_loop-IsOf (suc n) reason deadline reading s s' r h =
      elim (Bool-cases (leb deadline (now f s))) [
        | inl late ↦ inr (ground (arith, late))
        | inr early ↦ elim (Bool-cases (f.socket of_cancel s.world)) [
          | inr gone ↦ inr (ground (arith, early, gone))
          | inl there ↦
              waited-IsOf reason (cancel_loop f n reason deadline) n true false deadline s s' r
                (λ state s1 go. cancel_loop-IsOf n reason deadline state s1 s' r go)
                (ground (arith, early, there))
        ]
      ]
  cancel_loop-IsOf (suc n) reason deadline writing s s' r h =
      elim (Bool-cases (leb deadline (now f s))) [
        | inl late ↦ inr (ground (arith, late))
        | inr early ↦ elim (Bool-cases (f.socket of_cancel s.world)) [
          | inr gone ↦ inr (ground (arith, early, gone))
          | inl there ↦
              waited-IsOf reason (cancel_loop f n reason deadline) n false true deadline s s' r
                (λ state s1 go. cancel_loop-IsOf n reason deadline state s1 s' r go)
                (ground (arith, early, there))
        ]
      ]

  pub dispatch_cancel-IsOf :
      (n : ℕ) (reason : CancelReason) (deadline : ℕ) (s s' : Session f)
      (r : Result Bool AdapterError)
      → dispatch_cancel f n reason deadline s ≡ some (r, s')
      → IsOf reason r
  unfolding dispatch_cancel
  dispatch_cancel-IsOf n reason deadline s s' r h =
      let w1 = (f.cancel_create s.world).1 in
      let s2 = record s { world = (f.cancel_start w1).1 } in
      elim (Bool-cases s.owned) [
        | inr gone ↦ inl (false, ground (arith, gone))
        | inl own ↦ elim (Bool-cases (f.cancel_create s.world).0) [
          | inr e ↦ inr (ground (arith, own, e))
          | inl created ↦ elim (Bool-cases (f.cancel_start w1).0) [
            | inr e ↦ inr (ground (arith, own, created, e))
            | inl started ↦
                cancel_loop-IsOf n reason deadline writing s2 s' r
                  (ground (arith, own, created, started))
          ]
        ]
      ]

  -- What a cancellation that has ended with that answer and that connection amounts to.
  abbrev pub IsSettled :
      ℕ → CancelReason → ℕ → Session f → Result Bool AdapterError → Session f → Type 0
  IsSettled n reason deadline s r s' =
      ((r ≡ ok true)
        × ((s1 : Session f) × (dispatch_cancel f n reason deadline s ≡ some (ok true, s1))
            × (drain_until_idle f n deadline s1 ≡ some (ok tt, s'))))
      ⊎ (r ≡ err (with_unknown (reason_error reason)))

  -- A cancellation either was dispatched and left the connection drained, or it fails with the
  -- error of its reason and an unknown outcome.
  pub cancel_and_drain_answers :
      (n : ℕ) (reason : CancelReason) (deadline : ℕ) (s s' : Session f)
      (r : Result Bool AdapterError)
      → cancel_and_drain f n reason deadline s ≡ some (r, s')
      → IsSettled n reason deadline s r s'
  unfolding cancel_and_drain
  cancel_and_drain_answers n reason deadline s s' r h =
      elim (Option-cases (dispatch_cancel f n reason deadline s)) [
        | inl e ↦ absurd (ground (arith, e))
        | inr ((err x, s1), e) ↦ elim (dispatch_cancel-IsOf n reason deadline s s1 (err x) e) [
          | inl (b, q) ↦ absurd (ground (arith, q))
          | inr q ↦ inr (ground (arith, e, q))
        ]
        | inr ((ok false, s1), e) ↦ elim (Option-cases (drain_until_idle f n deadline s1)) [
          | inl d ↦ absurd (ground (arith, e, d))
          | inr ((err x, s2), d) ↦ inr (ground (arith, e, d))
          | inr ((ok _, s2), d) ↦ inr (ground (arith, e, d))
        ]
        | inr ((ok true, s1), e) ↦ elim (Option-cases (drain_until_idle f n deadline s1)) [
          | inl d ↦ absurd (ground (arith, e, d))
          | inr ((err x, s2), d) ↦ inr (ground (arith, e, d))
          | inr ((ok _, s2), d) ↦ inl (ground (arith, e, d), (s1, e, d ∙ ground (arith, e, d)))
        ]
      ]
