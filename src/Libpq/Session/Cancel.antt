-- ===== src/Libpq/Session/Cancel.antt =====
-- libpq.rs: the cancellation of the command of a connection.
pub mod Settled
use pg_mcp.Prelude.{
  ℕ, zero, suc, Bool, true, false, not, leb, if◌then◌else◌, none, some, Result, ok, err,
}
use pg_mcp.Libpq.{CancelReason, AdapterError, reason_error}
use pg_mcp.Libpq.Session.{
  Foreign, Polling, reading, writing, active, finished, failed, of_cancel, Run, caught, Session,
  now, disposed, poll_fd, drain_until_idle,
}

-- `error.unknown()`.
abbrev pub with_unknown : AdapterError → AdapterError
with_unknown e = record e { outcome_unknown = true }

module _ (f : Foreign) where
  abbrev pub cancel_finished : Session f → Session f
  cancel_finished s = record s { world = f.cancel_finish s.world }

  -- A cancel request that is given up takes the connection with it.
  abbrev pub abandoned : CancelReason → Run (Session f) Bool
  abandoned reason s = some (err (with_unknown (reason_error reason)), disposed f s)

  abbrev pub given_up : CancelReason → Run (Session f) Bool
  given_up reason s = abandoned reason (cancel_finished s)

  abbrev pub cancel_polled : (Polling → Run (Session f) Bool) → Run (Session f) Bool
  cancel_polled again s =
      let (state, w) = f.cancel_poll s.world in again state (record s { world = w })

  abbrev pub after_wait :
      CancelReason
      → (Polling → Run (Session f) Bool)
      → Result Bool AdapterError
      → Run (Session f) Bool
  after_wait reason again (ok _) s = cancel_polled again s
  after_wait reason again (err _) s = given_up reason s

  -- The loop of `dispatch_cancel`, from the state of the last poll.
  unfoldable pub cancel_loop : ℕ → CancelReason → ℕ → Polling → Run (Session f) Bool
  cancel_loop zero reason deadline state s = none
  cancel_loop (suc n) reason deadline state s =
      if leb deadline (now f s) then given_up reason s else elim state [
        | finished ↦ some (ok true, cancel_finished s)
        | failed ↦ some (ok false, cancel_finished s)
        | active ↦ cancel_polled (cancel_loop n reason deadline) s
        | reading ↦
            if not (f.socket of_cancel s.world)
            then given_up reason s
            else caught (poll_fd f n of_cancel true false deadline s)
                (after_wait reason (cancel_loop n reason deadline))
        | writing ↦
            if not (f.socket of_cancel s.world)
            then given_up reason s
            else caught (poll_fd f n of_cancel false true deadline s)
                (after_wait reason (cancel_loop n reason deadline))
      ]

  -- `dispatch_cancel`.
  unfoldable pub dispatch_cancel : ℕ → CancelReason → ℕ → Run (Session f) Bool
  dispatch_cancel n reason deadline s =
      let (created, w) = f.cancel_create s.world in
      let (started, w') = f.cancel_start w in
      if not s.owned
      then some (ok false, s)
      else if not created
      then abandoned reason (record s { world = w })
      else if not started
      then given_up reason (record s { world = w' })
      else cancel_loop n reason deadline writing (record s { world = w' })

  abbrev pub after_drain :
      CancelReason → Bool → Result (Unit {0}) AdapterError → Run (Session f) Bool
  after_drain reason dispatched (err _) s = abandoned reason s
  after_drain reason true (ok _) s = some (ok true, s)
  after_drain reason false (ok _) s = some (err (with_unknown (reason_error reason)), s)

  -- `cancel_and_drain`.
  unfoldable pub cancel_and_drain : ℕ → CancelReason → ℕ → Run (Session f) Bool
  cancel_and_drain n reason deadline s =
      caught (dispatch_cancel n reason deadline s) (λ dispatched s'. elim dispatched [
        | err e ↦ some (err e, s')
        | ok d ↦ caught (drain_until_idle f n deadline s') (after_drain reason d)
      ])
