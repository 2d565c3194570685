-- ===== src/Libpq/Session.antt =====
-- libpq.rs: the connection as a state machine over libpq's functions and poll(2). An instant is a
-- number of nanoseconds. A loop runs on fuel, and gives none when the fuel is used up.
pub mod Cancel
pub mod Collect
pub mod Send
pub mod Connect
pub mod Progress
pub mod Answers
pub mod Outcomes
use Prim.Native.Nat.{◌/◌}
use pg_mcp.Prelude.{
  ℕ, zero, suc, String, len, Bool, true, false, ◌&&◌, ◌||◌, not, ◌+◌, ◌-◌, ◌^◌, max, leb, ltb, ◌==◌,
  if◌then◌else◌, Option, none, some, List, [], ◌∷◌, length, Result, ok, err, ◌>>=◌, ◌>>◌, fail_if,
  ◌≡◌, refl, arith,
}
use pg_mcp.Protocol.Request.{contains_nul}
use pg_mcp.Libpq
use pg_mcp.Libpq.{
  PollControl, QueryLimits, QueryParameter, ConnectionStatus, TransactionStatus, StatusSnapshot,
  AdapterError, ErrorClass, adapter_error, unknown_adapter_error, invalid_input, connection_lost,
}
use pg_mcp.Libpq.Collector.{NativeResult}

-- `PostgresPollingStatusType`, the answers of poll(2) and those of PQflush.
pub data Polling : Type 0 where
  reading writing active finished failed : Polling

pub data Polled : Type 0 where
  ready : (broken readable : Bool) → Polled
  timed_out interrupted refused : Polled

pub data Flushed : Type 0 where
  all_sent pending not_sent : Flushed

-- The descriptors that are waited for: that of the connection and that of a cancel request.
pub data Socket : Type 0 where
  of_connection of_cancel : Socket

-- libpq and the system, over one PGconn and at most one PGcancelConn. A call takes the state of
-- the outside and leaves another; the clock is part of it.
pub record Foreign : Type 1 where
  pub World : Type 0
  pub clock : World → ℕ
  pub poll : Socket → (read write : Bool) → (millis : ℕ) → World → Polled × World
  pub socket : Socket → World → Bool
  pub connect_start : String → World → Bool × World
  pub connect_poll : World → Polling × World
  pub set_nonblocking : World → Bool × World
  pub send_query_params : String → List QueryParameter → World → Bool × World
  pub set_single_row_mode : World → Bool × World
  pub flush : World → Flushed × World
  pub consume_input : World → Bool × World
  pub is_busy : World → Bool × World
  pub get_result : World → Option NativeResult × World
  pub cancel_create : World → Bool × World
  pub cancel_start : World → Bool × World
  pub cancel_poll : World → Polling × World
  pub cancel_finish : World → World
  pub finish : World → World
  pub status : World → Bool
  pub transaction_status : World → TransactionStatus
  pub parameter_status : String → World → Option String
  pub db : World → Option String
  pub server_version : World → ℕ

-- A routine that may run out of fuel, may fail, and changes the state either way.
abbrev pub Run : Type 0 → Type 0 → Type 0
Run S A = S → Option (Result A AdapterError × S)

module _ {S A B : Type 0} where
  -- To go on with what a routine answered, or with the state alone, from where it stopped.
  abbrev pub caught :
      Option (Result A AdapterError × S)
      → (Result A AdapterError → Run S B)
      → Option (Result B AdapterError × S)
  caught none k = none
  caught (some (r, s)) k = k r s

  abbrev pub passed : (A → Run S B) → Result A AdapterError → Run S B
  passed k (ok a) s = k a s
  passed k (err e) s = some (err e, s)

  -- What a routine answered before the one that goes on.
  pub caught_answers :
      (o : Option (Result A AdapterError × S)) (k : Result A AdapterError → Run S B)
      (b : Result B AdapterError) (s : S)
      → caught o k ≡ some (b, s)
      → (r : Result A AdapterError) × (s' : S) × (o ≡ some (r, s')) × (k r s' ≡ some (b, s))
  caught_answers none k b s h = absurd (ground (arith))
  caught_answers (some (r, s')) k b s h = (r, s', refl, h)

-- `check_control`, at an instant.
unfoldable pub check_control : PollControl → ℕ → ℕ → Result (Unit {0}) AdapterError
check_control control deadline now =
    if control.shutdown_requested now
    then err (adapter_error Libpq.server_stopping)
    else if control.cancelled now
    then err (adapter_error ErrorClass.cancelled)
    else if leb deadline now
    then err (adapter_error Libpq.deadline_exceeded)
    else ok tt

-- The loop of `validate_parameters`, from the total so far.
abbrev pub values_total : ℕ → List QueryParameter → Result ℕ AdapterError
values_total total [] = ok total
values_total total (p ∷ ps) = elim p.value [
  | none ↦ values_total total ps
  | some v ↦
      (fail_if (contains_nul v || not (ltb (total + len v) (2 ^ 64))) (adapter_error invalid_input)
        >> values_total (total + len v) ps)
]

-- `validate_parameters`.
unfoldable pub validate_parameters :
    List QueryParameter → QueryLimits → Result (Unit {0}) AdapterError
validate_parameters ps limits = do
  fail_if (ltb limits.parameters (length ps)) (adapter_error invalid_input)
  total ← values_total 0 ps
  fail_if (ltb limits.parameter_bytes total) (adapter_error invalid_input)

-- The time slice of a poll in milliseconds: at most POLL_SLICE, and at least one.
abbrev pub poll_millis : ℕ → ℕ
poll_millis remaining = max 1 ((if ltb remaining 25000000 then remaining else 25000000) / 1000000)

abbrev pub lost : AdapterError
lost = unknown_adapter_error connection_lost

module _ (f : Foreign) where
  -- A `Connection`, with the outside: whether it still owns its PGconn, and the flag `busy`.
  pub record Session : Type 0 where
    pub world : f.World
    pub owned : Bool
    pub busy : Bool

  abbrev pub now : Session → ℕ
  now s = f.clock s.world

  -- `dispose`: the owner that is dropped calls PQfinish.
  abbrev pub disposed : Session → Session
  disposed s = record {
    world = if s.owned then f.finish s.world else s.world;
    owned = false;
    busy = false;
  }

  -- `status`.
  unfoldable pub status : Session → StatusSnapshot
  status s =
      if s.owned
      then (record {
        connection_status =
            if f.status s.world then ConnectionStatus.good else ConnectionStatus.bad;
        transaction_status = f.transaction_status s.world;
        busy = s.busy;
      })
      else (record {
        connection_status = ConnectionStatus.closed;
        transaction_status = TransactionStatus.unknown;
        busy = false;
      })

  -- The loop of `poll_fd`.
  unfoldable pub poll_loop : ℕ → Socket → Bool → Bool → ℕ → Run Session Bool
  poll_loop zero fd read write deadline s = none
  poll_loop (suc n) fd read write deadline s =
      let (polled, w) = f.poll fd read write (poll_millis (deadline - now s)) s.world in
      let s' = record s { world = w } in
      let rest = poll_loop n fd read write deadline s' in
      if leb deadline (now s)
      then some (err (unknown_adapter_error Libpq.deadline_exceeded), s)
      else elim polled [
        | ready broken readable ↦ if broken then some (err lost, s') else some (ok readable, s')
        | timed_out ↦
            if leb deadline (f.clock w)
            then some (err (unknown_adapter_error Libpq.deadline_exceeded), s')
            else rest
        | interrupted ↦ rest
        | refused ↦ some (err lost, s')
      ]

  -- `poll_fd`, on a descriptor that is there.
  abbrev pub poll_fd : ℕ → Socket → Bool → Bool → ℕ → Run Session Bool
  poll_fd n fd read write deadline s =
      if not read && not write then some (err lost, s) else poll_loop n fd read write deadline s

  -- `flush_output`, after PQflush said that output is pending and the wait is over.
  abbrev pub service_input : Run Session (Unit {0}) → Bool → Run Session (Unit {0})
  service_input again readable s =
      let (consumed, w) = f.consume_input s.world in
      let s' = record s { world = w } in
      if readable then (if consumed then again s' else some (err lost, s')) else again s

  -- `flush_output`.
  unfoldable pub flush_output : ℕ → ℕ → PollControl → Run Session (Unit {0})
  flush_output zero deadline control s = none
  flush_output (suc n) deadline control s =
      let (flushed, w) = f.flush s.world in
      let s' = record s { world = w } in
      elim (check_control control deadline (now s)) [
        | err e ↦ some (err e, s)
        | ok _ ↦ if not s.owned then some (err lost, s) else elim flushed [
          | all_sent ↦ some (ok tt, s')
          | not_sent ↦ some (err lost, s')
          | pending ↦
              if not (f.socket of_connection w)
              then some (err lost, s')
              else caught (poll_fd n of_connection true true deadline s')
                  (passed (service_input (flush_output n deadline control)))
        ]
      ]

  -- The inner loop of `drain_until_idle`.
  unfoldable pub clear_results : ℕ → Run Session (Unit {0})
  clear_results zero s = none
  clear_results (suc n) s =
      let (r, w) = f.get_result s.world in
      let s' = record s { world = w } in
      let rest = clear_results n s' in elim r [ none ↦ some (ok tt, s') | some _ ↦ rest ]

  -- `drain_until_idle`.
  unfoldable pub drain_until_idle : ℕ → ℕ → Run Session (Unit {0})
  drain_until_idle zero deadline s = none
  drain_until_idle (suc n) deadline s =
      let (consumed, w) = f.consume_input s.world in
      let s' = record s { world = w } in
      let (busy, w') = f.is_busy w in
      let s'' = record s { world = w' } in
      if not s.owned
      then some (ok tt, s)
      else if not consumed
      then some (err lost, s')
      else if not busy
      then clear_results n s''
      else if not (f.socket of_connection w')
      then some (err lost, s'')
      else caught (poll_fd n of_connection true false deadline s'')
          (passed (λ _. drain_until_idle n deadline))
