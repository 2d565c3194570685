-- ===== src/Libpq/Session/Connect.antt =====
-- libpq.rs: `Connection::connect`.
pub mod Verified
use pg_mcp.Prelude.{
  ℕ, zero, suc, Bool, true, false, not, ltb, if◌then◌else◌, Option, none, some, List, str_eq,
  Result, ok, err,
}
use pg_mcp.Protocol.Json.Canonical.{Writer}
use pg_mcp.Libpq
use pg_mcp.Libpq.{
  PollControl, AdapterError, ErrorClass, ResultSet, ConnectionStatus, TransactionStatus,
  adapter_error, database, connection_lost,
}
use pg_mcp.Libpq.Dsn.{Dsn}
use pg_mcp.Libpq.Session.{
  Foreign, Polling, reading, writing, active, finished, failed, of_connection, Run, caught, passed,
  Session, now, disposed, lost, check_control, poll_fd, status,
}
use pg_mcp.Libpq.Session.Send.{send_and_collect}

module _ (to_vec : Writer) (f : Foreign) (deadline : ℕ) (control : PollControl) where
  -- `check_control(control, deadline)?`.
  abbrev pub checked : {A : Type 0} → Run (Session f) A → Run (Session f) A
  checked go s = elim (check_control control deadline (now f s)) [
    | err e ↦ some (err e, s)
    | ok _ ↦ go s
  ]

  abbrev pub fails : {A : Type 0} → ErrorClass → Run (Session f) A
  fails c s = some (err (adapter_error c), s)

  -- `wait_connection`, and the next round.
  abbrev pub waited : ℕ → Bool → Bool → Run (Session f) (Unit {0}) → Run (Session f) (Unit {0})
  waited n read write again s =
      if not (f.socket of_connection s.world)
      then some (err lost, s)
      else caught (poll_fd f n of_connection read write deadline s) (passed (λ _. again))

  abbrev pub after_poll : ℕ → Run (Session f) (Unit {0}) → Polling → Run (Session f) (Unit {0})
  after_poll n again finished s = some (ok tt, s)
  after_poll n again failed s = fails connection_lost s
  after_poll n again active s = again s
  after_poll n again reading s = waited n true false again s
  after_poll n again writing s = waited n false true again s

  -- The loop of `connect`.
  unfoldable pub connect_loop : ℕ → Run (Session f) (Unit {0})
  connect_loop zero s = none
  connect_loop (suc n) s =
      let (state, w) = f.connect_poll s.world in
      checked (λ _. checked (after_poll n (connect_loop n) state) (record s { world = w })) s

  -- `set_nonblocking`.
  abbrev pub set_nonblocking : Run (Session f) (Unit {0})
  set_nonblocking s =
      let (set, w) = f.set_nonblocking s.world in
      let s' = record s { world = w } in if set then some (ok tt, s') else fails connection_lost s'

  -- `setup_utf8`, after the SET.
  abbrev pub confirmed_utf8 : ResultSet → Run (Session f) (Unit {0})
  confirmed_utf8 r s =
      if not (str_eq r.command_tag "SET")
      then fails database s
      else elim (f.parameter_status "client_encoding" s.world) [
        | none ↦ fails database s
        | some value ↦ if str_eq value "UTF8" then some (ok tt, s) else fails database s
      ]

  -- `setup_utf8`.
  unfoldable pub setup_utf8 : ℕ → Run (Session f) (Unit {0})
  setup_utf8 n s =
      caught
        (send_and_collect to_vec f n "SET client_encoding TO 'UTF8'" List.[] false deadline control
          s)
        (passed confirmed_utf8)

  abbrev pub is_good : ConnectionStatus → Bool
  is_good ConnectionStatus.good = true
  is_good _ = false

  abbrev pub is_idle : TransactionStatus → Bool
  is_idle TransactionStatus.idle = true
  is_idle _ = false

  -- The checks at the end of `connect`: the status, the database and the version.
  unfoldable pub verified : Dsn → Run (Session f) (Unit {0})
  verified dsn s =
      if not (is_good (status f s).connection_status)
      then fails connection_lost s
      else if not (is_idle (status f s).transaction_status)
      then fails database s
      else elim (f.db s.world) [
        | none ↦ fails database s
        | some actual ↦
            if not (str_eq actual dsn.database)
            then fails Libpq.database_mismatch s
            else if ltb (f.server_version s.world) 120000
            then fails Libpq.unsupported_server s
            else some (ok tt, s)
      ]

  -- The connection is dropped where `connect` returns an error.
  abbrev pub kept_if_ok : Result (Unit {0}) AdapterError → Run (Session f) (Unit {0})
  kept_if_ok (ok _) s = some (ok tt, s)
  kept_if_ok (err e) s = some (err e, disposed f s)

  -- `connect`, from a state of the outside.
  unfoldable pub established : ℕ → Dsn → Run (Session f) (Unit {0})
  established n dsn s = caught (connect_loop n s) (
      passed (λ _. checked (λ s1.
        caught (set_nonblocking s1)
          (passed (λ _ s2. caught (setup_utf8 n s2) (passed (λ _. checked (verified dsn))))))))

  unfoldable pub connect : ℕ → Dsn → f.World → Option (Result (Unit {0}) AdapterError × Session f)
  connect n dsn w =
      let (started, w') = f.connect_start dsn.raw w in
      let none_yet : Session f = record { world = w; owned = false; busy = false } in
      elim (check_control control deadline (f.clock w)) [
        | err e ↦ some (err e, none_yet)
        | ok _ ↦
            if not started
            then fails connection_lost (record none_yet { world = w' })
            else caught (established n dsn (record none_yet { world = w'; owned = true }))
                kept_if_ok
      ]
