-- ===== src/Worker/Native/Factory.antt =====
-- worker.rs: the implementation of `BackendFactory` by `LibpqFactory`.
use pg_mcp.Prelude.{
  ℕ, String, false, Option, none, some, List, Result, ok, err, ◌≡◌, arith, inl, inr, Result-cases,
}
use pg_mcp.Protocol.Errors.{ErrorCode, known_error}
use pg_mcp.Protocol.Json.Canonical.{Writer}
use pg_mcp.Libpq
use pg_mcp.Libpq.{AdapterError, ErrorClass}
use pg_mcp.Libpq.Dsn.{Dsn, ConninfoOption, parse}
use pg_mcp.Libpq.Session.{Foreign, Session}
use pg_mcp.Libpq.Session.Connect.{connect}
use pg_mcp.Libpq.Session.Connect.Verified.{IsVerified, connect-IsVerified}
use pg_mcp.Worker.Backend.{BackendFailure, RequestContext, nothing_observed}
use pg_mcp.Worker.Translate.{libpq_control}

-- The code of an error of `Dsn::parse`.
abbrev parse_code : ErrorClass → ErrorCode
parse_code Libpq.unsupported_server = ErrorCode.unsupported_server
parse_code _ = ErrorCode.config_error

-- The code of an error of `Connection::connect`.
abbrev connect_code : ErrorClass → ErrorCode
connect_code Libpq.unsupported_server = ErrorCode.unsupported_server
connect_code Libpq.config = ErrorCode.config_error
connect_code Libpq.database_mismatch = ErrorCode.database_mismatch
connect_code Libpq.connection_lost = ErrorCode.connection_lost
connect_code ErrorClass.cancelled = ErrorCode.cancelled
connect_code Libpq.deadline_exceeded = ErrorCode.deadline_exceeded
connect_code Libpq.server_stopping = ErrorCode.server_stopping
connect_code _ = ErrorCode.database_error

-- A failure of `Dsn::parse` says that the outcome is known, whatever the error says.
abbrev parse_failure : AdapterError → BackendFailure
parse_failure e = record {
  error = known_error (parse_code e.class_of);
  observation = nothing_observed;
  sqlstate = e.sqlstate;
  outcome_unknown = false;
}

abbrev connect_failure : AdapterError → BackendFailure
connect_failure e = record {
  error = known_error (connect_code e.class_of);
  observation = nothing_observed;
  sqlstate = e.sqlstate;
  outcome_unknown = e.outcome_unknown;
}

module _ (to_vec : Writer) (conninfo_parse : String → Option (List ConninfoOption))
    (f : Foreign) where
  abbrev handed_over :
      Dsn
      → Option (Result (Unit {0}) AdapterError × Session f)
      → Option (Result (Session f × String) BackendFailure × f.World)
  handed_over parsed none = none
  handed_over parsed (some (ok _, s)) = some (ok (s, parsed.database), s.world)
  handed_over parsed (some (err e, s)) = some (err (connect_failure e), s.world)

  handed :
      (parsed : Dsn) (o : Option (Result (Unit {0}) AdapterError × Session f)) (s : Session f)
      (database : String) (w' : f.World)
      → handed_over parsed o ≡ some (ok (s, database), w')
      → (o ≡ some (ok tt, s)) × (parsed.database ≡ database)
  handed parsed none s database w' h = absurd (ground (arith))
  handed parsed (some (ok _, s')) s database w' h = ground (arith)
  handed parsed (some (err e, s')) s database w' h = absurd (ground (arith))

  -- `LibpqFactory::connect`: the connection with the name of its database.
  unfoldable pub factory_connect :
      ℕ
      → String
      → RequestContext
      → f.World
      → Option (Result (Session f × String) BackendFailure × f.World)
  factory_connect n dsn c w = elim (parse conninfo_parse dsn) [
    | err e ↦ some (err (parse_failure e), w)
    | ok parsed ↦ handed_over parsed (connect to_vec f c.deadline (libpq_control c) n parsed w)
  ]

  -- The connection of a database that was opened by its DSN.
  abbrev pub IsOpened : String → Session f → String → Type 0
  IsOpened dsn s database =
      (parsed : Dsn) × (parse conninfo_parse dsn ≡ ok parsed)
      × (parsed.database ≡ database)
      × IsVerified f parsed s

  -- A connection that the factory hands over is that of a DSN that `Dsn::parse` accepts: it is good
  -- and idle, is connected to the database that the DSN names and that is handed over with it, on a
  -- server of version 12 or later, and its client encoding is UTF8.
  pub factory_connect-IsOpened :
      (n : ℕ) (dsn database : String) (c : RequestContext) (w w' : f.World) (s : Session f)
      → factory_connect n dsn c w ≡ some (ok (s, database), w')
      → IsOpened dsn s database
  unfolding factory_connect
  factory_connect-IsOpened n dsn database c w w' s h =
      elim (Result-cases (parse conninfo_parse dsn)) [
        | inr (e, refused) ↦ absurd (ground (arith, refused))
        | inl (parsed, accepted) ↦
            let o = connect to_vec f c.deadline (libpq_control c) n parsed w in
            let given : handed_over parsed o ≡ some (ok (s, database), w') =
              ground (arith, accepted) in
            let (connected, same) = handed parsed o s database w' given in
            (
              parsed,
              accepted,
              same,
              connect-IsVerified to_vec f c.deadline (libpq_control c) n parsed w s connected,
            )
      ]
