-- ===== src/Lib.antt =====
-- pg-mcp, a server that gives MCP clients PostgreSQL connections, and its release tool, as a
-- verification library. It models crates/postgres-mcp-core: one worker thread owns each libpq
-- connection, takes requests from a bounded queue in order, and publishes what it observes of the
-- connection to a registry, from which replies and suggested moves are computed. It also models
-- crates/postgres-mcp, the server over this core, and crates/xtask, whose commands check a repository
-- and its archives and publish a release.
--
-- Files, and the code they model:
--   Prelude         texts, tests, options, results, and maps with text keys
--   Protocol        crates/postgres-mcp-core/src/protocol.rs
--     Status        ConnectionStatus, TransactionStatus, HandleState, ValidationError
--     Moves         Move, moves_for_state and the guidance; Moves/Table: the design's table
--     Json          serde_json::Value; Json/Canonical: canonicalize; Json/Derive: the readers and
--                   writers that serde derives
--     Errors        ErrorCode, CoreError, ErrorPayload; Errors/Wire: its serialization
--     Envelope      Envelope and the worker's envelopes; Envelope/Wire: its serialization, which
--                   Wire/Lossless reads back
--     Request       Parameter, QueryRequest; Request/Limits: what validation accepts;
--                   Request/Wire: their readers
--     Rows          QueryResult; Rows/Bounds: what validation accepts
--     Catalog       SchemaResult; Catalog/Budget: what validation accepts
--   Config          crates/postgres-mcp-core/src/config.rs: Config, ConfigOverrides; Config/Profiles:
--                   ConfigFile; Config/Profiles/Gaps: what its validation guarantees;
--                   Config/Resolve: resolve_with_context; Config/Resolve/Ended: its child processes
--   Libpq           crates/postgres-mcp-core/src/libpq.rs: the types of the adapter and
--                   direct_ddl_command_tag, and the interface that the backend uses
--     Collector     ResultCollector; Collector/Retained, Collector/Copied: what it holds
--     Dsn           Dsn::parse over the options of PQconninfoParse; Dsn/Accepted: what it accepts
--     Session       Connection over libpq's C functions: the waits, flush_output, drain_until_idle;
--                   Session/Cancel: dispatch_cancel; Session/Collect: collect_results; Session/Send:
--                   send_query, send_and_collect; Session/Connect: connect; Connect/Verified: what it
--                   hands over; Session/Progress: the ends of the loops; Session/Answers, Session/Outcomes: what they answer
--   Schema          crates/postgres-mcp-core/src/schema.rs: the fields of catalog rows
--     Queries       the three statements
--     Assembly      the loops over the rows; Assembly/Stages, Assembly/Order, Assembly/Complete
--     Retrieve      retrieve; Retrieve/Committed: its transaction
--   Worker          crates/postgres-mcp-core/src/worker.rs
--     Backend       native statuses, RequestContext, the trait Backend
--     Registry      PublishedHandle, RegistryState and the writes of a worker
--     Execute       operation_precondition, execute_operation
--     Loop          worker_loop: serve_operation is one turn, serve_shutdown the last one
--     Handle        the turn as a pure step on one published handle
--     Turn          theorems on a turn: Refusal, Schema, Reply, Closing, Valid
--     Guidance      suggested moves against what the worker accepts
--     Lawful        the contract of a backend
--     Translate     what LibpqBackend hands to the adapter and reads from it
--     Native        LibpqBackend over the adapter; Native/Commit, Native/Contract, Native/Snapshot:
--                   its theorems; Native/Over: the backend over the connection of Libpq/Session;
--                   Native/Factory: LibpqFactory over it
--     Admission     the admission of Core::dispatch and the channel; Admission/Queue: its steps;
--                   Admission/Outcomes
--     Open          reserve_open, connect_and_publish, finish_open; Open/Limit: the limit of handles;
--                   Open/Detached: a worker that is not published;
--                   Open/Database: Core::new, open_database; Open/Settled: what it leaves; Open/Names,
--                   Names/Inherited, Names/Unused: the names of handles
--     Dispatch      Core::dispatch, and the operations that call it
--     Listing       list_handles
--     Shutdown      Core::shutdown, join_worker, join_closed_worker; Shutdown/Contract: what it relies
--                   on; Shutdown/Entries, Shutdown/Waits: its loops; Shutdown/Report, Shutdown/Frozen,
--                   Shutdown/Ending, Shutdown/Joining: its theorems; Shutdown/Others: the other writers
--   Release         crates/xtask/src/main.rs
--     Text          the functions of str that it uses
--     World         the programs, files and formats outside, and its results as tasks
--     Notes         archive_names, validate_tag, extract_notes
--     Checksums     verify_checksums; Checksums/Exact: what it accepts
--     Checks        validate_repository, verify_asset_dir, verify_archive, verify_binary
--     Publish       publish; Publish/Calls, Publish/Tasks, Publish/Grows: the calls of its tasks;
--                   Publish/Guarded: what stands before a release is public
--     Public        verify_public_release, workflow_check, fetch_public_assets
--     Commands      real_main
--   Server          crates/postgres-mcp, the server over the core
--     Outcome       src/lib.rs: serve_with_cleanup, serve_profiles, and what they answer
--     Arguments     src/main.rs: parse_args, load_config, run
--     Tools         src/tools.rs: the arguments and results of the tools, and what each calls
--     Commits       the tool commit, from its call down to libpq
--     Parameters    the readers of parameters of tools.rs and protocol.rs
--   Examples        concrete runs
--
-- State is passed explicitly: the registry, the backend and the instant at which the worker stands
-- are arguments and results. A lock that a thread takes while it holds it is the outcome `blocked` of
-- an admission. A shared token is the instant from which it is cancelled. Maps (BTreeMap) are lists of
-- entries in key order. A text's length is the number of its bytes, as `len` gives it. A sum
-- of usize values carries its overflow test at 2 ^ 64. The loop over a queue recurs on the queue,
-- without fuel. The loops of a connection run on fuel and give none when it is used up;
-- Libpq/Session/Progress gives fuel that is enough: the results that the commands sent will still give,
-- and the nanoseconds until the deadline and of grace. The waits of a shutdown run on fuel too; more
-- rounds than its total time has units of the clock are enough, since the clock advances in each.
-- The adapter of Worker/Native/Over runs on the fuel of Libpq/Session/Progress.
--
-- A shutdown interleaves with the other tasks at every place where it does not hold the lock:
-- Worker/Shutdown takes what they do as a function on the registry and the rest of the process, and
-- Worker/Shutdown/Others shows which writes of the program are such. A command of the release tool is
-- a function of the state of the outside and of the calls made so far; the error texts leave out the
-- values that they quote, and the outputs of programs are texts.
--
-- Parameters: the byte writer of serde_json (`to_vec`), which may fail, PQconninfoParse, and the
-- functions of libpq and poll(2) (`Foreign`), which take the state of the outside and leave another,
-- the tasks and threads beside a shutdown (`Surroundings`), the programs, files and readers of TOML
-- and JSON that the release tool uses (`World`), the environment, files, processes and clock that the
-- resolution of a DSN uses (`System`), the steps of `run` (`Surrounding`), the core as the tools
-- call it (`CoreCalls`), what happens beside a dispatch (`Beside`), and what the blocking task of an
-- open finds (`Connecting`).
-- Named hypotheses state what the code relies on: that libpq gives the transaction status of a bad
-- connection as unknown (Worker.Native.Contract.IsDocumented, Worker.Native.Over.IsDocumentedBelow), and that a
-- poll takes time, that commands give finitely many results, and that no call turns the clock back
-- (Libpq.Session.Progress.Live), and that beside a shutdown no registered handle gets a thread
-- and each yield takes time (Worker.Shutdown.Contract.Lawful), and what the calls of the operating system
-- that succeed do with the files and children of a resolution (Config.Resolve.Ended.Lawful).
--
-- Instants and durations are nanoseconds, but for a shutdown, whose clock gives its own number of units
-- to a second. A worker that an open started and did not publish stands
-- beside the registry: `detached_worker` of Worker/Open/Detached.
--
-- Not modelled: the parsing of TOML, the notice processor, the router and the transport of the MCP
-- library, and the bridge of SIGINT. Replies travel through channels in the code; here they are results.

pub mod Prelude
pub mod Protocol
pub mod Config
pub mod Libpq
pub mod Schema
pub mod Worker
pub mod Release
pub mod Server
pub mod Examples
