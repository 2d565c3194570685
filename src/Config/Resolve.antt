-- ===== src/Config/Resolve.antt =====
-- config.rs: `ConfigFile::resolve_with_context`, which runs the command of a profile for its DSN.
pub mod Ended
use pg_mcp.Prelude.{
  ℕ, zero, suc, String, Bool, true, false, not, ◌||◌, leb, ltb, Option, none, some, str_eq,
  if◌then◌else◌, lookup, Result, ok, err,
}
use pg_mcp.Config.{
  Config, ConfigError, dsn_command, dsn_timeout, invalid_dsn_output, empty_dsn, unknown_profile,
}
use pg_mcp.Config.Profiles.{ConfigFile, profile_config}
use pg_mcp.Release.Text.{trim}

-- What a file holds: the number of its bytes, and its text if they are UTF-8.
pub record Contents : Type 0 where
  pub length : ℕ
  pub text : Option String

-- The answers of `try_wait`: the child exited, with success or not, it runs on, or an error.
pub data Waited : Type 0 where
  exited : (success : Bool) → Waited
  running refused : Waited

-- The operating system, one temporary file and at most one child, and the tokens. `open_file`
-- opens the file and reads at most so many bytes of it; `kill` runs /bin/kill with a signal on the
-- process group of the child. Each call says whether it succeeded.
pub record System : Type 1 where
  pub State : Type 0
  pub now : State → ℕ
  pub cancelled : State → Bool
  pub stopping : State → Bool
  pub create_file : State → Bool × State
  pub remove_file : State → Bool × State
  pub spawn : String → State → Bool × State
  pub try_wait : State → Waited × State
  pub kill : (signal : String) → State → Bool × State
  pub wait : State → Bool × State
  pub sleep : (millis : ℕ) → State → State
  pub open_file : ℕ → State → Option Contents

-- What the loop makes of the output of a child that succeeded.
unfoldable pub read_dsn : Option Contents → Result String ConfigError
unfolding trim
read_dsn none = err dsn_command
read_dsn (some c) = if ltb 65536 c.length then err dsn_command else elim c.text [
  | none ↦ err invalid_dsn_output
  | some text ↦ if str_eq (trim text) "" then err empty_dsn else ok (trim text)
]

module _ (os : System) (deadline : ℕ) where
  -- `terminate_process_group`, which ignores what /bin/kill answers.
  abbrev pub terminate_process_group : os.State → os.State
  terminate_process_group s = (os.kill "-KILL" (os.sleep 50 (os.kill "-TERM" s).1)).1

  abbrev pub terminate_and_wait : os.State → os.State
  terminate_and_wait s = (os.wait (terminate_process_group s)).1

  abbrev interrupted : os.State → Bool
  interrupted s = os.cancelled s || os.stopping s || leb deadline (os.now s)

  -- The loop, for at most so many rounds.
  unfoldable pub wait_child : ℕ → os.State → Option (Result String ConfigError × os.State)
  unfolding read_dsn
  wait_child zero s = none
  wait_child (suc n) s = elim (interrupted s) [
    | true ↦ some (err dsn_timeout, terminate_and_wait s)
    | false ↦
        let (waited, s') = os.try_wait s in
        elim waited [
          | exited true ↦ some (read_dsn (os.open_file 65537 s'), s')
          | exited false ↦ some (err dsn_command, s')
          | running ↦ wait_child n (os.sleep 5 s')
          | refused ↦ some (err dsn_command, terminate_and_wait s')
        ]
  ]

  -- The command, from its start to its end.
  unfoldable pub run_command : ℕ → String → os.State → Option (Result String ConfigError × os.State)
  unfolding wait_child
  run_command fuel command s =
      let (started, s') = os.spawn command s in
      elim started [ false ↦ some (err dsn_command, s') | true ↦ wait_child fuel s' ]

  -- The drop of the guard of the file, whatever the command came to.
  abbrev and_remove {ℓ} : {A : Type ℓ} → Option (A × os.State) → Option (A × os.State)
  and_remove none = none
  and_remove (some (a, s)) = some (a, (os.remove_file s).1)

  abbrev with_config :
      Config
      → Option (Result String ConfigError × os.State)
      → Option (Result (Config × String) ConfigError × os.State)
  with_config c none = none
  with_config c (some (err e, s)) = some (err e, s)
  with_config c (some (ok dsn, s)) = some (ok (c, dsn), s)

  -- `resolve_with_context`.
  unfoldable pub resolve_with_context :
      ℕ → ConfigFile → String → os.State → Option (Result (Config × String) ConfigError × os.State)
  unfolding run_command profile_config lookup
  resolve_with_context fuel f name s = elim (lookup name f.profiles) [
    | none ↦ some (err unknown_profile, s)
    | some p ↦ elim (profile_config f name) [
      | err e ↦ some (err e, s)
      | ok c ↦
          let (created, s') = os.create_file s in
          elim created [
            | false ↦ some (err dsn_command, s')
            | true ↦ with_config c (and_remove (run_command fuel p.dsn s'))
          ]
    ]
  ]
