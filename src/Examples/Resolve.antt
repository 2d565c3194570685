-- ===== src/Examples/Resolve.antt =====
-- The resolution of a DSN by a command that prints one.
use mathlib.Core.Bool.{true≢false}
use pg_mcp.Prelude.{
  ℕ, ◌+◌, Bool, true, false, ltb, if◌then◌else◌, some, [], ◌∷◌, lookup, ok, ◌≡◌, refl, arith,
}
use pg_mcp.Release.Text.{trim, trim_start, trim_end}
use pg_mcp.Config.{
  default_unchecked, into_config, merge, no_overrides, apply, validate, validate_range,
}
use pg_mcp.Config.Profiles.{ConfigFile, profile_config, profile_config_for_profile}
use pg_mcp.Config.Resolve.{
  System, exited, running, resolve_with_context, run_command, wait_child, read_dsn,
}
use pg_mcp.Config.Resolve.Ended.{Lawful}

-- Whether a child runs, whether the file is there, and the clock.
abbrev Machine : Type 0
Machine = Bool × Bool × ℕ

-- The command ends within 8 units of time.
abbrev machine : System
machine = record {
  State = Machine;
  now = λ s. s.2;
  cancelled = λ s. false;
  stopping = λ s. false;
  create_file = λ s. (true, (s.0, true, s.2));
  remove_file = λ s. (true, (s.0, false, s.2));
  spawn = λ command s. (true, (true, s.1, s.2));
  try_wait = λ s. (if ltb s.2 8 then running else exited true, (ltb s.2 8, s.1, s.2));
  kill = λ signal s. (true, (false, s.1, s.2));
  wait = λ s. (true, (false, s.1, s.2));
  sleep = λ n s. (s.0, s.1, n + s.2);
  open_file = λ limit s. some (record { length = 11; text = some "dbname=app\n" });
}

abbrev machine_lawful : Lawful machine
machine_lawful = record {
  has_child = λ s. s.0;
  has_file = λ s. s.1;
  failed_file = λ s h e. absurd (true≢false e);
  file_child = λ s. refl;
  removed = λ s e. refl;
  removed_child = λ s. refl;
  not_started = λ command s h e. absurd (true≢false e);
  ended = λ s success e. ground (arith, e);
  waited = λ s e. refl;
  waited_clock = λ s. omega arith;
  sleep_clock = λ n s h. omega arith;
  spawn_clock = λ command s. omega arith;
  create_clock = λ s. omega arith;
}

abbrev file : ConfigFile
file = record {
  defaults = no_overrides;
  profiles = ("local", record { dsn = "print-dsn"; overrides = no_overrides }) ∷ [];
  legacy = no_overrides;
}

resolved :
    resolve_with_context machine 12 20 file "local" (false, false, 0)
    ≡ some (ok (default_unchecked, "dbname=app"), (false, false, 10))
unfolding resolve_with_context run_command wait_child read_dsn trim trim_start trim_end
    profile_config profile_config_for_profile into_config merge apply validate validate_range lookup
resolved = refl
