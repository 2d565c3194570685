-- ===== src/Config/Resolve/Ended.antt =====
-- How the resolution of a DSN ends: in time, and with no child and no file left unless the wait for
-- the child or the removal of the file fails.
use pg_mcp.Prelude.{
  ℕ, ◌≤◌, ◌<◌, String, Bool, true, false, Option, none, some, Result, err, ◌≡◌, ◌∙◌, ◌⊎◌, refl, ap,
  inl, inr, Bool-cases,
}
use pg_mcp.Config.{Config, ConfigError, dsn_command}
use pg_mcp.Config.Resolve.{
  System, Waited, exited, running, refused, wait_child, read_dsn, terminate_process_group,
  terminate_and_wait,
}

-- What is documented of the operating system: whether the child runs and whether the file is
-- there, and how the calls that succeed change that; a sleep takes time, and no call turns the clock
-- back.
pub record Lawful (os : System) : Type 0 where
  pub has_child : os.State → Bool
  pub has_file : os.State → Bool
  pub failed_file :
      (s : os.State)
      → has_file s ≡ false
      → (os.create_file s).0 ≡ false
      → has_file (os.create_file s).1 ≡ false
  pub file_child : (s : os.State) → has_child (os.create_file s).1 ≡ has_child s
  pub removed : (s : os.State) → (os.remove_file s).0 ≡ true → has_file (os.remove_file s).1 ≡ false
  pub removed_child : (s : os.State) → has_child (os.remove_file s).1 ≡ has_child s
  pub not_started :
      (command : String) (s : os.State)
      → has_child s ≡ false
      → (os.spawn command s).0 ≡ false
      → has_child (os.spawn command s).1 ≡ false
  pub ended :
      (s : os.State) (success : Bool)
      → (os.try_wait s).0 ≡ exited success
      → has_child (os.try_wait s).1 ≡ false
  pub waited : (s : os.State) → (os.wait s).0 ≡ true → has_child (os.wait s).1 ≡ false
  pub waited_clock : (s : os.State) → os.now s ≤ os.now (os.try_wait s).1
  pub sleep_clock : (n : ℕ) (s : os.State) → 0 < n → os.now s < os.now (os.sleep n s)
  pub spawn_clock : (command : String) (s : os.State) → os.now s ≤ os.now (os.spawn command s).1
  pub create_clock : (s : os.State) → os.now s ≤ os.now (os.create_file s).1

module _ (os : System) (law : Lawful os) (deadline : ℕ) where
  -- No child is left, or the wait for it, which came last, failed.
  abbrev IsReaped : os.State → Type 0
  IsReaped s =
      (law.has_child s ≡ false)
      ⊎ ((s' : os.State) × (s ≡ (os.wait s').1) × ((os.wait s').0 ≡ false))

  abbrev NoChild {ℓ} : {A : Type ℓ} → Option (A × os.State) → Type 0
  NoChild none = ⊥
  NoChild (some (a, s)) = IsReaped s

  terminated : (s : os.State) → IsReaped (terminate_and_wait os deadline s)
  terminated s =
      let s' = terminate_process_group os deadline s in
      elim (Bool-cases (os.wait s').0) [ inl e ↦ inl (law.waited s' e) | inr e ↦ inr (s', refl, e) ]

  -- The answers of `try_wait`, by the round after a sleep.
  answered :
      (n : ℕ) (s : os.State)
      → NoChild (wait_child os deadline n (os.sleep 5 (os.try_wait s).1))
      → (w : Waited) → (os.try_wait s).0 ≡ w
      → NoChild {A = Result String ConfigError} (elim w [
        | exited true ↦ some (read_dsn (os.open_file 65537 (os.try_wait s).1), (os.try_wait s).1)
        | exited false ↦ some (err dsn_command, (os.try_wait s).1)
        | running ↦ wait_child os deadline n (os.sleep 5 (os.try_wait s).1)
        | refused ↦ some (err dsn_command, terminate_and_wait os deadline (os.try_wait s).1)
      ])
  answered n s later (exited true) e = inl (law.ended s true e)
  answered n s later (exited false) e = inl (law.ended s false e)
  answered n s later running e = later
  answered n s later refused e = terminated (os.try_wait s).1

  -- No child is left, or the wait for it failed, and the removal of the file came after it.
  abbrev pub NoChildLeft : os.State → Type 0
  NoChildLeft s =
      (law.has_child s ≡ false)
      ⊎ ((s' : os.State) × (s ≡ (os.remove_file (os.wait s').1).1) × ((os.wait s').0 ≡ false))

  -- No file is left, or its removal, which came last, failed.
  abbrev pub NoFileLeft : os.State → Type 0
  NoFileLeft s =
      (law.has_file s ≡ false)
      ⊎ ((s' : os.State) × (s ≡ (os.remove_file s').1) × ((os.remove_file s').0 ≡ false))

  -- The resolution has ended, and neither a child nor the file is left but by a failed call.
  abbrev pub IsClean {ℓ} : {A : Type ℓ} → Option (A × os.State) → Type 0
  IsClean none = ⊥
  IsClean (some (a, s)) = NoChildLeft s × NoFileLeft s

  removed_child : (s : os.State) → IsReaped s → NoChildLeft (os.remove_file s).1
  removed_child s (inl gone) = inl (law.removed_child s ∙ gone)
  removed_child s (inr (s', e, failed)) = inr (s', ap (λ x. (os.remove_file x).1) e, failed)
