-- ===== src/Release/Commands.antt =====
-- xtask: the commands.
use Prim.Native.String.{slice, ◌++◌}
use pg_mcp.Prelude.{String, len, Bool, true, not, List, [], ◌∷◌, any, str_eq, if◌then◌else◌}
use pg_mcp.Protocol.Json.{get_field, as_str}
use pg_mcp.Release.Notes.{product, targets, expected_tag, extract_notes}
use pg_mcp.Release.World.{
  World, ReleaseJson, Task, run, ◌>>=◌, ◌>>◌, done, fail, lift, some_or, fail_when, look, change,
  succeeded, read_text, write_text, make_dirs,
}
use pg_mcp.Release.Checks.{
  in_field, manifest, validate_repository, verify_binary, verify_archive, verify_downloads,
}
use pg_mcp.Release.Publish.{publish}
use pg_mcp.Release.Public.{fetch_public_assets, verify_public_release, workflow_check}

-- `&t[1..]`, of a tag whose first character is the letter v.
abbrev after_v : String → String
after_v tag = slice tag 1 (len tag)

-- What `package` needs of the file system beside the others: a fresh stage, and a copy.
pub record Packaging (w : World) : Type 0 where
  pub stage : String → w.State → String × w.State
  pub create_dir : String → w.State → Bool × w.State
  pub copy : String → String → w.State → Bool × w.State

module _ (w : World) (p : Packaging w)
    (evidence_text : String → String → ReleaseJson → String) where
  -- `expected-tag`.
  unfoldable pub print_expected_tag : String → Task w String
  unfolding manifest get_field as_str expected_tag
  print_expected_tag root = do
    document ← manifest w (root ++ "/Cargo.toml")
    v ←
        some_or (as_str (in_field "version" (in_field "package" (get_field "workspace" document))))
          "missing version"
    done (expected_tag v)

  -- `release-check`.
  unfoldable pub release_check : String → String → Task w String
  unfolding validate_repository extract_notes
  release_check root t = do
    _ ← validate_repository w root t
    text ← read_text (root ++ "/CHANGELOG.md")
    _ ← lift (extract_notes text (after_v t))
    done ("release metadata valid: " ++ t)

  -- `release-notes`.
  unfoldable pub release_notes : String → String → String → Task w String
  unfolding validate_repository extract_notes
  release_notes root t out = do
    v ← validate_repository w root t
    text ← read_text (root ++ "/CHANGELOG.md")
    notes ← lift (extract_notes text v)
    write_text out notes
    done ""

  -- `release-build`.
  unfoldable pub release_build : String → String → String → String → Task w String
  unfolding validate_repository verify_binary run
  release_build root tag target binary = do
    _ ← validate_repository w root tag
    build ← run w "cargo" (
        "build" ∷ "--locked" ∷ "--release" ∷ "-p" ∷ product ∷ "--bin" ∷ product ∷ "--target"
        ∷ target ∷ [])
    succeeded build "release build"
    verify_binary w binary (after_v tag)
    done ("release build verified: " ++ binary)

  -- `native-smoke`.
  unfoldable pub native_smoke : String → String → String → Task w String
  unfolding validate_repository verify_binary
  native_smoke root t binary = do
    v ← validate_repository w root t
    verify_binary w binary v
    done ""

  -- `package`.
  unfoldable pub package_archive : String → String → String → String → String → Task w String
  unfolding validate_repository verify_binary run
  package_archive root t target binary out = do
    v ← validate_repository w root t
    verify_binary w binary v
    make_dirs out
    present ← look (w.exists (out ++ "/" ++ product ++ "-" ++ target ++ ".tar.gz"))
    fail_when present "refusing to overwrite archive"
    stage ← change (p.stage out)
    made ← change (p.create_dir stage)
    fail_when (not made) "create"
    copied ← change (p.copy binary (stage ++ "/" ++ product))
    fail_when (not copied) "copy"
    o ← run w "tar" (
        "-czf"
        ∷ (out ++ "/" ++ product ++ "-" ++ target ++ ".tar.gz")
        ∷ "-C"
        ∷ stage
        ∷ product
        ∷ [])
    succeeded o "tar"
    _ ← change (λ s. (true, w.remove_dirs stage s))
    done (out ++ "/" ++ product ++ "-" ++ target ++ ".tar.gz")

  abbrev is_target : String → Bool
  is_target target = any (λ candidate. str_eq candidate target) targets

  -- The same task with nothing to print.
  abbrev silent : Task w (Unit {0}) → Task w String
  silent m = m >>= λ _. done ""

  -- The arguments of a command; further ones are not read.
  abbrev one_argument : List String → (String → Task w String) → Task w String
  one_argument (a ∷ _) f = f a
  one_argument _ f = fail "argument required"

  abbrev two_arguments : List String → (String → String → Task w String) → Task w String
  two_arguments (a ∷ b ∷ _) f = f a b
  two_arguments _ f = fail "argument required"

  abbrev three_arguments : List String → (String → String → String → Task w String) → Task w String
  three_arguments (a ∷ b ∷ c ∷ _) f = f a b c
  three_arguments _ f = fail "argument required"

  -- The target is checked before the further arguments are read.
  abbrev build_arguments : String → List String → Task w String
  build_arguments root (tag ∷ target ∷ rest) = do
    fail_when (not (is_target target)) "unsupported target"
    one_argument rest (λ binary. release_build root tag target binary)
  build_arguments root _ = fail "argument required"

  abbrev package_arguments : String → List String → Task w String
  package_arguments root (tag ∷ target ∷ rest) = do
    fail_when (not (is_target target)) "unsupported target"
    two_arguments rest (λ binary out. package_archive root tag target binary out)
  package_arguments root _ = fail "argument required"

  -- `real_main`: what is printed for a command, its arguments and the current directory.
  unfoldable pub real_main : String → List String → Task w String
  unfolding print_expected_tag release_check release_notes release_build native_smoke
      package_archive publish fetch_public_assets verify_public_release workflow_check
      verify_archive verify_downloads
  real_main root [] = fail "usage: xtask <command>"
  real_main root (action ∷ args) =
      if str_eq action "expected-tag"
      then print_expected_tag root
      else if str_eq action "release-check"
      then one_argument args (release_check root)
      else if str_eq action "release-notes"
      then two_arguments args (release_notes root)
      else if str_eq action "workflow-check"
      then silent (workflow_check w root)
      else if str_eq action "release-build"
      then build_arguments root args
      else if str_eq action "fetch-public-assets"
      then two_arguments args (λ tag dir. silent (fetch_public_assets w tag dir))
      else if str_eq action "verify-archive"
      then one_argument args (λ dir. silent (verify_archive w dir))
      else if str_eq action "verify-downloads"
      then three_arguments args (λ tag dir binary. silent (verify_downloads w root tag dir binary))
      else if str_eq action "publish"
      then three_arguments args (λ tag sha dir. silent (publish w root tag sha dir))
      else if str_eq action "verify-public-release"
      then three_arguments args
          (λ tag sha evidence. silent (verify_public_release w evidence_text tag sha evidence))
      else if str_eq action "native-smoke"
      then two_arguments args (native_smoke root)
      else if str_eq action "package"
      then package_arguments root args
      else fail "unknown command"
