-- ===== src/Release/Publish/Tasks.antt =====
-- The calls that the tasks of `publish` make.
use pg_mcp.Prelude.{String, Bool, false, ◌&&◌, Option, List, [], ◌∷◌, str_eq, ◌≡◌}
use pg_mcp.Protocol.Json.{Items}
use pg_mcp.Release.World.{World, Output, Call}
use pg_mcp.Release.Checks.{
  manifest, package_version, check_members, check_lock, validate_repository,
}
use pg_mcp.Release.Publish.Calls.{
  same_calls, Only, Only-run, Only-bind, Only-lift, Only-some_or, Only-fail_when, Only-look,
}

-- `gh release edit`.
abbrev pub edits : List String → Bool
edits (a ∷ b ∷ rest) = str_eq a "release" && str_eq b "edit"
edits _ = false

abbrev pub goes_public : Call → Bool
goes_public c = str_eq c.program "gh" && edits c.args

abbrev pub IsQuiet : Call → Type 0
IsQuiet c = goes_public c ≡ false

module _ (w : World) (Q : Call → Type 0) where
  Only-manifest : (path : String) → Only Q (manifest w path)
  unfolding manifest
  Only-manifest path = search (Only-bind, Only-look, Only-some_or)

  Only-package_version : (path : String) → Only Q (package_version w path)
  unfolding package_version
  Only-package_version path = search (Only-bind, Only-manifest, Only-some_or, Only-lift)

  Only-check_members :
      (root : String) (members : Items) (names : List String)
      → Only Q (check_members w root members names)
  unfolding check_members
  Only-check_members root members [] = λ d. same_calls d.calls
  Only-check_members root members (name ∷ names) =
      search
        (Only-bind, Only-package_version, Only-fail_when, Only-check_members root members names)

  Only-check_lock :
      (lock version : String) (names : List String) → Only Q (check_lock w lock version names)
  unfolding check_lock
  Only-check_lock lock version [] = λ d. same_calls d.calls
  Only-check_lock lock version (name ∷ names) =
      search (Only-bind, Only-fail_when, Only-check_lock lock version names)

  pub Only-validate_repository :
      (root tag : String)
      → ((o : Option Output)
          → Q (record {
            program = "cargo";
            args = "metadata" ∷ "--locked" ∷ "--no-deps" ∷ "--format-version" ∷ "1" ∷ [];
            output = o;
          }))
      → Only Q (validate_repository w root tag)
  unfolding validate_repository
  Only-validate_repository root tag q =
      search
        (
          Only-bind, Only-manifest, Only-look, Only-some_or, Only-fail_when, Only-lift,
          Only-check_members, Only-check_lock, Only-run, q,
        )
        depth 30
