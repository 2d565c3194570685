-- ===== src/Release/Checks.antt =====
-- xtask: the checks of the repository, of the assets and of a binary.
use Prim.Native.String.{◌++◌}
use pg_mcp.Prelude.{
  String, Bool, false, ◌||◌, not, ◌==◌, Option, none, some, List, [], ◌∷◌, sort_by, text_le, str_eq,
  if◌then◌else◌, unwrap_or,
}
use pg_mcp.Protocol.Json.{
  Value, bool, string, array, object, Fields, Items, item, no_items, get, get_field, as_str,
}
use pg_mcp.Release.Text.{lines, split_whitespace, ends_with, count_matches}
use pg_mcp.Release.Notes.{product, same_strings, archive_names, all_assets, validate_tag}
use pg_mcp.Release.World.{
  World, Task, run, ◌>>=◌, ◌>>◌, done, fail, lift, some_or, fail_when, look, succeeded, read_text,
}
use pg_mcp.Release.Checksums.{verify_checksums}

-- `as_table`, `as_array` and `as_bool` behind `and_then`.
abbrev pub as_table : Option Value → Option Fields
as_table (some (object fs)) = some fs
as_table _ = none

abbrev as_array : Option Value → Option Items
as_array (some (array vs)) = some vs
as_array _ = none

abbrev as_bool : Option Value → Option Bool
as_bool (some (bool x)) = some x
as_bool _ = none

-- `and_then(|x| x.get(key))`.
abbrev pub in_field : String → Option Value → Option Value
in_field key none = none
in_field key (some v) = get_field key v

abbrev has_item : String → Items → Bool
has_item s no_items = false
has_item s (item (string t) vs) = str_eq s t || has_item s vs
has_item s (item _ vs) = has_item s vs

module _ (w : World) where
  -- The table of a manifest.
  unfoldable pub manifest : String → Task w Value
  manifest path = read_text path >>= λ text. some_or (w.parse_toml text) "toml"

  -- `package_version`: the version if it is a text, and whether it is inherited.
  unfoldable pub package_version : String → Task w (String × Bool)
  unfolding manifest get get_field as_str
  package_version path = do
    document ← manifest path
    p ← some_or (as_table (get_field "package" document)) "missing package"
    v ← some_or (get "version" p) "missing version"
    done (unwrap_or (as_str (some v)) "", unwrap_or (as_bool (get_field "workspace" v)) false)

  -- The first loop of `validate_repository`.
  unfoldable pub check_members : String → Items → List String → Task w (Unit {0})
  unfolding package_version
  check_members root members [] = done tt
  check_members root members (member ∷ rest) = do
    fail_when (not (has_item member members)) "workspace missing a member"
    (literal, inherited) ← package_version (root ++ "/" ++ member ++ "/Cargo.toml")
    fail_when (not inherited || not (str_eq literal ""))
        "a member must use version.workspace = true"
    check_members root members rest

  -- The second loop of `validate_repository`.
  unfoldable pub check_lock : String → String → List String → Task w (Unit {0})
  unfolding count_matches
  check_lock lock version [] = done tt
  check_lock lock version (name ∷ rest) = do
    fail_when
        (not (
          count_matches ("name = \"" ++ name ++ "\"\nversion = \"" ++ version ++ "\"") 0 lock == 1))
        "Cargo.lock entry does not match"
    check_lock lock version rest

  -- `validate_repository`.
  unfoldable pub validate_repository : String → String → Task w String
  unfolding manifest get_field get as_str validate_tag check_members check_lock run
  validate_repository root tag = do
    doc ← manifest (root ++ "/Cargo.toml")
    ws ← some_or (as_table (get_field "workspace" doc)) "missing workspace"
    version ← some_or (as_str (in_field "version" (get "package" ws))) "missing workspace version"
    lift (validate_tag tag version)
    members ← some_or (as_array (get "members" ws)) "missing members"
    check_members root members ("crates/postgres-mcp" ∷ "crates/postgres-mcp-core" ∷ [])
    lock ← read_text (root ++ "/Cargo.lock")
    check_lock lock version ("postgres-mcp" ∷ "postgres-mcp-core" ∷ [])
    metadata ← run w "cargo" ("metadata" ∷ "--locked" ∷ "--no-deps" ∷ "--format-version" ∷ "1" ∷ [])
    succeeded metadata "cargo metadata"
    done version

  abbrev pub first_word : List String → Task w String
  first_word [] = fail "missing checksum"
  first_word (digest ∷ _) = done digest

  -- `checksum`.
  unfoldable pub checksum : String → Task w String
  unfolding run split_whitespace
  checksum path = do
    o ← run w "sha256sum" (path ∷ [])
    succeeded o "sha256sum"
    first_word (split_whitespace o.stdout)

  -- `lines().find(...)` for a name, and the first word of that line, or the empty text.
  unfoldable pub listed_digest : String → List String → String
  unfolding ends_with split_whitespace
  listed_digest name [] = ""
  listed_digest name (line ∷ rest) =
      let later = listed_digest name rest in
      if ends_with line name
      then elim (split_whitespace line) [ [] ↦ "" | digest ∷ _ ↦ digest ]
      else later

  -- The loop of `verify_asset_dir`: the paths of the archives.
  unfoldable pub check_digests : String → List String → List String → Task w (List String)
  unfolding checksum listed_digest
  check_digests dir sums [] = done []
  check_digests dir sums (name ∷ names) = do
    digest ← checksum (dir ++ "/" ++ name)
    fail_when (not (str_eq digest (listed_digest name sums))) "checksum mismatch"
    paths ← check_digests dir sums names
    done ((dir ++ "/" ++ name) ∷ paths)

  -- `verify_asset_dir`.
  unfoldable pub verify_asset_dir : String → Task w (List String)
  unfolding archive_names all_assets sort_by verify_checksums check_digests lines
  verify_asset_dir dir = do
    listed ← look (w.list_dir dir)
    got ← some_or listed "list"
    fail_when (not (same_strings (sort_by text_le got) (sort_by text_le all_assets)))
        "asset directory must contain exactly four archives and SHA256SUMS"
    sums ← read_text (dir ++ "/SHA256SUMS")
    lift (verify_checksums sums archive_names)
    check_digests dir (lines sums) archive_names

  -- `verify_binary`.
  unfoldable pub verify_binary : String → String → Task w (Unit {0})
  unfolding run
  verify_binary binary version = do
    file ← look (w.is_file binary)
    fail_when (not file) "binary missing"
    o ← run w binary ("--version" ∷ [])
    fail_when
        (not o.success
          || not (str_eq o.stderr "")
          || not (str_eq o.stdout (product ++ " " ++ version ++ "\n")))
        "--version contract failed"

  -- `verify_archive_members`.
  unfoldable pub check_listings : String → List String → Task w (Unit {0})
  unfolding run lines
  check_listings dir [] = done tt
  check_listings dir (name ∷ names) = do
    o ← run w "tar" ("-tzf" ∷ (dir ++ "/" ++ name) ∷ [])
    succeeded o "archive listing"
    fail_when (not (same_strings (lines o.stdout) (product ∷ [])))
        "archive must contain only the product"
    check_listings dir names

  unfoldable pub verify_archive_members : String → Task w (Unit {0})
  unfolding check_listings archive_names
  verify_archive_members dir = check_listings dir archive_names

  -- `verify_archive`.
  unfoldable pub verify_archive : String → Task w (Unit {0})
  unfolding verify_asset_dir verify_archive_members
  verify_archive dir = do _ ← verify_asset_dir dir; verify_archive_members dir

  -- `verify_downloads`.
  unfoldable pub verify_downloads : String → String → String → String → Task w (Unit {0})
  unfolding validate_repository verify_asset_dir verify_archive_members verify_binary
  verify_downloads root tag dir binary = do
    version ← validate_repository root tag
    _ ← verify_asset_dir dir
    verify_archive_members dir
    verify_binary binary version
