-- ===== src/Release/Public.antt =====
-- xtask: the checks of a release that is public, and of the workflow that made it.
use Prim.Native.String.{slice, ◌++◌}
use text.Mathlib.Text.{starts_with, find?}
use pg_mcp.Prelude.{
  String, len, Bool, false, ◌&&◌, ◌||◌, not, ltb, ◌==◌, Option, none, some, is_some, List, [], ◌∷◌,
  map, all, str_eq,
}
use pg_mcp.Protocol.Json.{Value, get_field, as_str}
use pg_mcp.Release.Text.{contains}
use pg_mcp.Release.Notes.{repo, same_strings, all_assets}
use pg_mcp.Release.World.{
  World, ReleaseJson, ReleaseAsset, Task, run, ◌>>=◌, ◌>>◌, done, some_or, fail_when, succeeded,
  read_text, write_text, make_dirs,
}
use pg_mcp.Release.Checks.{in_field, verify_asset_dir}

-- The arguments of curl, before those of one download.
abbrev curl_args : List String → List String
curl_args rest =
    "--disable" ∷ "--proto" ∷ "=https" ∷ "--proto-redir" ∷ "=https" ∷ "--fail" ∷ "--location"
    ∷ "--silent" ∷ "--show-error" ∷ rest

abbrev pub download_url : String → String → String
download_url tag name = "https://github.com/" ++ repo ++ "/releases/download/" ++ tag ++ "/" ++ name

-- `a.browser_download_url.as_deref() != Some(url)`.
abbrev is_text : String → Option String → Bool
is_text s none = false
is_text s (some t) = str_eq t s

-- The texts that the workflow has to contain.
abbrev markers : List String
markers =
    "validate:" ∷ "native:" ∷ "publish:" ∷ "verify-published:" ∷ "verify-release-metadata:"
    ∷ "x86_64-unknown-linux-gnu" ∷ "aarch64-unknown-linux-gnu" ∷ "aarch64-apple-darwin"
    ∷ "x86_64-apple-darwin" ∷ "libpq@17" ∷ "pkg-config" ∷ "readelf -d" ∷ "otool -L" ∷ "SHA256SUMS"
    ∷ []

-- The two conditions on the metadata of a public release that `verify_public_release` joins.
unfoldable pub public_metadata : String → String → ReleaseJson → Bool
unfolding all_assets
public_metadata tag expected_sha release =
    str_eq release.tag_name tag
    && not release.draft
    && not release.prerelease
    && is_some release.published_at
    && str_eq release.target_commitish expected_sha
    && same_strings (map (λ a. a.name) release.assets) all_assets

unfoldable pub public_asset : String → ReleaseAsset → Bool
public_asset tag a = not (a.size == 0) && is_text (download_url tag a.name) a.browser_download_url

module _ (w : World) where
  -- The loop of `fetch_public_assets`.
  unfoldable pub fetch_assets : String → String → List String → Task w (Unit {0})
  unfolding run
  fetch_assets tag dir [] = done tt
  fetch_assets tag dir (name ∷ names) = do
    out ← run w "curl" (curl_args ("--output" ∷ (dir ++ "/" ++ name) ∷ download_url tag name ∷ []))
    succeeded out "anonymous asset download"
    fetch_assets tag dir names

  -- `fetch_public_assets`.
  unfoldable pub fetch_public_assets : String → String → Task w (Unit {0})
  unfolding fetch_assets verify_asset_dir all_assets
  fetch_public_assets tag dir = do
    fail_when (not (starts_with tag "v")) "invalid release tag"
    make_dirs dir
    fetch_assets tag dir all_assets
    _ ← verify_asset_dir w dir
    done tt

  -- The three downloads of JSON of `verify_public_release`.
  unfoldable pub fetch_json : String → String → Task w Value
  unfolding run
  fetch_json url what = do
    out ← run w "curl" (curl_args (url ∷ []))
    succeeded out what
    some_or (w.parse_json out.stdout) "invalid JSON"

  -- `get("object").and_then(|o| o.get(key)).and_then(as_str)`.
  abbrev object_text : String → Value → Option String
  object_text key v = as_str (in_field key (get_field "object" v))

  -- `verify_public_release`, with the writer of the evidence.
  unfoldable pub verify_public_release :
      (String → String → ReleaseJson → String) → String → String → String → Task w (Unit {0})
  unfolding run fetch_json get_field as_str public_metadata public_asset
  verify_public_release evidence_text tag expected_sha evidence = do
    out ←
        run w "curl"
          (curl_args (("https://api.github.com/repos/" ++ repo ++ "/releases/tags/" ++ tag) ∷ []))
    succeeded out "public release metadata"
    release ← some_or (w.read_release out.stdout) "invalid public release JSON"
    fail_when (not (public_metadata tag expected_sha release)) "public release metadata mismatch"
    fail_when (not (all (public_asset tag) release.assets)) "public release asset metadata mismatch"
    reference ←
        fetch_json ("https://api.github.com/repos/" ++ repo ++ "/git/ref/tags/" ++ tag)
          "public tag lookup"
    fail_when (not (is_text "tag" (object_text "type" reference))) "public tag is not annotated"
    tag_sha ← some_or (object_text "sha" reference) "public tag object SHA missing"
    annotated ←
        fetch_json ("https://api.github.com/repos/" ++ repo ++ "/git/tags/" ++ tag_sha)
          "public annotated tag lookup"
    fail_when
        (not (is_text "commit" (object_text "type" annotated))
          || not (is_text expected_sha (object_text "sha" annotated)))
        "public annotated tag target mismatch"
    write_text evidence (evidence_text tag expected_sha release)

  -- `workflow_check`.
  unfoldable pub workflow_check : String → Task w (Unit {0})
  unfolding contains
  workflow_check root = do
    text ← read_text (root ++ "/.github/workflows/release.yml")
    fail_when (not (all (contains text) markers)) "workflow missing a marker"
    publish_pos ← some_or (find? text "  publish:") "workflow missing publish job"
    native_pos ← some_or (find? text "  native:") "workflow missing native job"
    verify_pos ←
        some_or (find? text "  verify-published:") "workflow missing public verification job"
    fail_when
        (ltb publish_pos native_pos
          || not (contains (slice text publish_pos (len text)) "needs: native")
          || not (contains (slice text verify_pos (len text)) "needs: publish"))
        "workflow job dependency contract failed"
    archive_pos ←
        some_or (find? text "verify-archive") "workflow missing pre-extraction archive verification"
    extract_pos ←
        some_or (find? text "tar -xzf \"$RUNNER_TEMP/assets")
          "workflow missing controlled extraction"
    fail_when (ltb extract_pos archive_pos) "archive verification must precede extraction"
