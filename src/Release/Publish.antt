-- ===== src/Release/Publish.antt =====
-- xtask: the `publish` command.
pub mod Calls
pub mod Tasks
pub mod Grows
pub mod Guarded
use Prim.Native.String.{◌++◌}
use pg_mcp.Prelude.{
  ℕ, String, Bool, true, false, ◌&&◌, ◌||◌, not, ◌==◌, Option, none, some, is_some, List, [], ◌∷◌,
  map, length, str_eq, if◌then◌else◌, Result, ok, err,
}
use pg_mcp.Protocol.Envelope.{same}
use pg_mcp.Release.Text.{trim, trim_end, trim_end_matches, contains}
use pg_mcp.Release.Notes.{repo, same_strings, all_assets, extract_notes}
use pg_mcp.Release.World.{
  World, Output, ReleaseJson, ReleaseAsset, Desk, Task, run, ◌>>=◌, ◌>>◌, done, fail, lift, some_or,
  fail_when, look, change, succeeded, read_text, write_text, make_dirs,
}
use pg_mcp.Release.Checks.{validate_repository, verify_asset_dir, verify_archive, checksum}

abbrev pub origin_url : String
origin_url = "https://github.com/" ++ repo ++ ".git"

abbrev pub releases_path : String
releases_path = "repos/" ++ repo ++ "/releases"

abbrev pub tag_path : String → String
tag_path tag = "repos/" ++ repo ++ "/releases/tags/" ++ tag

abbrev pub notes_path : String → String
notes_path root = root ++ "/target/release-notes.md"

abbrev pub peeled_name : String → String
peeled_name tag = tag ++ "^{}"

-- The arguments of the calls of git and gh.
abbrev pub head_args : List String
head_args = "rev-parse" ∷ "HEAD" ∷ []

abbrev pub origin_args : List String
origin_args = "remote" ∷ "get-url" ∷ "origin" ∷ []

abbrev pub type_args : String → List String
type_args tag = "cat-file" ∷ "-t" ∷ tag ∷ []

abbrev pub target_args : String → List String
target_args tag = "rev-parse" ∷ peeled_name tag ∷ []

abbrev pub publish_args : String → List String
publish_args tag = "release" ∷ "edit" ∷ tag ∷ "--draft=false" ∷ []

module _ (w : World) where
  -- The checks at the start of `publish`, up to the notes: the version.
  unfoldable pub preflight : String → String → String → Task w String
  unfolding validate_repository run trim trim_end_matches
  preflight root tag expected_sha = do
    version ← validate_repository w root tag
    head ← run w "git" head_args
    succeeded head "git HEAD"
    fail_when (not (str_eq (trim head.stdout) expected_sha))
        "checked-out HEAD does not match expected SHA"
    remote ← run w "git" origin_args
    succeeded remote "origin preflight"
    fail_when (not (str_eq (trim_end_matches 47 (trim remote.stdout)) origin_url))
        "origin must be canonical HTTPS GitHub URL"
    tag_type ← run w "git" (type_args tag)
    succeeded tag_type "annotated tag check"
    fail_when (not (str_eq (trim tag_type.stdout) "tag")) "release tag must be annotated"
    peeled ← run w "git" (target_args tag)
    succeeded peeled "tag target check"
    fail_when (not (str_eq (trim peeled.stdout) expected_sha))
        "annotated tag does not resolve to expected SHA"
    done version

  -- The notes of the version, written to their file.
  unfoldable pub write_notes : String → String → Task w (Unit {0})
  unfolding extract_notes
  write_notes root version = do
    make_dirs (root ++ "/target")
    text ← read_text (root ++ "/CHANGELOG.md")
    notes ← lift (extract_notes text version)
    write_text (notes_path root) notes

  -- The releases of the tag in the list.
  abbrev pub of_tag : String → List ReleaseJson → List ReleaseJson
  of_tag tag [] = []
  of_tag tag (release ∷ releases) =
      let rest = of_tag tag releases in if str_eq release.tag_name tag then release ∷ rest else rest

  abbrev pub list_releases : String → Task w (List ReleaseJson)
  list_releases what = do
    list ← run w "gh" ("api" ∷ releases_path ∷ "--paginate" ∷ [])
    succeeded list what
    some_or (w.read_releases list.stdout) "invalid release list JSON"

  -- The listed release as an output, as `gh api` would have given it.
  unfoldable pub as_output : List ReleaseJson → Task w Output
  unfolding run
  as_output [] = run w "false" []
  as_output (release ∷ []) = do
    synthetic ← run w "true" []
    done (record synthetic { stdout = w.release_text release })
  as_output (release ∷ other ∷ rest) =
      fail "multiple releases share this tag; manual recovery required"

  -- `release_output`: the release as an output, or one that did not succeed.
  unfoldable pub find_release : String → Task w Output
  unfolding run as_output
  find_release tag = do
    existing ← run w "gh" ("api" ∷ tag_path tag ∷ [])
    if existing.success
        then done existing
        else (do releases ← list_releases "release list"; as_output (of_tag tag releases))

  -- The loop of `compare_release_assets`.
  unfoldable pub compare_files : String → String → List String → Task w (Unit {0})
  unfolding checksum
  compare_files dir fetched [] = done tt
  compare_files dir fetched (name ∷ names) = do
    here ← checksum w (dir ++ "/" ++ name)
    there ← checksum w (fetched ++ "/" ++ name)
    fail_when (not (str_eq here there)) "release asset digest mismatch"
    local ← look (w.file_size (dir ++ "/" ++ name))
    size ← some_or local "metadata"
    remote ← look (w.file_size (fetched ++ "/" ++ name))
    size' ← some_or remote "metadata"
    fail_when (not (size == size')) "release asset size mismatch"
    compare_files dir fetched names

  -- The closure of `compare_release_assets`.
  unfoldable pub compare_download : String → String → String → Task w (Unit {0})
  unfolding run verify_archive compare_files all_assets
  compare_download tag dir fetched = do
    output ← run w "gh" ("release" ∷ "download" ∷ tag ∷ "--dir" ∷ fetched ∷ [])
    succeeded output "release asset download"
    verify_archive w fetched
    compare_files dir fetched all_assets

  -- Whatever a task answers, the directory is removed after it.
  abbrev pub and_remove : String → Task w (Unit {0}) → Task w (Unit {0})
  and_remove dir m d =
      let (r, d') = m d in (r, record { calls = d'.calls; outside = w.remove_dirs dir d'.outside })

  -- `compare_release_assets`.
  unfoldable pub compare_release_assets : String → String → String → Task w (Unit {0})
  unfolding compare_download
  compare_release_assets root tag dir = do
    let fetched = root ++ "/target/.xtask-release-download-" ++ w.process_id
    present ← look (w.exists fetched)
    fail_when present "release download directory already exists; manual recovery required"
    make_dirs fetched
    and_remove fetched (compare_download tag dir fetched)

  -- `confirm_published`; the output is read whether or not the call succeeded.
  unfoldable pub confirm_published : String → Task w (Unit {0})
  unfolding run
  confirm_published tag = do
    output ← run w "gh" ("api" ∷ tag_path tag ∷ [])
    release ← some_or (w.read_release output.stdout) "invalid GitHub release JSON"
    fail_when (release.draft || not (is_some release.published_at))
        "release publish transition was not confirmed"

  -- `gh release edit --draft=false` and its confirmation, which stand at two places.
  unfoldable pub make_public : String → Task w (Unit {0})
  unfolding run confirm_published
  make_public tag = do
    edit ← run w "gh" (publish_args tag)
    succeeded edit "GitHub release publish"
    confirm_published tag

  -- A release that is there already.
  unfoldable pub resume_draft :
      String → String → String → String → String → ReleaseJson → Task w (Unit {0})
  unfolding trim_end contains all_assets compare_release_assets make_public
  resume_draft root tag expected_sha version dir release = do
    fail_when (not release.draft) "release is already published; refusing overwrite"
    fail_when
        (not (str_eq release.tag_name tag)
          || not (str_eq release.target_commitish expected_sha)
          || not (same release.prerelease (contains version "-")))
        "existing draft release metadata mismatch; manual recovery required"
    notes ← read_text (notes_path root)
    fail_when (not (str_eq (trim_end release.body) (trim_end notes)))
        "existing draft notes mismatch; manual recovery required"
    fail_when (not (same_strings (map (λ a. a.name) release.assets) all_assets))
        "existing draft assets mismatch; manual recovery required"
    compare_release_assets root tag dir
    make_public tag

  -- The arguments of `gh release create`.
  abbrev pub create_args : String → String → String → String → List String
  create_args root tag expected_sha dir =
      "release"
      ∷ "create"
      ∷ tag
      ∷ "--verify-tag"
      ∷ "--target"
      ∷ expected_sha
      ∷ "--draft"
      ∷ "--notes-file"
      ∷ notes_path root
      ∷ map (λ name. dir ++ "/" ++ name) all_assets

  -- The check of the draft that was created.
  unfoldable pub publish_created : String → String → String → List ReleaseJson → Task w (Unit {0})
  unfolding trim_end make_public
  publish_created root tag expected_sha [] = fail "created draft disappeared"
  publish_created root tag expected_sha (release ∷ _) = do
    fail_when
        (not release.draft
          || not (str_eq release.tag_name tag)
          || not (str_eq release.target_commitish expected_sha))
        "created draft metadata mismatch; manual recovery required"
    notes ← read_text (notes_path root)
    fail_when (not (str_eq (trim_end release.body) (trim_end notes)))
        "created draft metadata mismatch; manual recovery required"
    make_public tag

  -- A release that has to be created.
  unfoldable pub create_draft : String → String → String → String → Task w (Unit {0})
  unfolding run all_assets publish_created
  create_draft root tag expected_sha dir = do
    out ← run w "gh" (create_args root tag expected_sha dir)
    succeeded out "GitHub draft release"
    releases ← list_releases "created release lookup"
    publish_created root tag expected_sha (of_tag tag releases)

  -- `publish` after its checks.
  unfoldable pub release_draft : String → String → String → String → String → Task w (Unit {0})
  unfolding write_notes verify_asset_dir find_release resume_draft create_draft
  release_draft root tag expected_sha dir version = do
    write_notes root version
    _ ← verify_asset_dir w dir
    output ← find_release tag
    if output.success
        then (do
          release ← some_or (w.read_release output.stdout) "invalid GitHub release JSON"
          resume_draft root tag expected_sha version dir release)
        else create_draft root tag expected_sha dir

  -- `publish`.
  unfoldable pub publish : String → String → String → String → Task w (Unit {0})
  unfolding preflight release_draft
  publish root tag expected_sha dir =
      preflight root tag expected_sha >>= λ version. release_draft root tag expected_sha dir version
