-- ===== src/Examples/Release.antt =====
-- The release tool on a repository at version 0.1.0 whose draft release is complete.
use Prim.Native.String.{◌++◌}
use pg_mcp.Prelude.{
  String, Bool, true, false, not, ◌||◌, Option, none, some, List, [], ◌∷◌, All, map, str_eq,
  if◌then◌else◌, insert_sorted, sort_by, ok, ◌≡◌, refl,
}
use pg_mcp.Protocol.Json.{
  Value, bool, string, array, object, field, end, item, no_items, get, get_field, as_str,
}
use pg_mcp.Release.Text.{
  lines, split_at, split_whitespace, trim, trim_start, trim_end, trim_end_matches,
  trim_start_matches, leading, strip_prefix, contains, ends_with, count_matches, join_lines,
}
use pg_mcp.Release.Notes.{
  archive_names, all_assets, expected_tag, validate_tag, date_valid, scan, heading_version,
  find_sections, line_range, section_end, extract_notes,
}
use pg_mcp.Release.World.{World, Output, ReleaseJson, ReleaseAsset, Desk, run}
use pg_mcp.Release.Checksums.{checksum_name, checksum_names, occurrences, verify_checksums}
use pg_mcp.Release.Checksums.Exact.{verify_checksums_exact}
use pg_mcp.Release.Checks.{
  manifest, package_version, check_members, check_lock, validate_repository, checksum,
  listed_digest, check_digests, verify_asset_dir, check_listings, verify_archive_members,
  verify_archive,
}
use pg_mcp.Release.Publish.{
  preflight, write_notes, find_release, compare_files, compare_download, compare_release_assets,
  confirm_published, make_public, resume_draft, release_draft, publish, origin_url,
}
use pg_mcp.Release.Publish.Guarded.{IsOrdered, publish-IsOrdered}

abbrev digest : String
digest = "0123456789abcdef0123456789abcdef0123456789abcdef0123456789abcdef"

abbrev sums_line : String → String
sums_line name = digest ++ "  " ++ name ++ "\n"

abbrev sums : String
sums =
    sums_line "postgres-mcp-x86_64-unknown-linux-gnu.tar.gz"
    ++ sums_line "postgres-mcp-aarch64-unknown-linux-gnu.tar.gz"
    ++ sums_line "postgres-mcp-aarch64-apple-darwin.tar.gz"
    ++ sums_line "postgres-mcp-x86_64-apple-darwin.tar.gz"

names_read : checksum_names (lines sums) ≡ ok archive_names
unfolding checksum_names checksum_name lines split_whitespace trim_start_matches archive_names
names_read = refl

sums_accepted : verify_checksums sums archive_names ≡ ok tt
unfolding verify_checksums checksum_names checksum_name lines split_whitespace trim_start_matches
    archive_names
sums_accepted = refl

verify_checksums_exact_example :
    All (λ x. occurrences x archive_names ≡ 1) archive_names
    × All (λ n. occurrences n archive_names ≡ 1) archive_names
verify_checksums_exact_example = verify_checksums_exact sums archive_names names_read sums_accepted

abbrev changelog : String
changelog =
    "# Changelog\n\n## [Unreleased]\n\n## [0.1.0] - 2025-01-31\n\n- First.\n```\n## no heading\n```\n\n## [0.0.9] - 2024-12-01\n- Old.\n"

notes_of : extract_notes changelog "0.1.0" ≡ ok "- First.\n```\n## no heading\n```\n"
unfolding extract_notes lines scan trim_start leading trim trim_end find_sections heading_version
    strip_prefix date_valid split_at section_end line_range join_lines
notes_of = refl

abbrev said : String → Output
said text = record { success = true; stdout = text; stderr = "" }

-- The manifests: that of the workspace, and those of its members.
abbrev read_manifest : String → Option Value
read_manifest text =
    if str_eq text "workspace"
    then some (
        object (
          field "workspace"
            (object (
              field "members"
                (array (
                  item (string "crates/postgres-mcp")
                    (item (string "crates/postgres-mcp-core") no_items)))
                (field "package" (object (field "version" (string "0.1.0") end)) end)))
            end))
    else some (
        object (
          field "package"
            (object (field "version" (object (field "workspace" (bool true) end)) end)) end))

abbrev lock_text : String
lock_text =
    "name = \"postgres-mcp\"\nversion = \"0.1.0\"\nname = \"postgres-mcp-core\"\nversion = \"0.1.0\"\n"

abbrev file : String → Bool → Option String
file path public =
    if str_eq path "/r/Cargo.toml"
    then some "workspace"
    else if ends_with path "Cargo.toml"
    then some "package"
    else if ends_with path "Cargo.lock"
    then some lock_text
    else if ends_with path "CHANGELOG.md"
    then some changelog
    else if ends_with path "SHA256SUMS"
    then some sums
    else some "- First.\n```\n## no heading\n```\n"

abbrev asset : String → ReleaseAsset
asset name = record { name = name; size = 1; browser_download_url = none }

abbrev release : Bool → ReleaseJson
release public = record {
  draft = not public;
  prerelease = false;
  tag_name = "v0.1.0";
  target_commitish = "abc";
  body = "- First.\n```\n## no heading\n```";
  published_at = if public then some "2025-01-31" else none;
  assets = map asset all_assets;
}

-- What git and gh answer; the release is public once it was edited.
abbrev word : List String → String
word [] = ""
word (a ∷ _) = a

abbrev second_word : List String → String
second_word (_ ∷ b ∷ _) = b
second_word _ = ""

abbrev answer_git : List String → String
answer_git args =
    if str_eq (word args) "remote"
    then origin_url ++ "\n"
    else if str_eq (word args) "cat-file"
    then "tag\n"
    else "abc\n"

abbrev answer_gh : List String → Bool → String × Bool
answer_gh args public =
    if str_eq (word args) "api"
    then (if public then "public" else "draft", public)
    else ("", public || str_eq (second_word args) "edit")

abbrev answer : String → List String → Bool → Option Output × Bool
answer program args public =
    if str_eq program "git"
    then (some (said (answer_git args)), public)
    else if str_eq program "gh"
    then (let (text, after) = answer_gh args public in (some (said text), after))
    else if str_eq program "sha256sum"
    then (some (said digest), public)
    else if str_eq program "tar"
    then (some (said "postgres-mcp\n"), public)
    else (some (said ""), public)

abbrev toy_world : World
toy_world = record {
  State = Bool;
  exec = answer;
  read_file = file;
  write_file = λ path text public. (true, public);
  create_dirs = λ path public. (true, public);
  remove_dirs = λ path public. public;
  list_dir = λ path public. some all_assets;
  exists = λ path public. false;
  is_file = λ path public. true;
  file_size = λ path public. some 1;
  process_id = "7";
  parse_toml = read_manifest;
  parse_json = λ text. none;
  read_release = λ text. some (release (str_eq text "public"));
  read_releases = λ text. none;
  release_text = λ r. "draft";
}

abbrev start : Desk toy_world
start = record { calls = []; outside = false }

-- The run succeeds, and the release was made public.
published : (publish toy_world "/r" "v0.1.0" "abc" "/a" start).0 ≡ ok tt
unfolding publish preflight release_draft validate_repository manifest check_members package_version
    check_lock count_matches get get_field as_str validate_tag expected_tag split_at run trim
    trim_start trim_end trim_end_matches write_notes extract_notes lines scan leading find_sections
    heading_version strip_prefix date_valid section_end line_range join_lines verify_asset_dir
    archive_names all_assets sort_by insert_sorted verify_checksums checksum_names checksum_name
    split_whitespace trim_start_matches check_digests checksum listed_digest ends_with find_release
    resume_draft contains compare_release_assets compare_download verify_archive
    verify_archive_members check_listings compare_files make_public confirm_published
published = refl

publish-IsOrdered_example :
    IsOrdered "v0.1.0" "abc" (publish toy_world "/r" "v0.1.0" "abc" "/a" start).1.calls
publish-IsOrdered_example = publish-IsOrdered toy_world "/r" "v0.1.0" "abc" "/a" start _
