-- ===== src/Release/Publish/Grows.antt =====
-- No task of `publish` after its first checks forgets a call.
use pg_mcp.Prelude.{String, Bool, true, false, List, [], ◌∷◌, if◌then◌else◌}
use pg_mcp.Release.World.{World, Call, Task, run, ReleaseJson}
use pg_mcp.Release.Checks.{
  first_word, checksum, check_digests, verify_asset_dir, check_listings, verify_archive_members,
  verify_archive,
}
use pg_mcp.Release.Publish.{
  write_notes, list_releases, as_output, and_remove, publish_created, find_release, compare_files,
  compare_download, compare_release_assets, confirm_published, make_public, resume_draft,
  create_draft, release_draft,
}
use pg_mcp.Release.Publish.Calls.{
  same_calls, Only, Only-run, Only-bind, Only-lift, Only-some_or, Only-fail_when, Only-look,
  Only-change,
}

abbrev pub Any : Call → Type 0
Any c = Unit

module _ (w : World) where
  Any-run : (program : String) (args : List String) → Only Any (run w program args)
  Any-run program args = Only-run Any program args (λ o. _)

  Any-digest : (words : List String) → Only Any (first_word w words)
  Any-digest [] d = same_calls d.calls
  Any-digest (digest ∷ _) d = same_calls d.calls

  Any-checksum : (path : String) → Only Any (checksum w path)
  unfolding checksum
  Any-checksum path = search (Only-bind, Any-run, Only-fail_when, Any-digest) depth 20

  Any-check_digests :
      (dir : String) (sums names : List String) → Only Any (check_digests w dir sums names)
  unfolding check_digests
  Any-check_digests dir sums [] = λ d. same_calls d.calls
  Any-check_digests dir sums (name ∷ names) =
      search (Only-bind, Any-checksum, Only-fail_when, Only-lift, Any-check_digests dir sums names)
        depth 20

  Any-verify_asset_dir : (dir : String) → Only Any (verify_asset_dir w dir)
  unfolding verify_asset_dir
  Any-verify_asset_dir dir =
      search (Only-bind, Only-look, Only-some_or, Only-fail_when, Only-lift, Any-check_digests)
        depth 30

  Any-check_listings : (dir : String) (names : List String) → Only Any (check_listings w dir names)
  unfolding check_listings
  Any-check_listings dir [] = λ d. same_calls d.calls
  Any-check_listings dir (name ∷ names) =
      search (Only-bind, Any-run, Only-fail_when, Any-check_listings dir names) depth 20

  Any-verify_archive : (dir : String) → Only Any (verify_archive w dir)
  unfolding verify_archive verify_archive_members
  Any-verify_archive dir = search (Only-bind, Any-verify_asset_dir, Any-check_listings) depth 20

  Any-write_notes : (root version : String) → Only Any (write_notes w root version)
  unfolding write_notes
  Any-write_notes root version =
      search (Only-bind, Only-change, Only-look, Only-some_or, Only-fail_when, Only-lift) depth 30

  Any-if {ℓ} :
      {A : Type ℓ} (c : Bool) (m n : Task w A)
      → Only Any m
      → Only Any n
      → Only Any (if c then m else n)
  Any-if true m n p q = p
  Any-if false m n p q = q

  Any-list_releases : (tag what : String) → Only Any (list_releases w what)
  Any-list_releases tag what = search (Only-bind, Any-run, Only-fail_when, Only-some_or) depth 20

  Any-as_output : (releases : List ReleaseJson) → Only Any (as_output w releases)
  unfolding as_output
  Any-as_output [] = Any-run "false" []
  Any-as_output (release ∷ []) = search (Only-bind, Any-run, Only-lift) depth 20
  Any-as_output (release ∷ other ∷ rest) = λ d. same_calls d.calls

  Any-find_release : (tag : String) → Only Any (find_release w tag)
  unfolding find_release
  Any-find_release tag =
      search (Only-bind, Any-run, Any-if, Any-as_output, Only-fail_when, Only-some_or, Only-lift)
        depth 30

  Any-compare_files :
      (dir fetched : String) (names : List String) → Only Any (compare_files w dir fetched names)
  unfolding compare_files
  Any-compare_files dir fetched [] = λ d. same_calls d.calls
  Any-compare_files dir fetched (name ∷ names) =
      search
        (
          Only-bind,
          Any-checksum,
          Only-fail_when,
          Only-look,
          Only-some_or,
          Any-compare_files dir fetched names,
        )
        depth 30

  Any-compare_download : (tag dir fetched : String) → Only Any (compare_download w tag dir fetched)
  unfolding compare_download
  Any-compare_download tag dir fetched =
      search (Only-bind, Any-run, Only-fail_when, Any-verify_archive, Any-compare_files) depth 30

  Any-and_remove :
      (dir : String) (m : Task w (Unit {0})) → Only Any m → Only Any (and_remove w dir m)
  Any-and_remove dir m p = p

  Any-compare_release_assets :
      (root tag dir : String) → Only Any (compare_release_assets w root tag dir)
  unfolding compare_release_assets
  Any-compare_release_assets root tag dir =
      search
        (Only-bind, Only-look, Only-change, Only-fail_when, Any-and_remove, Any-compare_download)
        depth 30

  Any-make_public : (tag : String) → Only Any (make_public w tag)
  unfolding make_public confirm_published
  Any-make_public tag = search (Only-bind, Any-run, Only-some_or, Only-fail_when) depth 30

  Any-resume_draft :
      (root tag expected_sha version dir : String) (release : ReleaseJson)
      → Only Any (resume_draft w root tag expected_sha version dir release)
  unfolding resume_draft
  Any-resume_draft root tag expected_sha version dir release =
      search
        (
          Only-bind, Only-look, Only-some_or, Only-fail_when, Any-compare_release_assets,
          Any-make_public,
        )
        depth 30

  Any-publish_created :
      (root tag expected_sha : String) (releases : List ReleaseJson)
      → Only Any (publish_created w root tag expected_sha releases)
  unfolding publish_created
  Any-publish_created root tag expected_sha [] = λ d. same_calls d.calls
  Any-publish_created root tag expected_sha (release ∷ rest) =
      search (Only-bind, Only-look, Only-some_or, Only-fail_when, Any-make_public) depth 30

  Any-create_draft :
      (root tag expected_sha dir : String) → Only Any (create_draft w root tag expected_sha dir)
  unfolding create_draft
  Any-create_draft root tag expected_sha dir =
      search (Only-bind, Any-run, Only-fail_when, Only-some_or, Any-publish_created) depth 30

  pub Any-release_draft :
      (root tag expected_sha dir version : String)
      → Only Any (release_draft w root tag expected_sha dir version)
  unfolding release_draft
  Any-release_draft root tag expected_sha dir version =
      search
        (
          Only-bind, Any-write_notes, Any-verify_asset_dir, Any-find_release, Any-if, Only-some_or,
          Any-resume_draft, Any-create_draft,
        )
        depth 30
