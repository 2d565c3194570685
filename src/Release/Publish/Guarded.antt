-- ===== src/Release/Publish/Guarded.antt =====
-- `publish` makes a release public only after its checks of the repository.
use mathlib.Core.Path.{subst}
use mathlib.Core.Bool.{true≢false}
use pg_mcp.Prelude.{
  sym, ◌∙◌, String, Bool, true, false, ◌&&◌, none, some, List, [], ◌∷◌, any, ok, str_eq, eq_refl,
  ◌≡◌, refl, inl, inr, arith, Result-cases,
}
use pg_mcp.Release.Text.{trim, trim_end_matches}
use pg_mcp.Release.World.{World, Call, Desk, run}
use pg_mcp.Release.Notes.{same_strings}
use pg_mcp.Release.Publish.{
  origin_url, head_args, origin_args, type_args, target_args, peeled_name, preflight, release_draft,
  publish,
}
use pg_mcp.Release.Publish.Calls.{
  Extends, same_calls, one_more, Only, Only-run, Only-bind, Only-lift, Only-fail_when, bind_ok,
  bind_err,
}
use pg_mcp.Release.Publish.Tasks.{edits, goes_public, IsQuiet, Only-validate_repository}
use pg_mcp.Release.Publish.Grows.{Any, Any-release_draft}

-- A call of git that succeeded with an output that passes the test.
abbrev pub answered : List String → (String → Bool) → Call → Bool
answered args test c =
    str_eq c.program "git"
    && same_strings c.args args
    && (elim c.output [ none ↦ false | some o ↦ o.success && test o.stdout ])

-- What `publish` has to have seen: HEAD is the expected commit, the origin is the repository, and
-- the tag is annotated and stands for the expected commit.
pub record IsChecked (tag expected_sha : String) (calls : List Call) : Type 0 where
  pub head : any (answered head_args (λ s. str_eq (trim s) expected_sha)) calls ≡ true
  pub origin :
      any (answered origin_args (λ s. str_eq (trim_end_matches 47 (trim s)) origin_url)) calls
      ≡ true
  pub annotated : any (answered (type_args tag) (λ s. str_eq (trim s) "tag")) calls ≡ true
  pub target : any (answered (target_args tag) (λ s. str_eq (trim s) expected_sha)) calls ≡ true

any-Extends :
    (p : Call → Bool) (Q : Call → Type 0) (cs ds : List Call)
    → Extends Q cs ds
    → any p cs ≡ true
    → any p ds ≡ true
any-Extends p Q cs _ (same_calls _) h = h
any-Extends p Q cs _ (one_more c _ ds q f) h = ground (arith, any-Extends p Q cs ds f h)

IsChecked-Extends :
    (tag expected_sha : String) (Q : Call → Type 0) (cs ds : List Call)
    → Extends Q cs ds
    → IsChecked tag expected_sha cs
    → IsChecked tag expected_sha ds
IsChecked-Extends tag sha Q cs ds f c = record {
  head = any-Extends _ Q cs ds f c.head;
  origin = any-Extends _ Q cs ds f c.origin;
  annotated = any-Extends _ Q cs ds f c.annotated;
  target = any-Extends _ Q cs ds f c.target;
}

-- Before every call of `gh release edit` stand the confirmations.
abbrev pub IsOrdered : String → String → List Call → Type 0
IsOrdered tag expected_sha [] = Unit
IsOrdered tag expected_sha (c ∷ cs) =
    (goes_public c ≡ true → IsChecked tag expected_sha cs) × IsOrdered tag expected_sha cs

quiet-IsOrdered :
    (tag expected_sha : String) (cs ds : List Call)
    → Extends IsQuiet cs ds
    → IsOrdered tag expected_sha cs
    → IsOrdered tag expected_sha ds
quiet-IsOrdered tag sha cs _ (same_calls _) h = h
quiet-IsOrdered tag sha cs _ (one_more c _ ds q f) h =
    (λ public. absurd (true≢false (sym public ∙ q)), quiet-IsOrdered tag sha cs ds f h)

checked-IsOrdered :
    (tag expected_sha : String) (cs ds : List Call)
    → Extends Any cs ds
    → IsChecked tag expected_sha cs
    → IsOrdered tag expected_sha cs
    → IsOrdered tag expected_sha ds
checked-IsOrdered tag sha cs _ (same_calls _) checked h = h
checked-IsOrdered tag sha cs _ (one_more c _ ds q f) checked h = (
  λ _. IsChecked-Extends tag sha Any cs ds f checked,
  checked-IsOrdered tag sha cs ds f checked h,
)

module _ (w : World) (root tag expected_sha : String) where
  IsQuiet-run :
      (program : String) (args : List String)
      → (str_eq program "gh" && edits args) ≡ false
      → Only IsQuiet (run w program args)
  IsQuiet-run program args h = Only-run IsQuiet program args (λ o. h)

  preflight-IsQuiet : Only IsQuiet (preflight w root tag expected_sha)
  unfolding preflight
  preflight-IsQuiet =
      search
        (
          Only-bind,
          Only-validate_repository w IsQuiet root tag (λ o. refl),
          IsQuiet-run "git" head_args refl,
          IsQuiet-run "git" origin_args refl,
          IsQuiet-run "git" (type_args tag) refl,
          IsQuiet-run "git" (target_args tag) refl,
          Only-fail_when,
          Only-lift,
        )
        depth 40

  preflight-IsChecked :
      (d : Desk w) (version : String)
      → (preflight w root tag expected_sha d).0 ≡ ok version
      → IsChecked tag expected_sha (preflight w root tag expected_sha d).1.calls
  unfolding preflight run
  preflight-IsChecked d version h = record {
    head = ground (arith, h, eq_refl tag);
    origin = ground (arith, h, eq_refl tag);
    annotated = ground (arith, h, eq_refl tag);
    target = ground (arith, h, eq_refl (peeled_name tag));
  }

  -- Whenever `publish` calls `gh release edit`, which makes the release public, git has confirmed
  -- before that HEAD is the expected commit, that the origin is the repository, and that the tag
  -- is annotated and stands for the expected commit, provided that this held of the calls made
  -- before `publish`.
  pub publish-IsOrdered :
      (dir : String) (d : Desk w)
      → IsOrdered tag expected_sha d.calls
      → IsOrdered tag expected_sha (publish w root tag expected_sha dir d).1.calls
  unfolding publish
  publish-IsOrdered dir d ordered =
      let m = preflight w root tag expected_sha in
      let f = λ (version : String). release_draft w root tag expected_sha dir version in
      let quiet =
        quiet-IsOrdered tag expected_sha d.calls (m d).1.calls (preflight-IsQuiet d) ordered in
      elim (Result-cases (m d).0) [
        | inl (version, e) ↦
            subst (λ (x : Desk w). IsOrdered tag expected_sha x.calls)
              (sym (bind_ok m f d version e))
              (checked-IsOrdered tag expected_sha (m d).1.calls _
                (Any-release_draft w root tag expected_sha dir version (m d).1)
                (preflight-IsChecked d version e) quiet)
        | inr (x, e) ↦
            subst (λ (y : Desk w). IsOrdered tag expected_sha y.calls) (sym (bind_err m f d x e))
              quiet
      ]
