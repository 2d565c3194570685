-- ===== src/Release/World.antt =====
-- What xtask does outside itself: the programs that it runs, the files, and the formats that it
-- reads. A task is a function of the state of the outside and of the calls made so far.
use pg_mcp.Prelude.{
  ℕ, String, Bool, true, false, not, Option, none, some, List, ◌∷◌, Result, ok, err,
}
use pg_mcp.Protocol.Json.{Value}

-- `std::process::Output`, with its texts read by `from_utf8_lossy`.
pub record Output : Type 0 where
  pub success : Bool
  pub stdout : String
  pub stderr : String

pub record ReleaseAsset : Type 0 where
  pub name : String
  pub size : ℕ
  pub browser_download_url : Option String

pub record ReleaseJson : Type 0 where
  pub draft : Bool
  pub prerelease : Bool
  pub tag_name : String
  pub target_commitish : String
  pub body : String
  pub published_at : Option String
  pub assets : List ReleaseAsset

-- A program that was run, its arguments, and what it gave, or none where it could not be run.
pub record Call : Type 0 where
  pub program : String
  pub args : List String
  pub output : Option Output

pub record World : Type 1 where
  pub State : Type 0
  pub exec : String → List String → State → Option Output × State
  pub read_file : String → State → Option String
  pub write_file : String → String → State → Bool × State
  pub create_dirs : String → State → Bool × State
  pub remove_dirs : String → State → State
  pub list_dir : String → State → Option (List String)
  pub exists : String → State → Bool
  pub is_file : String → State → Bool
  pub file_size : String → State → Option ℕ
  pub process_id : String
  pub parse_toml : String → Option Value
  pub parse_json : String → Option Value
  pub read_release : String → Option ReleaseJson
  pub read_releases : String → Option (List ReleaseJson)
  pub release_text : ReleaseJson → String

module _ (w : World) where
  -- The calls so far, the latest first, and the state of the outside.
  pub record Desk : Type 0 where
    pub calls : List Call
    pub outside : w.State

  -- A function that returns a `Result` with a text as its error.
  abbrev pub Task {ℓ} : Type ℓ → Type ℓ
  Task A = Desk → Result A String × Desk

  -- `run`. Its directory is none or the `root` of `real_main`, which is `env::current_dir`, so that
  -- every program runs in the directory of the process; it is a part of the outside.
  unfoldable pub run : String → List String → Task Output
  run program args d =
      let (output, s) = w.exec program args d.outside in
      let call : Call = record { program = program; args = args; output = output } in
      let d' : Desk = record { calls = call ∷ d.calls; outside = s } in
      elim output [ none ↦ (err "run", d') | some o ↦ (ok o, d') ]

infixl 5 ◌>>=◌ ◌>>◌
abbrev pub ◌>>=◌ {ℓ κ} :
    {w : World} {A : Type ℓ} {B : Type κ} → Task w A → (A → Task w B) → Task w B
(m >>= f) d = let (r, d') = m d in elim r [ ok a ↦ f a d' | err e ↦ (err e, d') ]

abbrev pub ◌>>◌ {ℓ} : {w : World} {B : Type ℓ} → Task w (Unit {0}) → Task w B → Task w B
m >> k = m >>= λ _. k

module _ {w : World} where
  abbrev pub done {ℓ} : {A : Type ℓ} → A → Task w A
  done a d = (ok a, d)

  abbrev pub fail {ℓ} : {A : Type ℓ} → String → Task w A
  fail e d = (err e, d)

  -- `?` on a value that is there already.
  abbrev pub lift {ℓ} : {A : Type ℓ} → Result A String → Task w A
  lift r d = (r, d)

  -- `ok_or(e)?`.
  abbrev pub some_or {ℓ} : {A : Type ℓ} → Option A → String → Task w A
  some_or none e d = (err e, d)
  some_or (some a) e d = (ok a, d)

  abbrev pub fail_when : Bool → String → Task w (Unit {0})
  fail_when true e d = (err e, d)
  fail_when false e d = (ok tt, d)

  -- A look at the outside.
  abbrev pub look {ℓ} : {A : Type ℓ} → (w.State → A) → Task w A
  look f d = (ok (f d.outside), d)

  abbrev pub change {ℓ} : {A : Type ℓ} → (w.State → A × w.State) → Task w A
  change f d = let (a, s) = f d.outside in (ok a, record { calls = d.calls; outside = s })

  -- `ok(&output, what)`.
  abbrev pub succeeded : Output → String → Task w (Unit {0})
  succeeded o what = fail_when (not o.success) what

  -- `fs::read_to_string(path)?`, `fs::write(path, text)?` and `fs::create_dir_all(path)?`.
  abbrev pub read_text : String → Task w String
  read_text path = look (w.read_file path) >>= λ text. some_or text "read"

  abbrev pub write_text : String → String → Task w (Unit {0})
  write_text path text =
      change (w.write_file path text) >>= λ written. fail_when (not written) "write"

  abbrev pub make_dirs : String → Task w (Unit {0})
  make_dirs path = change (w.create_dirs path) >>= λ made. fail_when (not made) "create"
