-- ===== src/Release/Notes.antt =====
-- xtask: the names of the archives, the tag of a version, and the notes in the changelog.
use Prim.Native.Char.{code as char_code}
use Prim.Native.String.{slice, ◌++◌}
use text.Mathlib.Text.{starts_with, find?}
use pg_mcp.Prelude.{
  ℕ, ◌+◌, ◌-◌, String, len, Bool, true, false, ◌&&◌, ◌||◌, not, leb, ltb, ◌==◌, Option, none, some,
  List, [], ◌∷◌, length, all, str_eq, if◌then◌else◌, Result, ok, err, ◌>>=◌, ◌>>◌, fail_if,
}
use pg_mcp.Protocol.Errors.{codes}
use pg_mcp.Release.Text.{
  lines, split_at, trim, trim_start, leading, strip_prefix, join_lines, digits_value,
}

abbrev pub repo : String
repo = "tilmon-engineering/pg-mcp"

abbrev pub product : String
product = "postgres-mcp"

abbrev pub targets : List String
targets =
    "x86_64-unknown-linux-gnu" ∷ "aarch64-unknown-linux-gnu" ∷ "aarch64-apple-darwin"
    ∷ "x86_64-apple-darwin" ∷ []

unfoldable pub archive_names : List String
archive_names =
    "postgres-mcp-x86_64-unknown-linux-gnu.tar.gz" ∷ "postgres-mcp-aarch64-unknown-linux-gnu.tar.gz"
    ∷ "postgres-mcp-aarch64-apple-darwin.tar.gz" ∷ "postgres-mcp-x86_64-apple-darwin.tar.gz" ∷ []

-- `archive_names().iter().chain([&"SHA256SUMS"])`.
abbrev with_sums : List String → List String
with_sums [] = "SHA256SUMS" ∷ []
with_sums (name ∷ names) = name ∷ with_sums names

unfoldable pub all_assets : List String
unfolding archive_names
all_assets = with_sums archive_names

-- `==` on lists of texts.
abbrev pub same_strings : List String → List String → Bool
same_strings [] [] = true
same_strings (a ∷ left) (b ∷ right) = str_eq a b && same_strings left right
same_strings _ _ = false

unfoldable pub expected_tag : String → String
expected_tag version = "v" ++ version

abbrev pub is_digit : ℕ → Bool
is_digit c = leb 48 c && leb c 57

-- `is_ascii_alphanumeric() || ".-+".contains(c)`.
abbrev is_version_char : ℕ → Bool
is_version_char c =
    is_digit c || leb 65 c && leb c 90 || leb 97 c && leb c 122 || c == 46 || c == 45 || c == 43

abbrev starts_with_digit : String → Bool
starts_with_digit String.[] = false
starts_with_digit (String.◌∷◌ c s) = is_digit (char_code c)

-- The errors are the texts of the source without the values that they quote.
unfoldable pub validate_tag : String → String → Result (Unit {0}) String
unfolding expected_tag split_at
validate_tag tag version =
    if str_eq tag (expected_tag version)
      && length (split_at 46 version) == 3
      && starts_with_digit version
      && all is_version_char (codes version)
    then ok tt
    else err "invalid release tag"

-- `parse::<u32>().unwrap_or(0)` of a text of digits stands in the range.
abbrev in_range : ℕ → ℕ → String → Bool
in_range low high s = leb low (digits_value s) && leb (digits_value s) high

abbrev date_parts : List String → Bool
date_parts (year ∷ month ∷ day ∷ []) =
    len year == 4
    && len month == 2
    && len day == 2
    && all is_digit (codes year)
    && all is_digit (codes month)
    && all is_digit (codes day)
    && in_range 1 12 month
    && in_range 1 31 day
date_parts _ = false

unfoldable pub date_valid : String → Bool
unfolding split_at
date_valid s = date_parts (split_at 45 s)

abbrev first_code : String → ℕ
first_code String.[] = 0
first_code (String.◌∷◌ c s) = char_code c

-- A heading with its place.
abbrev pub Heading : Type 0
Heading = ℕ × String

-- The loop over the lines from the line `i` on: the level-two headings outside of fenced blocks.
-- An open fence has its character and its length.
unfoldable pub scan : Option (ℕ × ℕ) → ℕ → List String → Result (List Heading) String
unfolding trim_start leading trim
scan none i [] = ok []
scan (some fence) i [] = err "unterminated fenced block"
scan (some (ch, n)) i (line ∷ rest) =
    let (close, after) = leading ch (trim_start line) in
    scan (if leb n close && str_eq (trim after) "" then none else some (ch, n)) (i + 1) rest
scan none i (line ∷ rest) =
    let trimmed = trim_start line in
    let ch = first_code trimmed in
    let fenced = starts_with trimmed "```" || starts_with trimmed "~~~" in
    let later = scan (if fenced then some (ch, (leading ch trimmed).0) else none) (i + 1) rest in
    if fenced
    then later
    else if starts_with line "## "
    then later >>= (λ headings. ok ((i, line) ∷ headings))
    else if starts_with line "##" && not (starts_with line "###")
    then err "malformed level-two heading"
    else later

-- The version of a release heading, whose date is checked.
unfoldable pub heading_version : String → Result String String
unfolding strip_prefix date_valid
heading_version h = elim (strip_prefix "## [" h) [
  | none ↦ err "malformed release heading"
  | some rest ↦ elim (find? rest "] - ") [
    | none ↦ err "malformed release heading"
    | some at ↦
        if date_valid (slice rest (at + 4) (len rest))
        then ok (slice rest 0 at)
        else err "release heading date must be YYYY-MM-DD"
  ]
]

-- The places of the headings of the version.
unfoldable pub find_sections : String → List Heading → Result (List ℕ) String
unfolding heading_version
find_sections version [] = ok []
find_sections version ((i, h) ∷ headings) =
    let rest = find_sections version headings in
    if str_eq h "## [Unreleased]"
    then rest
    else heading_version h >>= λ v.
        rest >>= λ found. ok (if str_eq v version then i ∷ found else found)

-- The lines from one place on up to another.
unfoldable pub line_range : ℕ → ℕ → List String → List String
line_range from to [] = []
line_range from to (line ∷ rest) =
    let later = line_range (from - 1) (to - 1) rest in
    if to == 0 then [] else if from == 0 then line ∷ later else later

-- `starts.iter().find(|(i, _)| *i > at)`, or the number of lines.
unfoldable pub section_end : ℕ → List Heading → ℕ → ℕ
section_end at [] total = total
section_end at ((i, h) ∷ headings) total =
    let rest = section_end at headings total in if ltb at i then i else rest

-- `extract_notes`.
unfoldable pub extract_notes : String → String → Result String String
unfolding lines scan find_sections line_range section_end join_lines trim
extract_notes text version = elim (lines text) [
  | [] ↦ err "changelog must begin with # Changelog"
  | title ∷ rest ↦ do
    fail_if (not (str_eq title "# Changelog")) "changelog must begin with # Changelog"
    headings ← scan none 0 (title ∷ rest)
    found ← find_sections version headings
    elim found [
      | at ∷ [] ↦
          let end = section_end at headings (length (title ∷ rest)) in
          let body = join_lines (line_range (at + 1) end (title ∷ rest)) in
          if str_eq (trim body) "" then err "release notes are empty" else ok (trim body ++ "\n")
      | _ ↦ err "expected exactly one changelog section"
    ]
]
