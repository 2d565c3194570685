-- ===== src/Release/Text.antt =====
-- The functions of Rust's `str` that the release tool uses.
use Prim.Native.Char.{Char, code as char_code}
use Prim.Native.String.{slice, ◌++◌}
use text.Mathlib.Text.{starts_with, find?}
use pg_mcp.Prelude.{
  ℕ, suc, ◌+◌, ◌-◌, ◌*◌, String, len, Bool, false, ◌&&◌, leb, ◌==◌, Option, none, some, is_some,
  List, [], ◌∷◌, str_eq, if◌then◌else◌,
}
use pg_mcp.Protocol.Request.{is_whitespace}

-- One more character at the front of the first piece.
abbrev prepend : Char → List String → List String
prepend c [] = String.◌∷◌ c "" ∷ []
prepend c (piece ∷ pieces) = String.◌∷◌ c piece ∷ pieces

abbrev is_newline : Char → Bool
is_newline c = char_code c == 10

abbrev starts_line : String → Bool
starts_line String.[] = false
starts_line (String.◌∷◌ c s) = is_newline c

-- `lines()`: a line ends at a line feed, with the carriage return before it.
unfoldable pub lines : String → List String
lines String.[] = []
lines (String.◌∷◌ c s) =
    let rest = lines s in
    if is_newline c
    then "" ∷ rest
    else if char_code c == 13 && starts_line s
    then rest
    else prepend c rest

-- `split(separator)` at a character.
unfoldable pub split_at : ℕ → String → List String
split_at separator String.[] = "" ∷ []
split_at separator (String.◌∷◌ c s) =
    let rest = split_at separator s in
    if char_code c == separator then "" ∷ rest else prepend c rest

-- `split_whitespace()`.
unfoldable pub split_whitespace : String → List String
split_whitespace String.[] = []
split_whitespace (String.◌∷◌ c String.[]) =
    if is_whitespace (char_code c) then [] else String.◌∷◌ c "" ∷ []
split_whitespace (String.◌∷◌ c (String.◌∷◌ d s)) =
    let rest = split_whitespace (String.◌∷◌ d s) in
    if is_whitespace (char_code c)
    then rest
    else if is_whitespace (char_code d)
    then String.◌∷◌ c "" ∷ rest
    else prepend c rest

unfoldable pub trim_start : String → String
trim_start String.[] = ""
trim_start (String.◌∷◌ c s) =
    let rest = trim_start s in if is_whitespace (char_code c) then rest else String.◌∷◌ c s

unfoldable pub trim_end : String → String
trim_end String.[] = ""
trim_end (String.◌∷◌ c s) =
    let rest = trim_end s in
    if is_whitespace (char_code c) && str_eq rest "" then "" else String.◌∷◌ c rest

unfoldable pub trim : String → String
unfolding trim_start trim_end
trim s = trim_start (trim_end s)

-- `trim_end_matches(c)` and `trim_start_matches(c)`.
unfoldable pub trim_end_matches : ℕ → String → String
trim_end_matches x String.[] = ""
trim_end_matches x (String.◌∷◌ c s) =
    let rest = trim_end_matches x s in
    if char_code c == x && str_eq rest "" then "" else String.◌∷◌ c rest

unfoldable pub trim_start_matches : ℕ → String → String
trim_start_matches x String.[] = ""
trim_start_matches x (String.◌∷◌ c s) =
    let rest = trim_start_matches x s in if char_code c == x then rest else String.◌∷◌ c s

-- How many characters at the start are `c`, and what follows them.
unfoldable pub leading : ℕ → String → ℕ × String
leading x String.[] = (0, "")
leading x (String.◌∷◌ c s) =
    let (n, rest) = leading x s in if char_code c == x then (suc n, rest) else (0, String.◌∷◌ c s)

-- `strip_prefix`.
unfoldable pub strip_prefix : String → String → Option String
strip_prefix prefix s = if starts_with s prefix then some (slice s (len prefix) (len s)) else none

-- `contains`, and `ends_with`.
unfoldable pub contains : String → String → Bool
contains s part = is_some (find? s part)

unfoldable pub ends_with : String → String → Bool
ends_with s end = leb (len end) (len s) && str_eq (slice s (len s - len end) (len s)) end

-- `matches(part).count()` for an ASCII part, where that many characters are still part of the last match.
unfoldable pub count_matches : String → ℕ → String → ℕ
count_matches part skip String.[] = 0
count_matches part skip (String.◌∷◌ c s) =
    let inside = count_matches part (skip - 1) s in
    let found = count_matches part (len part - 1) s in
    if leb 1 skip then inside else if starts_with (String.◌∷◌ c s) part then suc found else inside

-- `join("\n")`.
unfoldable pub join_lines : List String → String
join_lines [] = ""
join_lines (line ∷ []) = line
join_lines (line ∷ next ∷ rest) = line ++ "\n" ++ join_lines (next ∷ rest)

-- The value of a text of decimal digits.
abbrev add_digits : ℕ → String → ℕ
add_digits n String.[] = n
add_digits n (String.◌∷◌ c s) = add_digits (10 * n + (char_code c - 48)) s

abbrev pub digits_value : String → ℕ
digits_value s = add_digits 0 s
