-- ===== src/Release/Checksums.antt =====
-- xtask: the lines of SHA256SUMS.
pub mod Exact
use pg_mcp.Prelude.{
  ℕ, suc, leb, String, len, Bool, true, false, ◌&&◌, ◌||◌, not, ◌==◌, List, [], ◌∷◌, length, all,
  any, str_eq, if◌then◌else◌, Result, ok, err, ◌>>=◌, fail_if,
}
use pg_mcp.Protocol.Errors.{codes}
use pg_mcp.Release.Text.{lines, split_whitespace, trim_start_matches}
use pg_mcp.Release.Notes.{is_digit}

-- `is_ascii_hexdigit`.
abbrev is_hex : ℕ → Bool
is_hex c = is_digit c || leb 65 c && leb c 70 || leb 97 c && leb c 102

-- `verify_checksums`, by its lines.
unfoldable pub checksum_name : String → Result String String
unfolding split_whitespace trim_start_matches
checksum_name line = elim (split_whitespace line) [
  | digest ∷ name ∷ [] ↦
      if len digest == 64 && all is_hex (codes digest)
      then ok (trim_start_matches 42 name)
      else err "invalid checksum line"
  | _ ↦ err "invalid checksum line"
]

unfoldable pub checksum_names : List String → Result (List String) String
unfolding checksum_name
checksum_names [] = ok []
checksum_names (line ∷ rest) =
    checksum_name line >>= λ name. checksum_names rest >>= λ names. ok (name ∷ names)

-- `names.iter().filter(|n| *n == x).count()`.
abbrev pub occurrences : String → List String → ℕ
occurrences x [] = 0
occurrences x (n ∷ names) = let rest = occurrences x names in if str_eq n x then suc rest else rest

unfoldable pub verify_checksums : String → List String → Result (Unit {0}) String
unfolding lines checksum_names
verify_checksums text expected = checksum_names (lines text) >>= λ names.
    fail_if
      (not (length names == length expected) || any (λ x. not (occurrences x names == 1)) expected)
      "checksums must contain exactly expected archives"
