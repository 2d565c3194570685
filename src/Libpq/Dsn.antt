-- ===== src/Libpq/Dsn.antt =====
-- libpq.rs: `Dsn::parse`, over the options that PQconninfoParse returns.
pub mod Accepted
use pg_mcp.Prelude.{
  ℕ, String, Bool, true, false, ◌&&◌, ◌||◌, not, ◌+◌, leb, ◌==◌, if◌then◌else◌, Option, none, some,
  is_some, List, [], ◌∷◌, map, any, all, len, Result, ok, err,
}
use pg_mcp.Protocol.Errors.{codes}
use pg_mcp.Protocol.Request.{contains_nul}
use pg_mcp.Libpq.{AdapterError, adapter_error, config}

-- `Dsn`: the text for libpq, and the database that it names.
pub record Dsn : Type 0 where
  pub raw : String
  pub database : String

-- A value of an option: a null pointer, bytes that are not UTF-8, or a text.
pub data OptionValue : Type 0 where
  null_value not_utf8_value : OptionValue
  text_value : String → OptionValue

-- A `PQconninfoOption`, whose keyword is not null; none is a keyword that is not UTF-8.
pub record ConninfoOption : Type 0 where
  pub keyword : Option String
  pub val : OptionValue

-- `to_ascii_lowercase`, on character codes.
abbrev pub lower : ℕ → ℕ
lower c = if leb 65 c && leb c 90 then c + 32 else c

abbrev pub lower_codes : String → List ℕ
lower_codes s = map lower (codes s)

abbrev pub same_codes : List ℕ → List ℕ → Bool
same_codes [] [] = true
same_codes [] (d ∷ ds) = false
same_codes (c ∷ cs) [] = false
same_codes (c ∷ cs) (d ∷ ds) = c == d && same_codes cs ds

abbrev pub starts_with : List ℕ → List ℕ → Bool
starts_with cs [] = true
starts_with [] (p ∷ ps) = false
starts_with (c ∷ cs) (p ∷ ps) = c == p && starts_with cs ps

-- `eq_ignore_ascii_case`.
unfoldable pub same_ignoring_case : String → String → Bool
same_ignoring_case s t = same_codes (lower_codes s) (lower_codes t)

-- `nested_connection_string`.
unfoldable pub nested_connection_string : String → Bool
nested_connection_string value =
    starts_with (lower_codes value) (codes "postgres://")
    || starts_with (lower_codes value) (codes "postgresql://")
    || any (λ c. c == 61) (codes value)
    || any (λ c. c == 10) (codes value)
    || any (λ c. c == 13) (codes value)

abbrev pub has_value : OptionValue → Bool
has_value null_value = false
has_value _ = true

-- What the scan of the options has seen.
pub record Seen : Type 0 where
  pub database : Option String
  pub saw_dbname : Bool
  pub saw_service : Bool

abbrev pub named_database : Option String → OptionValue → Option String
named_database before (text_value s) = if len s == 0 then before else some s
named_database before _ = before

-- The body of the loop.
abbrev pub see : String → OptionValue → Seen → Seen
see keyword val seen =
    let is_dbname = same_ignoring_case keyword "dbname" in
    record {
      database = if is_dbname then named_database seen.database val else seen.database;
      saw_dbname = is_dbname || seen.saw_dbname;
      saw_service = (same_ignoring_case keyword "service" && has_value val) || seen.saw_service;
    }

-- The loop over the options.
unfoldable pub scan : List ConninfoOption → Seen → Result Seen AdapterError
scan [] seen = ok seen
scan (o ∷ os) seen = elim o.keyword [
  | none ↦ err (adapter_error config)
  | some keyword ↦ scan os (see keyword o.val seen)
]

-- The end of `parse`.
abbrev pub decided : String → Seen → Result Dsn AdapterError
decided raw seen =
    if seen.saw_service || not seen.saw_dbname
    then err (adapter_error config)
    else elim seen.database [
      | none ↦ err (adapter_error config)
      | some database ↦
          if nested_connection_string database
          then err (adapter_error config)
          else ok (record { raw = raw; database = database })
    ]

abbrev pub nothing_seen : Seen
nothing_seen = record { database = none; saw_dbname = false; saw_service = false }

-- `parse`, over PQconninfoParse, which returns no options where it cannot read the text.
unfoldable pub parse : (String → Option (List ConninfoOption)) → String → Result Dsn AdapterError
parse conninfo_parse value =
    if contains_nul value then err (adapter_error config) else elim (conninfo_parse value) [
      | none ↦ err (adapter_error config)
      | some options ↦ elim (scan options nothing_seen) [
        | err e ↦ err e
        | ok seen ↦ decided value seen
      ]
    ]
