-- ===== src/Libpq/Dsn/Accepted.antt =====
-- What `Dsn::parse` accepts.
use pg_mcp.Prelude.{
  String, Bool, true, false, ◌&&◌, ◌||◌, Option, none, some, is_some, or, List, [], ◌∷◌, any, all,
  if◌then◌else◌, ok, ◌≡◌, ◌↔◌, refl, inl, inr, arith, Option-cases, Result-cases,
}
use pg_mcp.Protocol.Request.{contains_nul}
use pg_mcp.Libpq.Dsn.{
  Dsn, ConninfoOption, has_value, Seen, see, scan, parse, nothing_seen, named_database,
  nested_connection_string, same_ignoring_case,
}

abbrev is_readable : ConninfoOption → Bool
is_readable o = is_some o.keyword

abbrev is_keyword : String → ConninfoOption → Bool
is_keyword name o = elim o.keyword [ none ↦ false | some keyword ↦ same_ignoring_case keyword name ]

abbrev sets_service : ConninfoOption → Bool
sets_service o = is_keyword "service" o && has_value o.val

-- The database that the last option with keyword dbname and a text gives.
abbrev last_database : List ConninfoOption → Option String
last_database [] = none
last_database (o ∷ os) =
    or (last_database os) (if is_keyword "dbname" o then named_database none o.val else none)

scan_readable :
    (options : List ConninfoOption) (seen after : Seen)
    → scan options seen ≡ ok after
    → all is_readable options ≡ true
unfolding scan
scan_readable [] seen after h = refl
scan_readable (o ∷ os) seen after h = elim (Option-cases o.keyword) [
  | inl e ↦ absurd (ground (arith, e))
  | inr (k, e) ↦ ground (arith, e, scan_readable os (see k o.val seen) after)
]

scan_lem :
    (options : List ConninfoOption) (seen : Seen)
    → all is_readable options ≡ true
    → scan options seen
      ≡ ok (record {
        database = or (last_database options) seen.database;
        saw_dbname = any (is_keyword "dbname") options || seen.saw_dbname;
        saw_service = any sets_service options || seen.saw_service;
      })
unfolding scan
scan_lem [] seen h = refl
scan_lem (o ∷ os) seen h = elim (Option-cases o.keyword) [
  | inl e ↦ absurd (ground (arith, e))
  | inr (k, e) ↦ ground (arith, e, scan_lem os (see k o.val seen) (ground (arith, e)))
]

last_database_there :
    (options : List ConninfoOption) (database : String)
    → last_database options ≡ some database
    → any (is_keyword "dbname") options ≡ true
last_database_there [] database h = absurd (ground (arith))
last_database_there (o ∷ os) database h = elim (Option-cases (last_database os)) [
  | inl e ↦ ground (arith, e)
  | inr (x, e) ↦ ground (arith, e, last_database_there os x e)
]

module _ (conninfo_parse : String → Option (List ConninfoOption)) (value : String) where
  -- libpq reads the text, every keyword is UTF-8, no service is given a value, and the last
  -- option dbname with a text gives the database, which is no connection string itself.
  abbrev pub IsAuthoritative : Dsn → Type 0
  IsAuthoritative d =
      (options : List ConninfoOption) × (contains_nul value ≡ false)
      × (conninfo_parse value ≡ some options)
      × (all is_readable options ≡ true)
      × (any sets_service options ≡ false)
      × (last_database options ≡ some d.database)
      × (nested_connection_string d.database ≡ false)
      × (d.raw ≡ value)

  -- A text is accepted exactly if libpq reads it, it holds no NUL, every keyword is UTF-8, no
  -- service is given a value, and the last option dbname with a text names a database that is no
  -- connection string itself; that database and the text are what is kept.
  pub parse_iff : (d : Dsn) → (parse conninfo_parse value ≡ ok d) ↔ IsAuthoritative d
  unfolding parse
  parse_iff d = (
    λ h. elim (Option-cases (conninfo_parse value)) [
      | inl e ↦ absurd (ground (arith, e))
      | inr (options, e) ↦ elim (Result-cases (scan options nothing_seen)) [
        | inr (x, q) ↦ absurd (ground (arith, e, q))
        | inl (seen, q) ↦
            let readable = scan_readable options nothing_seen seen q in
            let all_seen = scan_lem options nothing_seen readable in
            elim (Option-cases (last_database options)) [
              | inl n ↦ absurd (ground (arith, e, q, all_seen, n))
              | inr (database, n) ↦ (
                options,
                ground (arith, e),
                e,
                readable,
                ground (arith, e, all_seen, n),
                ground (arith, e, all_seen, n),
                ground (arith, e, all_seen, n),
                ground (arith, e, all_seen, n),
              )
            ]
      ]
    ],
    λ (options, clean, e, readable, no_service, n, flat, raw). ground (
      arith,
      clean,
      e,
      scan_lem options nothing_seen readable,
      no_service,
      n,
      flat,
      raw,
      last_database_there options d.database n,
    ),
  )
