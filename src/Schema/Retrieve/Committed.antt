-- ===== src/Schema/Retrieve/Committed.antt =====
-- What a retrieval that succeeds has done, and what one that fails leaves behind.
use pg_mcp.Prelude.{ℕ, Result, ok, err, ◌≡◌, ◌⊎◌, inl, inr, arith, Result-cases}
use pg_mcp.Protocol.Json.Canonical.{Writer}
use pg_mcp.Protocol.Catalog.{SchemaResult}
use pg_mcp.Config.{Config}
use pg_mcp.Libpq.{Adapter, PollControl, ResultSet, SchemaError}
use pg_mcp.Schema.Queries.{relations_sql, columns_sql, constraints_sql}
use pg_mcp.Schema.Assembly.{assemble}
use pg_mcp.Schema.Retrieve.{catalog_query, execute_checked, retrieve_inner, retrieve, begin_sql}

module _ (to_vec : Writer) (a : Adapter) (config : Config) (deadline : ℕ) (control : PollControl)
    (conn : a.Connection) (now : ℕ) where
  -- The calls of a retrieval in their order, each on the connection that the one before left.
  abbrev begun : Result (Unit {0}) SchemaError × a.Connection × ℕ
  begun = execute_checked to_vec a config deadline control begin_sql conn now

  abbrev relations : Result ResultSet SchemaError × a.Connection × ℕ
  relations = catalog_query to_vec a config deadline control relations_sql begun.1 begun.2

  abbrev columns : Result ResultSet SchemaError × a.Connection × ℕ
  columns = catalog_query to_vec a config deadline control columns_sql relations.1 relations.2

  abbrev constraints : Result ResultSet SchemaError × a.Connection × ℕ
  constraints = catalog_query to_vec a config deadline control constraints_sql columns.1 columns.2

  abbrev committed : Result (Unit {0}) SchemaError × a.Connection × ℕ
  committed = execute_checked to_vec a config deadline control "COMMIT" constraints.1 constraints.2

  -- BEGIN, the three queries and COMMIT were answered in this order, on nothing but what the call
  -- before left, and the response is assembled from the rows of the three answers.
  abbrev pub IsCommitted : SchemaResult → Type 0
  IsCommitted snapshot =
      (r : ResultSet) × (c : ResultSet) × (k : ResultSet) × (begun.0 ≡ ok tt)
      × (relations.0 ≡ ok r)
      × (columns.0 ≡ ok c)
      × (constraints.0 ≡ ok k)
      × (assemble to_vec config r.rows c.rows k.rows ≡ ok snapshot)
      × (committed.0 ≡ ok tt)
      × ((retrieve to_vec a config deadline control conn now).1 ≡ committed.1)

  -- A retrieval that succeeds has had BEGIN, its three queries and COMMIT answered in this order,
  -- each on the connection that the one before left, and its response is assembled from the rows of
  -- the three answers.
  pub retrieve-IsCommitted :
      (snapshot : SchemaResult)
      → (retrieve to_vec a config deadline control conn now).0 ≡ ok snapshot
      → IsCommitted snapshot
  unfolding retrieve retrieve_inner
  retrieve-IsCommitted snapshot h = elim (Result-cases begun.0) [
    | inr (x, e) ↦ absurd (ground (arith, e))
    | inl (_, e1) ↦ elim (Result-cases relations.0) [
      | inr (x, e) ↦ absurd (ground (arith, e1, e))
      | inl (r, e2) ↦ elim (Result-cases columns.0) [
        | inr (x, e) ↦ absurd (ground (arith, e1, e2, e))
        | inl (c, e3) ↦ elim (Result-cases constraints.0) [
          | inr (x, e) ↦ absurd (ground (arith, e1, e2, e3, e))
          | inl (k, e4) ↦ elim (Result-cases (assemble to_vec config r.rows c.rows k.rows)) [
            | inr (x, e) ↦ absurd (ground (arith, e1, e2, e3, e4, e))
            | inl (s, e5) ↦ elim (Result-cases committed.0) [
              | inr (x, e) ↦ absurd (ground (arith, e1, e2, e3, e4, e5, e))
              | inl (_, e6) ↦ (
                r,
                c,
                k,
                ground (arith, e1),
                e2,
                e3,
                e4,
                ground (arith, e1, e2, e3, e4, e5, e6),
                ground (arith, e6),
                ground (arith, e1, e2, e3, e4, e5, e6),
              )
            ]
          ]
        ]
      ]
    ]
  ]

  -- Either BEGIN failed and nothing followed it, or the last call on the connection was ROLLBACK.
  abbrev pub IsRolledBack : SchemaError → Type 0
  IsRolledBack e =
      let (_, conn', now') = retrieve to_vec a config deadline control conn now in
      ((begun.0 ≡ err e) × (conn' ≡ begun.1) × (now' ≡ begun.2))
      ⊎ ((before : a.Connection) × (instant : ℕ) × (conn'
            ≡ (a.execute "ROLLBACK" deadline control before instant).1)
          × (now' ≡ (a.execute "ROLLBACK" deadline control before instant).2))

  -- A retrieval that fails either failed at BEGIN and did nothing after it, or made ROLLBACK its
  -- last call.
  pub retrieve-IsRolledBack :
      (e : SchemaError)
      → (retrieve to_vec a config deadline control conn now).0 ≡ err e
      → IsRolledBack e
  unfolding retrieve
  retrieve-IsRolledBack x h = elim (Result-cases begun.0) [
    | inr (y, e) ↦ inl (ground (arith, e), ground (arith, e), ground (arith, e))
    | inl (_, e1) ↦
        let inner = retrieve_inner to_vec a config deadline control begun.1 begun.2 in
        elim (Result-cases inner.0) [
          | inr (y, e) ↦ inr (inner.1, inner.2, ground (arith, e1, e), ground (arith, e1, e))
          | inl (s, e2) ↦
              let last =
                execute_checked to_vec a config deadline control "COMMIT" inner.1 inner.2 in
              elim (Result-cases last.0) [
                | inl (_, e) ↦ absurd (ground (arith, e1, e2, e))
                | inr (y, e) ↦
                    inr (last.1, last.2, ground (arith, e1, e2, e), ground (arith, e1, e2, e))
              ]
        ]
  ]
