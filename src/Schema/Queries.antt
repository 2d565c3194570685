-- ===== src/Schema/Queries.antt =====
-- schema.rs: the fixed catalog statements.
use pg_mcp.Prelude.{String}

abbrev pub relations_sql : String
relations_sql =
    "\nSELECT n.nspname, c.relname, c.relkind::text, c.oid::text\nFROM pg_namespace AS n\nJOIN pg_class AS c ON c.relnamespace = n.oid\nWHERE has_schema_privilege(n.oid, 'USAGE')\n  AND n.nspname <> 'information_schema'\n  AND n.nspname !~ '^pg_'\n  AND c.relkind IN ('r','p','v','m','f')\n  AND (\n    has_table_privilege(c.oid, 'SELECT')\n    OR has_table_privilege(c.oid, 'INSERT')\n    OR has_table_privilege(c.oid, 'UPDATE')\n    OR has_table_privilege(c.oid, 'DELETE')\n    OR EXISTS (\n      SELECT 1 FROM pg_attribute AS pa\n      WHERE pa.attrelid = c.oid AND pa.attnum > 0 AND NOT pa.attisdropped\n        AND (has_column_privilege(c.oid, pa.attnum, 'SELECT')\n          OR has_column_privilege(c.oid, pa.attnum, 'INSERT')\n          OR has_column_privilege(c.oid, pa.attnum, 'UPDATE'))\n    )\n  )\nORDER BY n.nspname, c.relname, c.oid\n"

abbrev pub columns_sql : String
columns_sql =
    "\nSELECT n.nspname,\n       c.relname,\n       a.attname,\n       a.attnum::text,\n       a.atttypid::text,\n       format_type(a.atttypid, a.atttypmod),\n       CASE WHEN a.attnotnull THEN 'f' ELSE 't' END,\n       pg_get_expr(ad.adbin, ad.adrelid),\n       a.attidentity::text,\n       CASE WHEN a.attgenerated <> '' THEN 't' ELSE 'f' END\nFROM pg_namespace AS n\nJOIN pg_class AS c ON c.relnamespace = n.oid\nJOIN pg_attribute AS a ON a.attrelid = c.oid\nLEFT JOIN pg_attrdef AS ad ON ad.adrelid = a.attrelid AND ad.adnum = a.attnum\nWHERE has_schema_privilege(n.oid, 'USAGE')\n  AND n.nspname <> 'information_schema'\n  AND n.nspname !~ '^pg_'\n  AND c.relkind IN ('r','p','v','m','f')\n  AND a.attnum > 0 AND NOT a.attisdropped\n  AND (\n    has_table_privilege(c.oid, 'SELECT')\n    OR has_table_privilege(c.oid, 'INSERT')\n    OR has_table_privilege(c.oid, 'UPDATE')\n    OR has_column_privilege(c.oid, a.attnum, 'SELECT')\n    OR has_column_privilege(c.oid, a.attnum, 'INSERT')\n    OR has_column_privilege(c.oid, a.attnum, 'UPDATE')\n  )\nORDER BY n.nspname, c.relname, a.attnum\n"

abbrev pub constraints_sql : String
constraints_sql =
    "\nSELECT n.nspname,\n       c.relname,\n       con.conname,\n       con.contype::text,\n       pg_get_constraintdef(con.oid, true)\nFROM pg_namespace AS n\nJOIN pg_class AS c ON c.relnamespace = n.oid\nJOIN pg_constraint AS con ON con.conrelid = c.oid\nWHERE has_schema_privilege(n.oid, 'USAGE')\n  AND n.nspname <> 'information_schema'\n  AND n.nspname !~ '^pg_'\n  AND c.relkind IN ('r','p','v','m','f')\n  AND (\n    has_table_privilege(c.oid, 'SELECT')\n    OR has_table_privilege(c.oid, 'INSERT')\n    OR has_table_privilege(c.oid, 'UPDATE')\n    OR has_table_privilege(c.oid, 'DELETE')\n  )\nORDER BY n.nspname, c.relname, con.conname\n"
