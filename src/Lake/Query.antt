-- ===== src/Lake/Query.antt =====
-- scripts/query_lake.py: an SQL query on the archive by DuckDB. The text of a statement is kept with
-- its parameters in the state, and so is what is printed.
pub mod Order
use gridpulse.Prelude.{
  required, ℕ, String, Option, none, some, List, [], ◌∷◌, ◌++◌, map, Result, ok, raise, key_error,
  ◌>>=◌, Exec, continue, exit_code, if◌then◌else◌,
}
use text.Mathlib.Text.{starts_with}
use Prim.Native.String.{slice, len, ◌++◌ as append}
use gridpulse.Lake.Catalog.{namespace}

-- What `fetchall` gives, each value as `str` writes it, and the names of the columns.
pub record Answer : Type 0 where
  pub columns : List String
  pub rows : List (List String)

abbrev pub Statement : Type 0
Statement = String × List (String × String)

-- DuckDB: `C` are connections, `W` is the world that they work on. Logging is left out.
pub record DuckDb (W C : Type 0) : Type 0 where
  pub connect : Exec W C
  pub execute : C → Statement → Exec W Answer

pub record Shell (W : Type 0) : Type 0 where
  pub world : W
  pub tried : List Statement
  pub printed : List String

abbrev pub install_iceberg : Statement
install_iceberg = ("INSTALL iceberg; LOAD iceberg;", [])

abbrev pub install_httpfs : Statement
install_httpfs = ("INSTALL httpfs; LOAD httpfs;", [])

abbrev pub guess_version : Statement
guess_version = ("SET unsafe_enable_version_guessing = true;", [])

-- `if endpoint.startswith("https://"): endpoint = endpoint.removeprefix("https://")`
unfoldable pub host_of : String → String
host_of endpoint =
    if starts_with endpoint "https://" then slice endpoint 8 (len endpoint) else endpoint

abbrev pub lines : List String → String
lines [] = ""
lines (x ∷ xs) = append x (append "\n" (lines xs))

-- The query when the command line gives none; `${R2_BUCKET}` is replaced by `run`.
unfoldable pub default_query : String
default_query = lines (
    ""
    ∷ "-- Average national carbon intensity per month, last 24 months."
    ∷ "SELECT"
    ∷ "    date_trunc('month', period_start_utc) AS month,"
    ∷ "    avg(actual_gco2_per_kwh)               AS avg_actual_gco2_per_kwh,"
    ∷ "    avg(forecast_gco2_per_kwh)             AS avg_forecast_gco2_per_kwh,"
    ∷ "    count(*)                               AS half_hours"
    ∷ append "FROM iceberg_scan('s3://${R2_BUCKET}/" (append namespace "/carbon_intensity')")
    ∷ "WHERE region_id = 0"
    ∷ "  AND period_start_utc >= now() - INTERVAL 24 MONTH"
    ∷ "GROUP BY 1"
    ∷ "ORDER BY 1 DESC"
    ∷ "LIMIT 24;"
    ∷ [])

unfoldable pub secret_sql : String
secret_sql =
    append
      (lines (
        "" ∷ "        CREATE OR REPLACE SECRET r2 (" ∷ "            TYPE       S3,"
        ∷ "            KEY_ID     $key," ∷ "            SECRET     $secret,"
        ∷ "            ENDPOINT   $endpoint," ∷ "            REGION     'auto',"
        ∷ "            URL_STYLE  'path'" ∷ "        )" ∷ []))
      "        "

abbrev pub secret_statement : String × String × String → Statement
secret_statement (endpoint, key, secret) =
    (secret_sql, ("key", key) ∷ ("secret", secret) ∷ ("endpoint", host_of endpoint) ∷ [])

-- `"\t".join(values)`
abbrev pub join_tabs : List String → String
join_tabs [] = ""
join_tabs (x ∷ []) = x
join_tabs (x ∷ y ∷ xs) = append x (append "\t" (join_tabs (y ∷ xs)))

-- what is printed: the columns, and each row
abbrev pub shown : Answer → List String
shown answer = join_tabs answer.columns ∷ map join_tabs answer.rows

abbrev pub query_of : Option String → String
query_of none = default_query
query_of (some query) = query

module _ {W C : Type 0} (duckdb : DuckDb W C) (environ : String → Option String) where
  unfoldable pub execute : C → Statement → Exec (Shell W) Answer
  execute con statement s =
      let (r, w) = duckdb.execute con statement s.world in
      (r, record s { world = w; tried = s.tried ++ statement ∷ [] })

  -- The secret's parameters are looked up before the statement is run.
  abbrev pub access : Result (String × String × String)
  access = do
    endpoint ← required (environ "R2_ENDPOINT")
    key ← required (environ "R2_ACCESS_KEY_ID")
    secret ← required (environ "R2_SECRET_ACCESS_KEY")
    ok (endpoint, key, secret)

  unfoldable pub wire_duckdb_for_r2 : C → Exec (Shell W) Answer
  unfolding execute host_of
  wire_duckdb_for_r2 con s = continue (execute con install_iceberg s) λ _ s₁.
      continue (execute con install_httpfs s₁) λ _ s₂.
        continue (execute con guess_version s₂)
          λ _ s₃. continue (access, s₃) λ found s₄. execute con (secret_statement found) s₄

  abbrev pub connected : Exec (Shell W) C
  connected s = let (r, w) = duckdb.connect s.world in (r, record s { world = w })

  -- `replace` is the method of `str`
  unfoldable pub run : (String → String → String → String) → String → Exec (Shell W) ℕ
  unfolding wire_duckdb_for_r2 execute
  run replace query s = continue (connected s) λ con s₁.
      continue (wire_duckdb_for_r2 con s₁) λ _ s₂.
        continue (required (environ "R2_BUCKET"), s₂)
          λ bucket s₃.
            continue (execute con (replace query "${R2_BUCKET}" bucket, []) s₃)
              λ answer s₄. (ok 0, record s₄ { printed = s₄.printed ++ shown answer })

  -- `args` is the `--query` that argparse makes of the command line, or its SystemExit
  unfoldable pub main :
      (String → String → String → String) → Result (Option String) → Exec (Shell W) ℕ
  unfolding run default_query
  main replace args s =
      continue (args, s)
        λ query s'. let (r, s'') = run replace (query_of query) s' in (exit_code r, s'')
