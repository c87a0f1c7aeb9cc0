-- ===== src/Lib.antt =====
-- GridPulse collects the carbon intensity, the generation mix and the Agile prices of the
-- electricity grid of Great Britain into Postgres, serves them by an API, and archives them in
-- Iceberg tables. This library models the core of its Python code, and the SQL of its marts, as
-- pure functions: code that changes a state takes it and returns it, and an exception is a value.
-- (`Exec S A` is a function from a state to a result and a state, and what was written before an
-- exception stays written.)
--
-- The parts, each with its file of definitions; the files beneath it prove what it promises:
-- - Prelude and Datetime: exceptions, lists, tests, and the part of Python's `datetime` that the
--   program uses, with times in microseconds.
-- - Contracts/CarbonIntensity, Contracts/Neso, Contracts/Octopus (gridpulse/contracts): the
--   responses of the three services, and their conversion to rows (`to_rows`).
-- - Ingestion/Http (gridpulse/ingestion/http.py) and Ingestion/Fetch (carbon_intensity.py,
--   neso.py and octopus.py beside it): the retry policy and the fetches, which ask, validate and
--   convert. httpx and tenacity are parameters (`Httpx`, `Tenacity`) with the laws of their
--   documentation, and every request is logged in the state. Three attempts are the code's own
--   bound.
-- - Storage/Pool, Storage/Postgres/Write and Storage/Postgres/Carbon, Mix, Price
--   (gridpulse/storage/postgres.py): the pool, and the three upserts. A table is an association
--   list by its primary key (Storage/Keyed), a statement is an upsert under the constraints of
--   gridpulse/storage/migrations, and a transaction commits or rolls back (`Driver`, a parameter
--   for psycopg).
-- - Storage/Migrate (gridpulse/storage/migrate.py): the migrations, each in its transaction, with
--   the committed database and the one that the transaction sees. What a file's SQL does to the
--   schema is a parameter.
-- - Heartbeat (gridpulse/lib/heartbeat.py): the pings around a job. Observability
--   (observability.py beside it): the settings of Sentry.
-- - Lake/Archive (gridpulse/dagster_defs/iceberg_assets.py) and Lake/Backfill
--   (scripts/backfill_carbon_intensity.py): the nightly copy of the last two days into Iceberg,
--   and the backfill in windows of 14 days. PyIceberg is a parameter (`Iceberg`). The backfill's
--   loop runs on fuel, one turn for each 14 days begun. Lake/Schemas
--   (gridpulse/storage/iceberg_schemas.py) has the schemas of the archive, and Lake/Catalog the
--   process-wide catalog (gridpulse/storage/iceberg.py) with the script that creates its tables
--   (scripts/init_iceberg_tables.py); `Catalogs` is PyIceberg's catalog. Lake/Query is the script
--   that queries the archive (scripts/query_lake.py), with DuckDB as a parameter (`DuckDb`).
-- - Dagster/Ingest and Dagster/Metadata (gridpulse/dagster_defs/assets.py), Dagster/Lakehouse
--   (iceberg_assets.py: the archive as an asset, and the expiry of snapshots), Dagster/Backup
--   (backup_assets.py) and Dagster/Dbt (dbt_assets.py): the assets, each under its heartbeat;
--   Dagster/Definitions (`__init__.py`) has the jobs and schedules as data. Processes, files and
--   boto3 are parameters (`Machine`); the uploads and the commands that were tried are kept in
--   the state.
-- - Dbt (dbt/models): the staging views and the marts that dbt builds of the raw tables,
--   mart_half_hourly in Dbt itself, mart_best_slots_24h in Dbt/Slots and mart_generation_mix_long
--   in Dbt/Mix. A model is a function of the tables that it reads; Postgres' arithmetic and its
--   order on REAL values are parameters (`Arithmetic`, `Order`).
-- - Api/Queries and Api/Marts (gridpulse/api/queries.py and gridpulse/lib/regions.py),
--   Api/Schemas (schemas.py), Api/Window and Api/Routes (routes/json_api.py), Api/Cache
--   (cache.py) and Api/Health (`db_ok` and `healthz`): the queries on tables as lists, the
--   endpoints in front of them, and the cache between the two; Api/Html (routes/html.py) has the
--   pages, each as its template with its context, and Api/App (main.py) the handlers of errors
--   and the pool at start and end. cachetools is a parameter (`TtlCache`) and each of the cache's
--   readings of its clock is an argument.
-- - Examples: instances of the parameters, and runs at concrete inputs.
--
-- The rows that a fetch makes are those that an upsert writes; the marts that dbt builds of the
-- raw tables are what the queries read (Dbt/Served follows a row from the upsert to the
-- endpoint); the archive reads the raw tables again, and its schemas are those of the raw tables;
-- an asset is a fetch, an upsert and a report in a row.
--
-- Not modelled: what dbt itself does with its models, the rendering of the HTML pages, FastAPI's
-- routing and rate limit, logging, and the deployment. Most of them are configuration of other
-- programs or calls of a library.
pub mod Prelude
pub mod Datetime
pub mod Contracts
pub mod Storage
pub mod Ingestion
pub mod Heartbeat
pub mod Observability
pub mod Lake
pub mod Dbt
pub mod Dagster
pub mod Api
mod Examples
