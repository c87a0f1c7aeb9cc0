-- ===== src/Dagster/Definitions.antt =====
-- gridpulse/dagster_defs/__init__.py: the jobs with the assets that they select, and the schedules
-- with their jobs.
use gridpulse.Prelude.{String, List, [], ◌∷◌}

pub record Job : Type 0 where
  pub name : String
  pub selection : List String

pub record Schedule : Type 0 where
  pub name : String
  pub job : Job
  pub cron_schedule : String
  pub execution_timezone : String

abbrev job : String → List String → Job
job name selection = record { name = name; selection = selection }

abbrev schedule : String → Job → String → Schedule
schedule name of cron = record {
  name = name;
  job = of;
  cron_schedule = cron;
  execution_timezone = "UTC";
}

unfoldable pub carbon_intensity_job : Job
carbon_intensity_job =
    job "carbon_intensity_ingest" ("carbon_intensity_national" ∷ "carbon_intensity_regional" ∷ [])

unfoldable pub generation_mix_job : Job
generation_mix_job = job "generation_mix_ingest" ("generation_mix" ∷ [])

unfoldable pub agile_price_job : Job
agile_price_job = job "agile_price_ingest" ("agile_price" ∷ [])

unfoldable pub dbt_build_job : Job
dbt_build_job = job "transform" ("dbt_build" ∷ [])

unfoldable pub archive_to_iceberg_job : Job
archive_to_iceberg_job = job "archive" ("archive_to_iceberg" ∷ [])

unfoldable pub expire_snapshots_job : Job
expire_snapshots_job = job "snapshot_gc" ("expire_snapshots" ∷ [])

unfoldable pub backup_postgres_job : Job
backup_postgres_job = job "backup" ("backup_postgres" ∷ [])

unfoldable pub carbon_intensity_30min_schedule : Schedule
unfolding carbon_intensity_job
carbon_intensity_30min_schedule =
    schedule "carbon_intensity_30min" carbon_intensity_job "2,32 * * * *"

unfoldable pub generation_mix_30min_schedule : Schedule
unfolding generation_mix_job
generation_mix_30min_schedule = schedule "generation_mix_30min" generation_mix_job "5,35 * * * *"

unfoldable pub agile_price_daily_schedule : Schedule
unfolding agile_price_job
agile_price_daily_schedule = schedule "agile_price_daily" agile_price_job "30 16 * * *"

unfoldable pub dbt_build_daily_schedule : Schedule
unfolding dbt_build_job
dbt_build_daily_schedule = schedule "transform_daily" dbt_build_job "0 4 * * *"

unfoldable pub archive_to_iceberg_daily_schedule : Schedule
unfolding archive_to_iceberg_job
archive_to_iceberg_daily_schedule = schedule "archive_daily" archive_to_iceberg_job "0 2 * * *"

unfoldable pub expire_snapshots_weekly_schedule : Schedule
unfolding expire_snapshots_job
expire_snapshots_weekly_schedule = schedule "snapshot_gc_weekly" expire_snapshots_job "0 3 * * 0"

unfoldable pub backup_postgres_daily_schedule : Schedule
unfolding backup_postgres_job
backup_postgres_daily_schedule = schedule "backup_daily" backup_postgres_job "30 3 * * *"

-- `defs`
pub record Definitions : Type 0 where
  pub assets : List String
  pub jobs : List Job
  pub schedules : List Schedule

unfoldable pub defs : Definitions
unfolding carbon_intensity_30min_schedule generation_mix_30min_schedule agile_price_daily_schedule
    dbt_build_daily_schedule archive_to_iceberg_daily_schedule expire_snapshots_weekly_schedule
    backup_postgres_daily_schedule
defs = record {
  assets =
      "carbon_intensity_national" ∷ "carbon_intensity_regional" ∷ "generation_mix" ∷ "agile_price"
      ∷ "dbt_build" ∷ "archive_to_iceberg" ∷ "expire_snapshots" ∷ "backup_postgres" ∷ [];
  jobs =
      carbon_intensity_job ∷ generation_mix_job ∷ agile_price_job ∷ dbt_build_job
      ∷ archive_to_iceberg_job ∷ expire_snapshots_job ∷ backup_postgres_job ∷ [];
  schedules =
      carbon_intensity_30min_schedule ∷ generation_mix_30min_schedule ∷ agile_price_daily_schedule
      ∷ dbt_build_daily_schedule ∷ archive_to_iceberg_daily_schedule
      ∷ expire_snapshots_weekly_schedule ∷ backup_postgres_daily_schedule ∷ [];
}
