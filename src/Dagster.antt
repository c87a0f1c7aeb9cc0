-- ===== src/Dagster.antt =====
-- gridpulse/dagster_defs: the assets, as changes of the world, and their schedules.
pub mod Metadata
pub mod Ingest
pub mod Backup
pub mod Dbt
pub mod Lakehouse
pub mod Definitions
