-- ===== src/Lake.antt =====
-- gridpulse/dagster_defs/iceberg_assets.py and the scripts of the lake: what goes from
-- Postgres and from the Carbon Intensity API into the Iceberg tables.
pub mod Iceberg
pub mod Schemas
pub mod Catalog
pub mod Archive
pub mod Backfill
pub mod Query
