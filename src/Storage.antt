-- ===== src/Storage.antt =====
-- gridpulse/storage: the connection pool, the migrations, and the upserts into the raw tables.
pub mod Keyed
pub mod Pool
pub mod Postgres
pub mod Migrate
