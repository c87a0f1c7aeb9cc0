-- ===== src/Ingestion.antt =====
-- gridpulse/ingestion: one client with one retry policy, and a fetch function for each source.
pub mod Http
pub mod Retry
pub mod Fetch
