-- ===== src/Api.antt =====
-- gridpulse/api: the read queries, the cache in front of them, and the routes.
pub mod Sql
pub mod Schemas
pub mod Queries
pub mod Window
pub mod Cache
pub mod Health
pub mod Marts
pub mod Routes
pub mod Html
pub mod App
