-- ===== src/Examples.antt =====
-- Concrete runs of the modelled code, and the theorems at them: no code is modelled here.
mod Memory
mod Storage
mod Contracts
mod Client
mod Cached
mod Table
mod Lake
mod Api
mod Ingestion
mod Prices
mod Archive
mod Jobs
mod Pages
mod Runs
mod Marts
mod Current
mod Query
