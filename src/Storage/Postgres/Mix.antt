-- ===== src/Storage/Postgres/Mix.antt =====
-- The upsert into raw.generation_mix: `_UPSERT_GENERATION_MIX_SQL` and `upsert_generation_mix_rows`
-- of gridpulse/storage/postgres.py, with the constraints of
-- gridpulse/storage/migrations/005_raw_generation_mix.sql.
pub mod Upsert
use gridpulse.Prelude.{
  ℕ, nat_eq, String, Bool, Option, List, map, Result, ok, raise, Exec, data_error, ◌&&◌,
  if◌then◌else◌,
}
use gridpulse.Datetime.{DateTime}
use gridpulse.Contracts.Neso.{NesoGenerationMixRow}
use gridpulse.Storage.Keyed.{upsert}
use gridpulse.Storage.Pool.{Process}
use gridpulse.Storage.Postgres.{Db, Driver, MixRecord}
use gridpulse.Storage.Postgres.Write.{write_rows}

-- The tuple of the INSERT, in the order of its columns.
abbrev pub Values : Type 0 → Type 0
Values F = DateTime × F × F × F × F × F × F × F × F × F × F × F × F × F

unfoldable pub payload : {F : Type 0} → NesoGenerationMixRow F → Values F
payload r = (
  r.period_start_utc, r.gas_mw, r.coal_mw, r.nuclear_mw, r.wind_mw, r.wind_embedded_mw, r.hydro_mw,
  r.imports_mw, r.biomass_mw, r.other_mw, r.solar_mw, r.storage_mw, r.total_generation_mw,
  r.neso_carbon_intensity_gco2_per_kwh,
)

module _ {P F R : Type 0} (driver : Driver P F R) (now : ℕ) where
  open driver use {timestamptz, to_real, real_range}

  abbrev pub key : Values F → ℕ
  key v = timestamptz v.0

  unfoldable pub fresh : Values F → MixRecord R
  fresh v = record {
    period_start_utc = timestamptz v.0;
    gas_mw = to_real v.1;
    coal_mw = to_real v.2;
    nuclear_mw = to_real v.3;
    wind_mw = to_real v.4;
    wind_embedded_mw = to_real v.5;
    hydro_mw = to_real v.6;
    imports_mw = to_real v.7;
    biomass_mw = to_real v.8;
    other_mw = to_real v.9;
    solar_mw = to_real v.10;
    storage_mw = to_real v.11;
    total_generation_mw = to_real v.12;
    neso_carbon_intensity_gco2_per_kwh = to_real v.13;
    ingested_at_utc = now;
  }

  -- DO UPDATE SET
  unfoldable pub update : Values F → MixRecord R → MixRecord R
  update v r = record r {
    gas_mw = to_real v.1;
    coal_mw = to_real v.2;
    nuclear_mw = to_real v.3;
    wind_mw = to_real v.4;
    wind_embedded_mw = to_real v.5;
    hydro_mw = to_real v.6;
    imports_mw = to_real v.7;
    biomass_mw = to_real v.8;
    other_mw = to_real v.9;
    solar_mw = to_real v.10;
    storage_mw = to_real v.11;
    total_generation_mw = to_real v.12;
    neso_carbon_intensity_gco2_per_kwh = to_real v.13;
    ingested_at_utc = now;
  }

  -- the columns are REAL
  abbrev pub fits : Values F → Bool
  fits v =
      real_range v.1
      && real_range v.2
      && real_range v.3
      && real_range v.4
      && real_range v.5
      && real_range v.6
      && real_range v.7
      && real_range v.8
      && real_range v.9
      && real_range v.10
      && real_range v.11
      && real_range v.12
      && real_range v.13

  unfoldable pub statement : Values F → Db R → Result (Db R)
  unfolding fresh update
  statement v d =
      if fits v
      then ok (record d { generation_mix = upsert (key v) (fresh v) (update v) d.generation_mix })
      else raise data_error

  unfoldable pub upsert_generation_mix_rows :
      (String → Option String)
      → (String → Result P)
      → List (NesoGenerationMixRow F)
      → Exec (Process P (Db R)) ℕ
  unfolding statement payload
  upsert_generation_mix_rows environ new_pool rows =
      write_rows driver statement environ new_pool (map payload rows)
