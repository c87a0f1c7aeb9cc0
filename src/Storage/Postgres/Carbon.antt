-- ===== src/Storage/Postgres/Carbon.antt =====
-- The upsert into raw.carbon_intensity: `_UPSERT_CARBON_INTENSITY_SQL` and
-- `upsert_carbon_intensity_rows` of gridpulse/storage/postgres.py, with the constraints of
-- gridpulse/storage/migrations/004_raw_carbon_intensity.sql.
pub mod Settled
pub mod Table
pub mod Upsert
use gridpulse.Prelude.{
  ℕ, String, ℤ, Bool, true, false, Option, none, some, List, [], ◌∷◌, map, Result, ok, raise, Exec,
  integrity_error, data_error, ◌&&◌, ◌||◌, ◌==◌, ltb, leb, is_smallint, if◌then◌else◌,
}
use gridpulse.Datetime.{DateTime}
use gridpulse.Contracts.CarbonIntensity.{CiIndex, CarbonIntensityRow}
use gridpulse.Storage.Keyed.{upsert}
use gridpulse.Storage.Pool.{Process}
use gridpulse.Storage.Postgres.{Key, key_eq, Db, Driver, CarbonRecord, DnoRegion}
use gridpulse.Storage.Postgres.Write.{write_rows}

-- The tuple of the INSERT, in the order of its columns.
abbrev pub Values : Type 0
Values = ℕ × DateTime × DateTime × ℤ × Option ℤ × CiIndex

unfoldable pub payload : CarbonIntensityRow → Values
payload r = (
  r.region_id, r.period_start_utc, r.period_end_utc, r.forecast_gco2_per_kwh, r.actual_gco2_per_kwh,
  r.intensity_index,
)

-- SQL's COALESCE
abbrev pub coalesce : {A : Type 0} → Option A → Option A → Option A
coalesce (some a) old = some a
coalesce none old = old

-- REFERENCES ref.dno_region(region_id)
unfoldable pub has_region : ℕ → List DnoRegion → Bool
has_region i [] = false
has_region i (r ∷ rs) = r.region_id == i || has_region i rs

abbrev pub is_smallint? : Option ℤ → Bool
is_smallint? none = true
is_smallint? (some a) = is_smallint a

-- `now` is the time of the transaction, which is what `now()` gives in all of it.
module _ {P F R : Type 0} (driver : Driver P F R) (now : ℕ) where
  open driver use {timestamptz}

  abbrev pub key : Values → Key
  key v = (v.0, timestamptz v.1)

  unfoldable pub fresh : Values → CarbonRecord
  fresh v = record {
    region_id = v.0;
    period_start_utc = timestamptz v.1;
    period_end_utc = timestamptz v.2;
    forecast_gco2_per_kwh = v.3;
    actual_gco2_per_kwh = v.4;
    intensity_index = v.5;
    ingested_at_utc = now;
  }

  -- DO UPDATE SET
  unfoldable pub update : Values → CarbonRecord → CarbonRecord
  update v r = record r {
    period_end_utc = timestamptz v.2;
    forecast_gco2_per_kwh = v.3;
    actual_gco2_per_kwh = coalesce v.4 r.actual_gco2_per_kwh;
    intensity_index = v.5;
    ingested_at_utc = now;
  }

  -- the columns are SMALLINT
  abbrev pub fits : Values → Bool
  fits v = leb v.0 32767 && is_smallint v.3 && is_smallint? v.4

  -- CHECK (period_end_utc > period_start_utc), and the foreign key. The CHECK on the index holds
  -- by the type of the index.
  abbrev pub allowed : Values → Db R → Bool
  allowed v d = ltb (timestamptz v.1) (timestamptz v.2) && has_region v.0 d.dno_region

  unfoldable pub statement : Values → Db R → Result (Db R)
  unfolding fresh update has_region
  statement v d =
      if fits v
      then if allowed v d
        then ok
            (record d { carbon_intensity = upsert (key v) (fresh v) (update v) d.carbon_intensity })
        else raise integrity_error
      else raise data_error

  unfoldable pub upsert_carbon_intensity_rows :
      (String → Option String)
      → (String → Result P)
      → List CarbonIntensityRow
      → Exec (Process P (Db R)) ℕ
  unfolding statement payload
  upsert_carbon_intensity_rows environ new_pool rows =
      write_rows driver statement environ new_pool (map payload rows)
