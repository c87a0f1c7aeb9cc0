-- ===== src/Dbt.antt =====
-- dbt/models: the staging views, and the mart that joins carbon intensity and prices by the
-- half-hour (marts/mart_half_hourly.sql). A model is a function of the raw tables that it reads.
pub mod HalfHourly
pub mod Served
pub mod Slots
pub mod Mix
use gridpulse.Prelude.{Bool, Option, none, some, List, [], ◌∷◌, ◌++◌, map, filter, ◌==◌, ◌&&◌}
use gridpulse.Contracts.CarbonIntensity.{CiIndex}
use gridpulse.Storage.Postgres.{Db, CarbonRecord, PriceRecord}
use gridpulse.Api.Queries.{HalfHour}

-- SQL's `lower` on the five texts that the raw table admits, which are in lower case.
abbrev pub lower : CiIndex → CiIndex
lower index = index

-- `a LEFT JOIN b ON on`: a row of `a` with each row of `b` that it meets, or with NULLs.
module _ {A B C : Type 0} (on : A → B → Bool) (select : A → Option B → C) where
  abbrev pub with_matches : A → List B → List C
  with_matches a [] = select a none ∷ []
  with_matches a (b ∷ bs) = map (λ x. select a (some x)) (b ∷ bs)

  unfoldable pub left_join : List A → List B → List C
  left_join [] bs = []
  left_join (a ∷ as_) bs = with_matches a (filter (on a) bs) ++ left_join as_ bs

-- stg_carbon_intensity.sql
abbrev pub staged_carbon : CarbonRecord → CarbonRecord
staged_carbon r = record r { intensity_index = lower r.intensity_index }

module _ {R : Type 0} where
  abbrev pub stg_carbon_intensity : Db R → List CarbonRecord
  stg_carbon_intensity d = map (λ x. staged_carbon x.1) d.carbon_intensity

  -- stg_agile_price.sql
  abbrev pub stg_agile_price : Db R → List (PriceRecord R)
  stg_agile_price d = map (λ x. x.1) d.agile_price

  -- mart_half_hourly.sql
  abbrev pub same_half_hour : CarbonRecord → PriceRecord R → Bool
  same_half_hour c p = c.region_id == p.region_id && c.period_start_utc == p.period_start_utc

  abbrev pub price_inc_vat : Option (PriceRecord R) → Option R
  price_inc_vat none = none
  price_inc_vat (some p) = some p.price_pence_per_kwh_inc_vat

  abbrev pub price_exc_vat : Option (PriceRecord R) → Option R
  price_exc_vat none = none
  price_exc_vat (some p) = some p.price_pence_per_kwh_exc_vat

  abbrev pub half_hour : CarbonRecord → Option (PriceRecord R) → HalfHour R
  half_hour c p = record {
    region_id = c.region_id;
    period_start_utc = c.period_start_utc;
    period_end_utc = c.period_end_utc;
    forecast_gco2_per_kwh = c.forecast_gco2_per_kwh;
    actual_gco2_per_kwh = c.actual_gco2_per_kwh;
    intensity_index = some c.intensity_index;
    price_pence_per_kwh_inc_vat = price_inc_vat p;
    price_pence_per_kwh_exc_vat = price_exc_vat p;
  }

  unfoldable pub mart_half_hourly : Db R → List (HalfHour R)
  unfolding left_join
  mart_half_hourly d =
      left_join same_half_hour half_hour (stg_carbon_intensity d) (stg_agile_price d)
