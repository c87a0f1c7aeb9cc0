-- ===== src/Api/Schemas.antt =====
-- gridpulse/api/schemas.py: what the API answers. `R` is the type of the REAL columns' values.
use gridpulse.Prelude.{ℕ, String, ℤ, Bool, Option, List}
use gridpulse.Datetime.{DateTime}
use gridpulse.Contracts.CarbonIntensity.{CiIndex}

pub record Region : Type 0 where
  pub region_id : ℕ
  pub canonical_code : String
  pub slug : String
  pub name : String
  pub octopus_code : Option String

pub record RegionsResponse : Type 0 where
  pub regions : List Region

pub record CarbonIntensityPoint : Type 0 where
  pub region_id : ℕ
  pub period_start_utc : ℕ
  pub period_end_utc : ℕ
  pub forecast_gco2_per_kwh : ℤ
  pub actual_gco2_per_kwh : Option ℤ
  pub intensity_index : CiIndex

pub record CarbonIntensityCurrentResponse : Type 0 where
  pub region : Region
  pub current : CarbonIntensityPoint

pub record CarbonIntensityRangeResponse : Type 0 where
  pub region : Region
  pub points : List CarbonIntensityPoint

pub record AgilePricePoint (R : Type 0) : Type 0 where
  pub region_id : ℕ
  pub period_start_utc : ℕ
  pub period_end_utc : ℕ
  pub price_pence_per_kwh_inc_vat : R
  pub price_pence_per_kwh_exc_vat : R

pub record AgilePriceCurrentResponse (R : Type 0) : Type 0 where
  pub region : Region
  pub current : Option (AgilePricePoint R)

pub record AgilePriceRangeResponse (R : Type 0) : Type 0 where
  pub region : Region
  pub points : List (AgilePricePoint R)

-- `F` is the type of floats.
pub record GenerationMixFuel (F : Type 0) : Type 0 where
  pub fuel : String
  pub mw : F
  pub is_renewable : Bool
  pub share_of_generation_pct : Option F

pub record GenerationMixCurrentResponse (F : Type 0) : Type 0 where
  pub period_start_utc : ℕ
  pub fuels : List (GenerationMixFuel F)

pub record BestSlot (R : Type 0) : Type 0 where
  pub period_start_utc : ℕ
  pub period_end_utc : ℕ
  pub price_pence_per_kwh_inc_vat : Option R
  pub forecast_gco2_per_kwh : Option ℤ
  pub cheapest_rank : Option ℕ
  pub greenest_rank : Option ℕ

pub record BestSlotsResponse (R : Type 0) : Type 0 where
  pub region : Region
  pub computed_at_utc : DateTime
  pub slots : List (BestSlot R)

pub record LastIngest : Type 0 where
  pub source : String
  pub last_period_utc : Option ℕ
  pub last_ingest_utc : Option ℕ
  pub row_count : ℕ
