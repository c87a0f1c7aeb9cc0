-- ===== src/Contracts/CarbonIntensity.antt =====
-- gridpulse/contracts/carbon_intensity.py
pub mod Rows
use gridpulse.Prelude.{
  ℕ, String, ℤ, Bool, Option, none, List, [], ◌∷◌, ◌++◌, map, ◌||◌, ◌==◌, if◌then◌else◌,
}
use gridpulse.Datetime.{DateTime}

-- The literals "very low", "low", "moderate", "high" and "very high".
pub data CiIndex : Type 0 where
  very_low low moderate high very_high : CiIndex

pub record NationalIntensity : Type 0 where
  pub forecast : ℤ
  pub actual : Option ℤ
  pub index : CiIndex

pub record NationalPeriod : Type 0 where
  pub from_ : DateTime
  pub to : DateTime
  pub intensity : NationalIntensity

pub record NationalResponse : Type 0 where
  pub periods : List NationalPeriod

pub record RegionalIntensity : Type 0 where
  pub forecast : ℤ
  pub index : CiIndex

-- `F` is the type of Python's floats.
pub record GenerationMixEntry (F : Type 0) : Type 0 where
  pub fuel : String
  pub perc : F

pub record Region (F : Type 0) : Type 0 where
  pub regionid : ℕ
  pub dnoregion : String
  pub shortname : String
  pub intensity : RegionalIntensity
  pub generationmix : List (GenerationMixEntry F)

pub record RegionalPeriod (F : Type 0) : Type 0 where
  pub from_ : DateTime
  pub to : DateTime
  pub regions : List (Region F)

pub record RegionalResponse (F : Type 0) : Type 0 where
  pub periods : List (RegionalPeriod F)

pub record CarbonIntensityRow : Type 0 where
  pub region_id : ℕ
  pub period_start_utc : DateTime
  pub period_end_utc : DateTime
  pub forecast_gco2_per_kwh : ℤ
  pub actual_gco2_per_kwh : Option ℤ
  pub intensity_index : CiIndex

abbrev pub national_region_id : ℕ
national_region_id = 0

-- `regionid in _ROLLUP_REGION_IDS`
unfoldable pub is_rollup : ℕ → Bool
is_rollup i = i == 15 || i == 16 || i == 17 || i == 18

unfoldable pub national_row : NationalPeriod → CarbonIntensityRow
national_row p = record {
  region_id = national_region_id;
  period_start_utc = p.from_;
  period_end_utc = p.to;
  forecast_gco2_per_kwh = p.intensity.forecast;
  actual_gco2_per_kwh = p.intensity.actual;
  intensity_index = p.intensity.index;
}

unfoldable pub national_to_rows : NationalResponse → List CarbonIntensityRow
unfolding national_row
national_to_rows r = map national_row r.periods

module _ {F : Type 0} where
  unfoldable pub regional_row : RegionalPeriod F → Region F → CarbonIntensityRow
  regional_row period region = record {
    region_id = region.regionid;
    period_start_utc = period.from_;
    period_end_utc = period.to;
    forecast_gco2_per_kwh = region.intensity.forecast;
    actual_gco2_per_kwh = none;
    intensity_index = region.intensity.index;
  }

  -- the inner loop, `rows` so far
  unfoldable pub append_regions :
      RegionalPeriod F → List (Region F) → List CarbonIntensityRow → List CarbonIntensityRow
  unfolding regional_row is_rollup
  append_regions period [] rows = rows
  append_regions period (region ∷ rest) rows =
      append_regions period rest
        (if is_rollup region.regionid then rows else rows ++ regional_row period region ∷ [])

  -- the outer loop
  unfoldable pub append_periods :
      List (RegionalPeriod F) → List CarbonIntensityRow → List CarbonIntensityRow
  unfolding append_regions
  append_periods [] rows = rows
  append_periods (period ∷ rest) rows =
      append_periods rest (append_regions period period.regions rows)

  unfoldable pub regional_to_rows : RegionalResponse F → List CarbonIntensityRow
  unfolding append_periods
  regional_to_rows r = append_periods r.periods []
