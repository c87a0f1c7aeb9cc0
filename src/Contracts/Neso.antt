-- ===== src/Contracts/Neso.antt =====
-- gridpulse/contracts/neso.py
pub mod Rows
use gridpulse.Prelude.{
  ℕ, String, Bool, true, false, Option, none, some, List, map, Result, ok, raise, value_error,
  type_error, ◌>>=◌, if◌then◌else◌,
}
use gridpulse.Datetime.{DateTime, replace_utc, is_aware}

-- The values that the validator of `DATETIME` can be given.
pub data Value : Type 0 where
  datetime : DateTime → Value
  text : String → Value
  other_value : Value

-- `fromisoformat` is `datetime.fromisoformat`, which raises on a text that is no ISO date.
module _ (fromisoformat : String → Result DateTime) where
  unfoldable pub parse_neso_datetime : Value → Result DateTime
  parse_neso_datetime (datetime d) = ok (if is_aware d then d else replace_utc d)
  parse_neso_datetime (text t) = do d ← fromisoformat t; ok (replace_utc d)
  parse_neso_datetime other_value = raise type_error

-- `F` is the type of Python's floats.
pub record GenerationMixRecord (F : Type 0) : Type 0 where
  pub id : ℕ
  pub datetime : DateTime
  pub gas : F
  pub coal : F
  pub nuclear : F
  pub wind : F
  pub wind_emb : F
  pub hydro : F
  pub imports : F
  pub biomass : F
  pub other : F
  pub solar : F
  pub storage : F
  pub generation : F
  pub carbon_intensity : F
  pub low_carbon : F
  pub zero_carbon : F
  pub renewable : F
  pub fossil : F
  pub gas_perc : F
  pub coal_perc : F
  pub nuclear_perc : F
  pub wind_perc : F
  pub wind_emb_perc : F
  pub hydro_perc : F
  pub imports_perc : F
  pub biomass_perc : F
  pub other_perc : F
  pub solar_perc : F
  pub storage_perc : F
  pub generation_perc : F
  pub low_carbon_perc : F
  pub zero_carbon_perc : F
  pub renewable_perc : F
  pub fossil_perc : F

pub record CkanResult (F : Type 0) : Type 0 where
  pub records : List (GenerationMixRecord F)
  pub total : Option ℕ

pub record NesoResponse (F : Type 0) : Type 0 where
  pub success : Bool
  pub result : CkanResult F

pub record NesoGenerationMixRow (F : Type 0) : Type 0 where
  pub period_start_utc : DateTime
  pub gas_mw : F
  pub coal_mw : F
  pub nuclear_mw : F
  pub wind_mw : F
  pub wind_embedded_mw : F
  pub hydro_mw : F
  pub imports_mw : F
  pub biomass_mw : F
  pub other_mw : F
  pub solar_mw : F
  pub storage_mw : F
  pub total_generation_mw : F
  pub neso_carbon_intensity_gco2_per_kwh : F

module _ {F : Type 0} where
  unfoldable pub neso_row : GenerationMixRecord F → NesoGenerationMixRow F
  neso_row r = record {
    period_start_utc = r.datetime;
    gas_mw = r.gas;
    coal_mw = r.coal;
    nuclear_mw = r.nuclear;
    wind_mw = r.wind;
    wind_embedded_mw = r.wind_emb;
    hydro_mw = r.hydro;
    imports_mw = r.imports;
    biomass_mw = r.biomass;
    other_mw = r.other;
    solar_mw = r.solar;
    storage_mw = r.storage;
    total_generation_mw = r.generation;
    neso_carbon_intensity_gco2_per_kwh = r.carbon_intensity;
  }

  unfoldable pub neso_to_rows : NesoResponse F → Result (List (NesoGenerationMixRow F))
  unfolding neso_row
  neso_to_rows r = if r.success then ok (map neso_row r.result.records) else raise value_error
