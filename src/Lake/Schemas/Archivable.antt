-- ===== src/Lake/Schemas/Archivable.antt =====
-- The rows of the raw tables fit the schemas of the archive: what
-- gridpulse/storage/postgres.py writes, gridpulse/dagster_defs/iceberg_assets.py can archive.
pub mod Written
use gridpulse.Prelude.{
  ℕ, String, ℤ, pos, ◌≡◌, refl, Bool, true, false, ◌↔◌, Option, none, some, List, [], ◌∷◌, map,
  Result, ok, Exec, All, arith, ◌&&◌, &&-true, is_smallint, leb, guards-ok,
}
use mathlib.Core.Path.{subst}
use gridpulse.Contracts.CarbonIntensity.{
  CiIndex, very_low, low, moderate, high, very_high, CarbonIntensityRow,
}
use gridpulse.Contracts.Neso.{NesoGenerationMixRow}
use gridpulse.Contracts.Octopus.{AgilePriceRow}
use gridpulse.Storage.Keyed.{upsert, All-upsert}
use gridpulse.Storage.Pool.{Process}
use gridpulse.Storage.Postgres.{Db, Driver, CarbonRecord, MixRecord, PriceRecord}
use gridpulse.Storage.Postgres.Carbon.{coalesce, is_smallint?}
use gridpulse.Lake.Archive.{Row, strip_row}
use gridpulse.Lake.Schemas.{
  Schema, Value, null, int, timestamp, real, text, conforms, covers, is_taken, field, integer_type,
  is_int32, carbon_intensity_schema, generation_mix_schema, agile_price_schema,
}

-- `Literal["very low", …]`
abbrev pub index_text : CiIndex → String
index_text very_low = "very low"
index_text low = "low"
index_text moderate = "moderate"
index_text high = "high"
index_text very_high = "very high"

module _ {R : Type 0} where
  abbrev pub nullable : Option ℤ → Value R
  nullable none = null
  nullable (some a) = int a

  -- The dicts that `SELECT *` gives of the three tables.
  unfoldable pub mix_dict : MixRecord R → Row (Value R)
  mix_dict r = record {
    period_start_utc = r.period_start_utc;
    others =
        ("gas_mw", real r.gas_mw)
        ∷ ("coal_mw", real r.coal_mw)
        ∷ ("nuclear_mw", real r.nuclear_mw)
        ∷ ("wind_mw", real r.wind_mw)
        ∷ ("wind_embedded_mw", real r.wind_embedded_mw)
        ∷ ("hydro_mw", real r.hydro_mw)
        ∷ ("imports_mw", real r.imports_mw)
        ∷ ("biomass_mw", real r.biomass_mw)
        ∷ ("other_mw", real r.other_mw)
        ∷ ("solar_mw", real r.solar_mw)
        ∷ ("storage_mw", real r.storage_mw)
        ∷ ("total_generation_mw", real r.total_generation_mw)
        ∷ ("neso_carbon_intensity_gco2_per_kwh", real r.neso_carbon_intensity_gco2_per_kwh)
        ∷ ("ingested_at_utc", timestamp r.ingested_at_utc)
        ∷ [];
  }

  unfoldable pub price_dict : PriceRecord R → Row (Value R)
  price_dict r = record {
    period_start_utc = r.period_start_utc;
    others =
        ("region_id", int (pos r.region_id))
        ∷ ("period_end_utc", timestamp r.period_end_utc)
        ∷ ("price_pence_per_kwh_inc_vat", real r.price_pence_per_kwh_inc_vat)
        ∷ ("price_pence_per_kwh_exc_vat", real r.price_pence_per_kwh_exc_vat)
        ∷ ("ingested_at_utc", timestamp r.ingested_at_utc)
        ∷ [];
  }

  abbrev carbon_values : CarbonRecord → List (String × Value R)
  carbon_values r =
      ("region_id", int (pos r.region_id))
      ∷ ("period_end_utc", timestamp r.period_end_utc)
      ∷ ("forecast_gco2_per_kwh", int r.forecast_gco2_per_kwh)
      ∷ ("actual_gco2_per_kwh", nullable r.actual_gco2_per_kwh)
      ∷ ("intensity_index", text (index_text r.intensity_index))
      ∷ ("ingested_at_utc", timestamp r.ingested_at_utc)
      ∷ []

  -- all the keys of a row as a dict
  abbrev pub entries : Row (Value R) → List (String × Value R)
  entries r = ("period_start_utc", timestamp r.period_start_utc) ∷ r.others

  -- The row without its `ingested_at_utc` has a value of the right type in every column of the
  -- schema, none where a value is required, and no key but those of the schema.
  abbrev pub Fits : Schema → Row (Value R) → Type 0
  Fits schema r =
      (conforms schema (entries (strip_row r)) ≡ true)
      × (covers schema (entries (strip_row r)) ≡ true)

  pub mix_dict-Fits : (r : MixRecord R) → Fits generation_mix_schema (mix_dict r)
  unfolding mix_dict conforms covers generation_mix_schema
  mix_dict-Fits r = (refl, refl)

  pub price_dict-Fits :
      (r : PriceRecord R)
      → (is_int32 (pos r.region_id) ≡ true) ↔ Fits agile_price_schema (price_dict r)
  unfolding price_dict conforms covers agile_price_schema
  price_dict-Fits r = (λ h. (rw h refl, refl), λ f. (&&-true _ _ f.0).0)

abbrev IsInt32? : Option ℤ → Type 0
IsInt32? none = Unit {0}
IsInt32? (some a) = is_int32 a ≡ true

pub is_smallint-int32 : (a : ℤ) → is_smallint a ≡ true → is_int32 a ≡ true
is_smallint-int32 a h = ground arith

pub is_smallint?-int32 : (o : Option ℤ) → is_smallint? o ≡ true → IsInt32? o
is_smallint?-int32 none h = tt
is_smallint?-int32 (some a) h = is_smallint-int32 a h

pub coalesce-IsInt32 : (a b : Option ℤ) → IsInt32? a → IsInt32? b → IsInt32? (coalesce a b)
coalesce-IsInt32 none b h k = k
coalesce-IsInt32 (some a) b h k = h

module _ (R : Type 0) where
  unfoldable pub carbon_dict : CarbonRecord → Row (Value R)
  carbon_dict r = record { period_start_utc = r.period_start_utc; others = carbon_values r }

  abbrev taken_actual : Option ℤ → Bool
  taken_actual o =
      is_taken (field 5 "actual_gco2_per_kwh" integer_type false) (some (nullable {R = R} o))

  taken_actual_iff : (o : Option ℤ) → (taken_actual o ≡ true) ↔ IsInt32? o
  taken_actual_iff none = (λ h. tt, λ h. refl)
  taken_actual_iff (some a) = (λ h. h, λ h. h)

  three_true :
      (a b c : Bool) → ((a && (b && (c && true))) ≡ true) ↔ ((a ≡ true) × (b ≡ true) × (c ≡ true))
  three_true a b c = ground arith

  -- The integers of a row are in the range of IntegerType.
  abbrev IsNarrow : CarbonRecord → Type 0
  IsNarrow r =
      (is_int32 (pos r.region_id) ≡ true)
      × (is_int32 r.forecast_gco2_per_kwh ≡ true)
      × IsInt32? r.actual_gco2_per_kwh

  pub carbon_dict-Fits :
      (r : CarbonRecord) → IsNarrow r ↔ Fits carbon_intensity_schema (carbon_dict r)
  unfolding carbon_dict conforms covers carbon_intensity_schema
  carbon_dict-Fits r =
      let (there, back) =
        three_true (is_int32 (pos r.region_id)) (is_int32 r.forecast_gco2_per_kwh)
          (taken_actual r.actual_gco2_per_kwh) in
      let (narrow, taken) = taken_actual_iff r.actual_gco2_per_kwh in
      (λ n. (back (n.0, n.1, taken n.2), refl), λ f. let (x, y, z) = there f.0 in (x, y, narrow z))
