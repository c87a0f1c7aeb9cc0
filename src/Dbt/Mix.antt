-- ===== src/Dbt/Mix.antt =====
-- dbt/models: the generation mix with one row for each fuel (staging/stg_generation_mix.sql and
-- marts/mart_generation_mix_long.sql).
pub mod Rows
pub mod Answers
use gridpulse.Prelude.{
  ℕ, String, Bool, true, false, Option, none, some, List, [], ◌∷◌, map, filter, flat_map, ◌==◌,
  if◌then◌else◌,
}
use gridpulse.Storage.Postgres.{Db, MixRecord}
use gridpulse.Api.Marts.{MixLong}

-- One of the eleven SELECTs: the fuel, its column and its flag.
pub record Fuel (R : Type 0) : Type 0 where
  pub fuel : String
  pub mw : MixRecord R → R
  pub is_renewable : Bool

-- A row of the view.
pub record Staged (R : Type 0) : Type 0 where
  pub period_start_utc : ℕ
  pub fuel : String
  pub mw : R
  pub is_renewable : Bool

-- What Postgres does with REAL values: their sum, `> 0`, `100.0 * mw / total`, and how psycopg
-- hands them to Python.
pub record Arithmetic (R F : Type 0) : Type 0 where
  pub sum : List R → R
  pub is_positive : R → Bool
  pub share : R → R → F
  pub to_float : R → F

module _ {R : Type 0} where
  abbrev pub column : String → (MixRecord R → R) → Bool → Fuel R
  column fuel mw is_renewable = record { fuel = fuel; mw = mw; is_renewable = is_renewable }

  unfoldable pub fuels : List (Fuel R)
  fuels =
      column "gas" (λ r. r.gas_mw) false
      ∷ column "coal" (λ r. r.coal_mw) false
      ∷ column "nuclear" (λ r. r.nuclear_mw) false
      ∷ column "wind" (λ r. r.wind_mw) true
      ∷ column "wind_emb" (λ r. r.wind_embedded_mw) true
      ∷ column "hydro" (λ r. r.hydro_mw) true
      ∷ column "imports" (λ r. r.imports_mw) false
      ∷ column "biomass" (λ r. r.biomass_mw) true
      ∷ column "other" (λ r. r.other_mw) false
      ∷ column "solar" (λ r. r.solar_mw) true
      ∷ column "storage" (λ r. r.storage_mw) false
      ∷ []

  abbrev pub select : Fuel R → MixRecord R → Staged R
  select f r = record {
    period_start_utc = r.period_start_utc;
    fuel = f.fuel;
    mw = f.mw r;
    is_renewable = f.is_renewable;
  }

  -- UNION ALL
  unfoldable pub stg_generation_mix : Db R → List (Staged R)
  unfolding fuels
  stg_generation_mix d = flat_map (λ f. map (select f) (map (λ x. x.1) d.generation_mix)) fuels

  module _ {F : Type 0} (a : Arithmetic R F) where
    -- the total of a half-hour, over all its fuels: the group that the join finds for a row
    abbrev pub total_mw : List (Staged R) → ℕ → R
    total_mw mix start = a.sum (map (λ m. m.mw) (filter (λ m. m.period_start_utc == start) mix))

    abbrev pub long_row : Staged R → R → MixLong F
    long_row m total = record {
      period_start_utc = m.period_start_utc;
      fuel = m.fuel;
      mw = a.to_float m.mw;
      is_renewable = m.is_renewable;
      share_of_generation_pct = if a.is_positive total then some (a.share m.mw total) else none;
    }

    unfoldable pub mart_generation_mix_long : Db R → List (MixLong F)
    unfolding stg_generation_mix
    mart_generation_mix_long d =
        let mix = stg_generation_mix d in
        map (λ m. long_row m (total_mw mix m.period_start_utc)) mix
