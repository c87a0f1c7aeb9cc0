-- ===== src/Api/Marts.antt =====
-- gridpulse/api/queries.py: the generation mix, the best slots and the last ingests; and the region
-- lookup of gridpulse/lib/regions.py. `ORDER BY mw DESC` sorts floats, and is a parameter.
pub mod Regions
use gridpulse.Prelude.{
  ℕ, String, ℤ, Bool, false, Option, none, some, List, [], ◌∷◌, map, filter, length, Result, ok,
  raise, ◌>>=◌, Exec, ◌==◌, leb, if◌then◌else◌,
}
use gridpulse.Datetime.{DateTime}
use gridpulse.Api.Schemas.{GenerationMixFuel, BestSlot, LastIngest}
use gridpulse.Api.Sql.{order_by}
use gridpulse.Storage.Postgres.{Db, DnoRegion}

-- A row of marts.mart_generation_mix_long, and one of marts.mart_best_slots_24h.
pub record MixLong (F : Type 0) : Type 0 where
  pub period_start_utc : ℕ
  pub fuel : String
  pub mw : F
  pub is_renewable : Bool
  pub share_of_generation_pct : Option F

pub record SlotRow (R : Type 0) : Type 0 where
  pub region_id : ℕ
  pub computed_at_utc : DateTime
  pub period_start_utc : ℕ
  pub period_end_utc : ℕ
  pub price_pence_per_kwh_inc_vat : Option R
  pub forecast_gco2_per_kwh : Option ℤ
  pub cheapest_rank : Option ℕ
  pub greenest_rank : Option ℕ

-- `max(…)`, NULL where there is no row
abbrev pub greater : ℕ → Option ℕ → Option ℕ
greater n none = some n
greater n (some m) = if leb n m then some m else some n

unfoldable pub max_of : List ℕ → Option ℕ
max_of [] = none
max_of (n ∷ ns) = greater n (max_of ns)

abbrev pub is_at : Option ℕ → ℕ → Bool
is_at none n = false
is_at (some m) n = n == m

module _ {F : Type 0} where
  abbrev pub fuel_of : MixLong F → GenerationMixFuel F
  fuel_of r = record {
    fuel = r.fuel;
    mw = r.mw;
    is_renewable = r.is_renewable;
    share_of_generation_pct = r.share_of_generation_pct;
  }

  abbrev pub mix_of : List (MixLong F) → Option (ℕ × List (GenerationMixFuel F))
  mix_of [] = none
  mix_of (r ∷ rows) = some (r.period_start_utc, map fuel_of (r ∷ rows))

  unfoldable pub get_current_generation_mix :
      (List (MixLong F) → List (MixLong F))
      → Result (List (MixLong F))
      → Result (Option (ℕ × List (GenerationMixFuel F)))
  unfolding max_of
  get_current_generation_mix by_mw_desc connection = do
    mart ← connection
    ok (
        mix_of (
          by_mw_desc (
            filter (λ r. is_at (max_of (map (λ x. x.period_start_utc) mart)) r.period_start_utc)
              mart)))

module _ {R : Type 0} where
  abbrev pub slot_of : SlotRow R → BestSlot R
  slot_of r = record {
    period_start_utc = r.period_start_utc;
    period_end_utc = r.period_end_utc;
    price_pence_per_kwh_inc_vat = r.price_pence_per_kwh_inc_vat;
    forecast_gco2_per_kwh = r.forecast_gco2_per_kwh;
    cheapest_rank = r.cheapest_rank;
    greenest_rank = r.greenest_rank;
  }

  abbrev pub slots_of : List (SlotRow R) → Option DateTime × List (BestSlot R)
  slots_of [] = (none, [])
  slots_of (r ∷ rows) = (some r.computed_at_utc, map slot_of (r ∷ rows))

  unfoldable pub get_best_slots :
      Result (List (SlotRow R)) → ℕ → Result (Option DateTime × List (BestSlot R))
  get_best_slots connection region_id = do
    mart ← connection
    ok (slots_of (order_by (λ r. r.period_start_utc) (filter (λ r. r.region_id == region_id) mart)))

-- a source, with the columns of its raw table that the statement reads
unfoldable pub last_ingest : String → List (ℕ × ℕ) → LastIngest
unfolding max_of
last_ingest source table = record {
  source = source;
  last_period_utc = max_of (map (λ r. r.0) table);
  last_ingest_utc = max_of (map (λ r. r.1) table);
  row_count = length table;
}

unfoldable pub get_last_ingests : {R : Type 0} → Result (Db R) → Result (List LastIngest)
unfolding last_ingest
get_last_ingests connection = do
  d ← connection
  ok (
      last_ingest "carbon_intensity"
        (map (λ r. (r.1.period_start_utc, r.1.ingested_at_utc)) d.carbon_intensity)
      ∷ last_ingest "generation_mix"
          (map (λ r. (r.1.period_start_utc, r.1.ingested_at_utc)) d.generation_mix)
      ∷ last_ingest "agile_price"
          (map (λ r. (r.1.period_start_utc, r.1.ingested_at_utc)) d.agile_price)
      ∷ [])

-- `WHERE octopus_code IS NOT NULL`
abbrev pub with_code : DnoRegion → Option String → List (ℕ × String) → List (ℕ × String)
with_code r none rest = rest
with_code r (some code) rest = (r.region_id, code) ∷ rest

unfoldable pub octopus_codes : List DnoRegion → List (ℕ × String)
octopus_codes [] = []
octopus_codes (r ∷ rs) = with_code r r.octopus_code (octopus_codes rs)

abbrev pub looked_up :
    Result (List DnoRegion) → Exec (Option (List (ℕ × String))) (List (ℕ × String))
looked_up (raise e) s = (raise e, s)
looked_up (ok regions) s =
    let pairs = octopus_codes (order_by (λ r. r.region_id) regions) in (ok pairs, some pairs)

-- `functools.cache`: the first result that is no exception is kept for the life of the process
unfoldable pub dno_regions_with_octopus_code :
    Result (List DnoRegion) → Exec (Option (List (ℕ × String))) (List (ℕ × String))
unfolding octopus_codes
dno_regions_with_octopus_code connection (some pairs) = (ok pairs, some pairs)
dno_regions_with_octopus_code connection none = looked_up connection none
