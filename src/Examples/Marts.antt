-- ===== src/Examples/Marts.antt =====
-- The marts and their endpoints at concrete tables.
use gridpulse.Prelude.{
  ℕ, ◌+◌, ◌*◌, ◌≡◌, ◌≢◌, ◌⊎◌, refl, true, false, none, some, String, Option, List, [], ◌∷◌, map, ok,
  In, All, arith, leb, ltb, ◌/◌, ==_iff, ◌==◌,
}
use gridpulse.Datetime.{DateTime, day_us}
use gridpulse.Contracts.CarbonIntensity.{CarbonIntensityRow}
use gridpulse.Storage.Keyed.{upsert}
use gridpulse.Storage.Pool.{get_pool}
use gridpulse.Storage.Postgres.{Db}
use gridpulse.Storage.Postgres.Write.{write_rows}
use gridpulse.Storage.Postgres.Carbon.{payload, upsert_carbon_intensity_rows}
use gridpulse.Storage.Postgres.Carbon.Settled.{last_at}
use gridpulse.Storage.Postgres.Carbon.Table.{IsSound}
use gridpulse.Storage.Postgres.Carbon.Upsert.{upsert_carbon-IsSound}
use gridpulse.Storage.Postgres.Price.Upsert.{PricesAreSound}
use gridpulse.Storage.Postgres.Mix
use gridpulse.Storage.Postgres.Mix.Upsert.{MixIsSound}
use gridpulse.Api.Schemas.{CarbonIntensityPoint, BestSlot, BestSlotsResponse, GenerationMixFuel}
use gridpulse.Api.Marts.{MixLong}
use gridpulse.Api.Cache.{TtlCache}
use gridpulse.Api.Queries.{region_of, get_region_by_canonical_code}
use gridpulse.Api.Window.{IsWindow}
use gridpulse.Api.Routes.{carbon_intensity_range, best_slots, generation_mix_current}
use gridpulse.Dbt.{mart_half_hourly}
use gridpulse.Api.Html.{now_utc}
use gridpulse.Dbt.HalfHourly.{joined, IsUnique, mart_half_hourly_joins}
use gridpulse.Dbt.Served.{built, key_of, expected, known_actual, carbon_reaches_endpoint}
use gridpulse.Dbt.Slots.{Order, mart_best_slots_24h}
use gridpulse.Dbt.Slots.Ranked.{AreBestSlots}
use gridpulse.Dbt.Slots.Answers.{naive_utc, best_slots_answers}
use gridpulse.Dbt.Mix.{Arithmetic, mart_generation_mix_long}
use gridpulse.Dbt.Mix.Answers.{Rearranges, IsCurrentMix, generation_mix_current_answers}
use gridpulse.Examples.Memory.{
  memory, environ, new_pool, at, national, london, half_hour, empty_process,
}
use gridpulse.Examples.Storage.{rows, upserted, empty-IsSound, returns_two}
use gridpulse.Examples.Api.{range_cache, times, same_text, tables}
use gridpulse.Examples.Prices.{with_mix}
use gridpulse.Examples.Cached.{last_entry, named}

sum : List ℕ → ℕ
sum [] = 0
sum (x ∷ xs) = x + sum xs

leb_total : (a b : ℕ) → leb a b ≡ false → leb b a ≡ true
leb_total a b h = ground arith

leb_transitive : (a b c : ℕ) → leb a b ≡ true → leb b c ≡ true → leb a c ≡ true
leb_transitive a b c h k = ground arith

no_prices : PricesAreSound empty_process.db
no_prices = record { keyed = tt; rows = tt }

abbrev stored : Db ℕ
stored = (upserted 7 empty_process).db

stored-IsSound : IsSound stored
stored-IsSound = upsert_carbon-IsSound memory environ new_pool 7 rows empty_process empty-IsSound

stored_prices : PricesAreSound stored
unfolding upsert_carbon_intensity_rows memory write_rows get_pool
stored_prices = record { keyed = tt; rows = tt }

mart_half_hourly_joins_example :
    (mart_half_hourly stored ≡ map (joined stored.agile_price) stored.carbon_intensity)
    × IsUnique (mart_half_hourly stored)
mart_half_hourly_joins_example = mart_half_hourly_joins stored stored-IsSound stored_prices

-- The later forecast of the half-hour.
abbrev forecast : CarbonIntensityRow
forecast = half_hour 100 125 none

forecast_last : last_at memory (key_of memory forecast) (map payload rows) ≡ some (payload forecast)
unfolding last_at payload memory
forecast_last = refl

known :
    get_region_by_canonical_code same_text (ok (built stored)) "NATIONAL"
    ≡ ok (some (region_of national))
unfolding get_region_by_canonical_code upsert_carbon_intensity_rows memory write_rows get_pool
known = refl

window : IsWindow (at 0) (at 7200)
window = record { from_aware = refl; to_aware = refl; ordered = omega arith; short = omega arith }

abbrev shown_point : CarbonIntensityPoint
shown_point = expected memory forecast (known_actual memory forecast rows empty_process.db)

carbon_reaches_endpoint_example :
    (points : List CarbonIntensityPoint) × ((carbon_intensity_range same_text times
        memory.timestamptz range_cache "NATIONAL"
        (at 0)
        (at 7200)
        (record { world = ok (built stored); cache = none })).0
      ≡ ok (record { region = region_of national; points = points }))
    × In shown_point points
    × All (λ p. (p.period_start_utc ≢ memory.timestamptz (at 100)) ⊎ (p ≡ shown_point)) points
carbon_reaches_endpoint_example =
    carbon_reaches_endpoint memory 7 environ new_pool same_text times range_cache none "NATIONAL"
      (region_of national) (at 0) (at 7200) forecast rows empty_process (upserted 7 empty_process) 2
      empty-IsSound no_prices returns_two forecast_last known refl window
      (unfold memory in omega arith) (unfold memory in omega arith) refl

-- The two half-hours of the days 3 and 5, with the mart built on the third day.
abbrev natural : Order ℕ
natural = record { at_most = leb; total = leb_total; transitive = leb_transitive }

abbrev slots_cache : TtlCache (String × ℕ) (Option DateTime × List (BestSlot ℕ))
slots_cache = last_entry (named ◌==◌ (λ a b. (==_iff a b).0) (λ a. (==_iff a a).1 refl)) 30

london_known :
    get_region_by_canonical_code same_text (ok tables) "LONDON" ≡ ok (some (region_of london))
unfolding get_region_by_canonical_code
london_known = refl

best_slots_answers_example :
    (response : BestSlotsResponse ℕ) × ((best_slots same_text times slots_cache 9 "LONDON" (record {
      world = (ok tables, ok (mart_best_slots_24h natural (3 * day_us) tables.half_hourly));
      cache = none;
    })).0
      ≡ ok response)
    × (response.region ≡ region_of london)
    × AreBestSlots natural (3 * day_us) 13 tables.half_hourly response.slots
    × (((response.slots ≡ []) × (response.computed_at_utc ≡ now_utc 9))
        ⊎ ((response.slots ≢ []) × (response.computed_at_utc ≡ naive_utc (3 * day_us))))
best_slots_answers_example =
    best_slots_answers natural same_text times slots_cache none 9 (3 * day_us) tables "LONDON"
      (region_of london) london_known (omega arith) refl

abbrev sums : Arithmetic ℕ ℕ
sums = record {
  sum = λ xs. sum xs;
  is_positive = λ n. ltb 0 n;
  share = λ mw total. 100 * mw / total;
  to_float = λ mw. mw;
}

mixed-IsSound : MixIsSound with_mix.db
unfolding Mix.upsert_generation_mix_rows memory write_rows get_pool upsert
mixed-IsSound = record { keyed = (λ m. m, tt); rows = (refl, tt) }

abbrev mix_cache : TtlCache (String × Unit {0}) (Option (ℕ × List (GenerationMixFuel ℕ)))
mix_cache = last_entry (named (λ u v. true) (λ u v h. refl) (λ u. refl)) 30

as_stored : Rearranges {A = MixLong ℕ} (λ xs. xs)
as_stored xs = (refl, λ x. (λ m. m, λ m. m))

generation_mix_current_answers_example :
    IsCurrentMix sums
      (λ xs. xs)
      as_stored
      with_mix.db
      (generation_mix_current times
        (λ xs. xs)
        mix_cache
        (record { world = ok (mart_generation_mix_long sums with_mix.db); cache = none })).0
generation_mix_current_answers_example =
    generation_mix_current_answers sums (λ xs. xs) as_stored times mix_cache none with_mix.db
      mixed-IsSound refl
