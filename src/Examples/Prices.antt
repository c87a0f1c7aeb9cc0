-- ===== src/Examples/Prices.antt =====
-- The upserts of prices and of the generation mix, and the prices read back, at concrete inputs.
use gridpulse.Prelude.{
  ℕ, ◌≡◌, ◌≢◌, ◌⊎◌, refl, some, List, [], ◌∷◌, ok, map, length, All, In, All, arith, nat_eq,
}
use gridpulse.Contracts.Octopus.{AgilePriceRow}
use gridpulse.Contracts.Neso.{NesoGenerationMixRow}
use gridpulse.Storage.Keyed.{find}
use gridpulse.Storage.Keyed.Latest.{last_for, replaced}
use gridpulse.Storage.Pool.{Process, get_pool}
use gridpulse.Storage.Postgres.{Db, Key, key_eq}
use gridpulse.Storage.Postgres.Write.{write_rows}
use gridpulse.Storage.Postgres.Price
use gridpulse.Storage.Postgres.Price.Upsert.{PricesAreSound, SameButPrices, upsert_agile_settles}
use gridpulse.Storage.Postgres.Mix
use gridpulse.Storage.Postgres.Mix.Upsert.{
  MixIsSound, SameButMix, stored_as, columns_of, upsert_mix_settles,
}
use gridpulse.Api.Schemas.{AgilePricePoint}
use gridpulse.Api.Queries.{get_agile_price_range}
use gridpulse.Api.Queries.Prices.{served, point_of, get_agile_price_range_reads_back}
use gridpulse.Api.Window.{IsWindow}
use gridpulse.Examples.Memory.{memory, environ, new_pool, at, empty_process}

-- London's price for a half-hour, first published and then corrected.
abbrev pub priced : ℕ → AgilePriceRow ℕ
priced price = record {
  region_id = 13;
  period_start_utc = at 3600;
  period_end_utc = at 5400;
  price_pence_per_kwh_inc_vat = price;
  price_pence_per_kwh_exc_vat = 19;
}

abbrev pub prices : List (AgilePriceRow ℕ)
prices = priced 21 ∷ priced 22 ∷ []

abbrev with_prices : Process (Unit {0}) (Db ℕ)
with_prices = (Price.upsert_agile_price_rows memory 7 environ new_pool prices empty_process).1

prices_sound : PricesAreSound empty_process.db
prices_sound = record { keyed = tt; rows = tt }

prices_written :
    Price.upsert_agile_price_rows memory 7 environ new_pool prices empty_process
    ≡ (ok 2, with_prices)
unfolding Price.upsert_agile_price_rows memory write_rows get_pool
prices_written = refl

upsert_agile_settles_example :
    (2 ≡ length prices)
    × SameButPrices empty_process.db with_prices.db
    × PricesAreSound with_prices.db
    × ((k : Key)
        → find k with_prices.db.agile_price
          ≡ replaced
              (Price.fresh memory 7)
              (last_for (Price.key memory 7) k (map Price.payload prices))
              (find k empty_process.db.agile_price))
upsert_agile_settles_example =
    upsert_agile_settles memory 7 environ new_pool prices empty_process with_prices 2 prices_sound
      prices_written

abbrev corrected : AgilePriceRow ℕ
corrected = priced 22

last_price :
    last_for
      (Price.key memory 7)
      (Price.key memory 7 (Price.payload corrected))
      (map Price.payload prices)
    ≡ some (Price.payload corrected)
unfolding last_for Price.payload memory
last_price = refl

window : IsWindow (at 0) (at 7200)
window = record { from_aware = refl; to_aware = refl; ordered = omega arith; short = omega arith }

get_agile_price_range_reads_back_example :
    (ps : List (AgilePricePoint ℕ)) × (get_agile_price_range memory.timestamptz
        (ok (served [] with_prices.db))
        13
        (at 0)
        (at 7200)
      ≡ ok ps)
    × In (point_of memory corrected) ps
    × All
        (λ p. (p.period_start_utc ≢ memory.timestamptz (at 3600)) ⊎ (p ≡ point_of memory corrected))
        ps
get_agile_price_range_reads_back_example =
    get_agile_price_range_reads_back memory 7 environ new_pool corrected prices [] (at 0) (at 7200)
      empty_process with_prices 2 prices_sound prices_written last_price window
      (unfold memory in omega arith) (unfold memory in omega arith)

abbrev pub mixed : ℕ → NesoGenerationMixRow ℕ
mixed gas = record {
  period_start_utc = at 3600;
  gas_mw = gas;
  coal_mw = 0;
  nuclear_mw = 4000;
  wind_mw = 9000;
  wind_embedded_mw = 2000;
  hydro_mw = 300;
  imports_mw = 1000;
  biomass_mw = 2000;
  other_mw = 100;
  solar_mw = 0;
  storage_mw = 50;
  total_generation_mw = 28000;
  neso_carbon_intensity_gco2_per_kwh = 130;
}

abbrev pub mixes : List (NesoGenerationMixRow ℕ)
mixes = mixed 9000 ∷ mixed 9100 ∷ []

abbrev pub with_mix : Process (Unit {0}) (Db ℕ)
with_mix = (Mix.upsert_generation_mix_rows memory 7 environ new_pool mixes empty_process).1

mix_sound : MixIsSound empty_process.db
mix_sound = record { keyed = tt; rows = tt }

mix_written :
    Mix.upsert_generation_mix_rows memory 7 environ new_pool mixes empty_process ≡ (ok 2, with_mix)
unfolding Mix.upsert_generation_mix_rows memory write_rows get_pool
mix_written = refl

upsert_mix_settles_example :
    (2 ≡ length mixes)
    × SameButMix empty_process.db with_mix.db
    × MixIsSound with_mix.db
    × ((k : ℕ)
        → find k with_mix.db.generation_mix
          ≡ replaced
              (stored_as memory 7)
              (last_for (Mix.key memory 7) k (map columns_of mixes))
              (find k empty_process.db.generation_mix))
upsert_mix_settles_example =
    upsert_mix_settles memory 7 environ new_pool mixes empty_process with_mix 2 mix_sound
      mix_written
