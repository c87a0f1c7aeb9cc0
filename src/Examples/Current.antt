-- ===== src/Examples/Current.antt =====
-- The endpoints of the current half-hour at concrete tables.
use gridpulse.Prelude.{ℕ, ◌+◌, ◌==◌, ==_iff, refl, ◌≡◌, none, some, String, Option, [], ◌∷◌, ok}
use gridpulse.Storage.Postgres.{PriceRecord}
use gridpulse.Api.Schemas.{CarbonIntensityPoint, AgilePricePoint}
use gridpulse.Api.Queries.{Tables, region_of, get_region_by_canonical_code}
use gridpulse.Api.Cache.{TtlCache}
use gridpulse.Api.Routes.{carbon_intensity_current, agile_price_current}
use gridpulse.Api.Routes.Current.{
  IsLatest, IsPrice, carbon_intensity_current_answers, agile_price_current_answers,
}
use gridpulse.Examples.Memory.{london}
use gridpulse.Examples.Api.{tables, times, same_text}
use gridpulse.Examples.Cached.{last_entry, named}

abbrev carbon_cache : TtlCache (String × ℕ) (Option CarbonIntensityPoint)
carbon_cache = last_entry (named ◌==◌ (λ a b. (==_iff a b).0) (λ a. (==_iff a a).1 refl)) 30

abbrev price_cache : TtlCache (String × ℕ) (Option (AgilePricePoint ℕ))
price_cache = last_entry (named ◌==◌ (λ a b. (==_iff a b).0) (λ a. (==_iff a a).1 refl)) 30

abbrev price_from : ℕ → PriceRecord ℕ
price_from start = record {
  region_id = 13;
  period_start_utc = start;
  period_end_utc = start + 1800;
  price_pence_per_kwh_inc_vat = 21;
  price_pence_per_kwh_exc_vat = 20;
  ingested_at_utc = 7;
}

-- The second price is in effect at 2000.
abbrev priced : Tables ℕ
priced = record tables { agile_price = price_from 3600 ∷ price_from 1800 ∷ price_from 0 ∷ [] }

found : get_region_by_canonical_code same_text (ok priced) "LONDON" ≡ ok (some (region_of london))
unfolding get_region_by_canonical_code
found = refl

carbon_intensity_current_answers_example :
    IsLatest priced.half_hourly
      (region_of london)
      (carbon_intensity_current same_text times carbon_cache "LONDON"
        (record { world = ok priced; cache = none })).0
carbon_intensity_current_answers_example =
    carbon_intensity_current_answers same_text times carbon_cache none priced "LONDON"
      (region_of london) found refl

agile_price_current_answers_example :
    IsPrice 2000 priced.agile_price
      (region_of london)
      (agile_price_current same_text times price_cache 2000 "LONDON"
        (record { world = ok priced; cache = none })).0
agile_price_current_answers_example =
    agile_price_current_answers same_text times price_cache none 2000 priced "LONDON"
      (region_of london) found refl
