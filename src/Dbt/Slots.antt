-- ===== src/Dbt/Slots.antt =====
-- dbt/models/marts/mart_best_slots_24h.sql: the half-hours of the next 24 hours, ranked in their
-- region by price and by forecast.
pub mod Numbers
pub mod Orders
pub mod Ranked
pub mod Answers
use gridpulse.Prelude.{
  ℕ, suc, ◌+◌, ◌-◌, ◌≡◌, ◌⊎◌, Bool, true, false, Option, none, some, List, [], ◌∷◌, map, filter,
  length, leb, ltb, ◌==◌, ◌&&◌, if◌then◌else◌, ℤ, pos_part, neg_part,
}
use gridpulse.Datetime.{DateTime, day_us}
use gridpulse.Api.Queries.{HalfHour}
use gridpulse.Api.Marts.{SlotRow}

-- The rows in an order: `before a b` says that `a` may stand before `b`.
module _ {A : Type 0} (before : A → A → Bool) where
  unfoldable pub place : A → List A → List A
  place a [] = a ∷ []
  place a (x ∷ xs) = if before a x then a ∷ x ∷ xs else x ∷ place a xs

  unfoldable pub sorted : List A → List A
  unfolding place
  sorted [] = []
  sorted (a ∷ xs) = place a (sorted xs)

module _ {A : Type 0} (part : A → ℕ) where
  abbrev pub count : ℕ → List A → ℕ
  count i xs = length (filter (λ x. part x == i) xs)

  -- each row with its number among those of its part, after the rows that were seen
  unfoldable pub number : List A → List A → List (A × ℕ)
  number seen [] = []
  number seen (a ∷ xs) = (a, suc (count (part a) seen)) ∷ number (a ∷ seen) xs

-- `row_number() OVER (PARTITION BY part ORDER BY …)`, beside the rows
unfoldable pub row_number : {A : Type 0} → (A → A → Bool) → (A → ℕ) → List A → List (A × ℕ)
unfolding sorted number
row_number before part xs = number part [] (sorted before xs)

-- `ASC NULLS LAST`, over the order of the values
abbrev pub nulls_last : {X : Type 0} → (X → X → Bool) → Option X → Option X → Bool
nulls_last at_most a none = true
nulls_last at_most none (some b) = false
nulls_last at_most (some a) (some b) = at_most a b

-- `ORDER BY column, start`
abbrev pub then_by : {A X : Type 0} → (X → X → Bool) → (A → X) → (A → ℕ) → A → A → Bool
then_by at_most column start a b =
    if at_most (column a) (column b)
    then if at_most (column b) (column a) then leb (start a) (start b) else true
    else false

abbrev pub leb_ℤ : ℤ → ℤ → Bool
leb_ℤ a b = leb (pos_part a + neg_part b) (pos_part b + neg_part a)

-- Postgres' order of REAL values, which is total (NaN stands above all others).
pub record Order (R : Type 0) : Type 0 where
  pub at_most : R → R → Bool
  pub total : (a b : R) → at_most a b ≡ false → at_most b a ≡ true
  pub transitive : (a b c : R) → at_most a b ≡ true → at_most b c ≡ true → at_most a c ≡ true

-- `now() at time zone 'UTC'`: a TIMESTAMP without a zone, which psycopg reads as a naive
-- `datetime`. `now` is an instant.
abbrev pub at_time_zone_utc : ℕ → DateTime
at_time_zone_utc now = record { wall = now - day_us; tzinfo = none }

module _ {R : Type 0} where
  -- `now` is the time of the transaction
  abbrev pub is_upcoming : ℕ → HalfHour R → Bool
  is_upcoming now r = leb now r.period_start_utc && ltb r.period_start_utc (now + day_us)

  abbrev pub slot_row : ℕ → (HalfHour R × ℕ) × ℕ → SlotRow R
  slot_row now ((r, cheapest), greenest) = record {
    region_id = r.region_id;
    computed_at_utc = at_time_zone_utc now;
    period_start_utc = r.period_start_utc;
    period_end_utc = r.period_end_utc;
    price_pence_per_kwh_inc_vat = r.price_pence_per_kwh_inc_vat;
    forecast_gco2_per_kwh = some r.forecast_gco2_per_kwh;
    cheapest_rank = some cheapest;
    greenest_rank = some greenest;
  }

  abbrev pub by_forecast : HalfHour R → HalfHour R → Bool
  by_forecast =
      then_by (nulls_last leb_ℤ) (λ r. some r.forecast_gco2_per_kwh) (λ r. r.period_start_utc)

  abbrev pub greenest_ranked : List (HalfHour R × ℕ) → List ((HalfHour R × ℕ) × ℕ)
  greenest_ranked = row_number (λ a b. by_forecast a.0 b.0) (λ r. r.0.region_id)

  module _ (order : Order R) where
    open order use {at_most}

    abbrev pub by_price : HalfHour R → HalfHour R → Bool
    by_price =
        then_by (nulls_last at_most) (λ r. r.price_pence_per_kwh_inc_vat) (λ r. r.period_start_utc)

    abbrev pub cheapest_ranked : List (HalfHour R) → List (HalfHour R × ℕ)
    cheapest_ranked = row_number by_price (λ r. r.region_id)

    unfoldable pub mart_best_slots_24h : ℕ → List (HalfHour R) → List (SlotRow R)
    unfolding row_number
    mart_best_slots_24h now half_hourly =
        map (slot_row now)
          (greenest_ranked (cheapest_ranked (filter (is_upcoming now) half_hourly)))
