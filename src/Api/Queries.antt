-- ===== src/Api/Queries.antt =====
-- gridpulse/api/queries.py: the regions, carbon intensity and Agile prices. Each query takes what
-- `get_pool().connection()` gives: the tables as its transaction sees them, or an exception. The
-- mart is the one that dbt builds (dbt/models/marts/mart_half_hourly.sql).
pub mod Ranges
pub mod Prices
use gridpulse.Prelude.{
  ℕ, ◌+◌, ◌*◌, String, ℤ, Bool, true, false, Option, none, some, List, [], ◌∷◌, map, filter, Result,
  ok, raise, value_error, validation_error, ◌>>=◌, ◌&&◌, ◌==◌, leb, ltb, str_eq, if◌then◌else◌,
}
use gridpulse.Datetime.{DateTime, day_us, longer_than}
use gridpulse.Contracts.CarbonIntensity.{CiIndex}
use gridpulse.Api.Schemas.{Region, CarbonIntensityPoint, AgilePricePoint}
use gridpulse.Api.Sql.{order_by}
use gridpulse.Storage.Postgres.{DnoRegion, PriceRecord}

-- A row of marts.mart_half_hourly.
pub record HalfHour (R : Type 0) : Type 0 where
  pub region_id : ℕ
  pub period_start_utc : ℕ
  pub period_end_utc : ℕ
  pub forecast_gco2_per_kwh : ℤ
  pub actual_gco2_per_kwh : Option ℤ
  pub intensity_index : Option CiIndex
  pub price_pence_per_kwh_inc_vat : Option R
  pub price_pence_per_kwh_exc_vat : Option R

-- What the queries read.
pub record Tables (R : Type 0) : Type 0 where
  pub dno_region : List DnoRegion
  pub half_hourly : List (HalfHour R)
  pub agile_price : List (PriceRecord R)

abbrev pub max_range_days : ℕ
max_range_days = 14

abbrev pub max_range_us : ℕ
max_range_us = max_range_days * day_us

-- `cur.fetchone()`
abbrev pub fetchone : {A : Type 0} → List A → Option A
fetchone [] = none
fetchone (x ∷ xs) = some x

abbrev pub last : {A : Type 0} → List A → Option A
last [] = none
last (x ∷ []) = some x
last (x ∷ y ∷ ys) = last (y ∷ ys)

-- `Region(**row)`
abbrev pub region_of : DnoRegion → Region
region_of r = record {
  region_id = r.region_id;
  canonical_code = r.canonical_code;
  slug = r.slug;
  name = r.name;
  octopus_code = r.octopus_code;
}

abbrev pub region_of? : Option DnoRegion → Option Region
region_of? none = none
region_of? (some r) = some (region_of r)

module _ {R : Type 0} where
  unfoldable pub list_regions : Result (Tables R) → Result (List Region)
  list_regions connection = do
    t ← connection
    ok (map region_of (order_by (λ r. r.region_id) t.dno_region))

  unfoldable pub get_region_by_slug : Result (Tables R) → String → Result (Option Region)
  get_region_by_slug connection slug = do
    t ← connection
    ok (region_of? (fetchone (filter (λ r. str_eq r.slug slug) t.dno_region)))

  -- `upper` is the method of `str`
  unfoldable pub get_region_by_canonical_code :
      (String → String) → Result (Tables R) → String → Result (Option Region)
  get_region_by_canonical_code upper connection code = do
    t ← connection
    ok (region_of? (fetchone (filter (λ r. str_eq r.canonical_code (upper code)) t.dno_region)))

  -- `CarbonIntensityPoint(**row)`: the schema refuses a row with no index
  abbrev pub with_index : HalfHour R → Option CiIndex → Result CarbonIntensityPoint
  with_index r none = raise validation_error
  with_index r (some i) = ok (record {
    region_id = r.region_id;
    period_start_utc = r.period_start_utc;
    period_end_utc = r.period_end_utc;
    forecast_gco2_per_kwh = r.forecast_gco2_per_kwh;
    actual_gco2_per_kwh = r.actual_gco2_per_kwh;
    intensity_index = i;
  })

  abbrev pub carbon_point : HalfHour R → Result CarbonIntensityPoint
  carbon_point r = with_index r r.intensity_index

  unfoldable pub carbon_points : List (HalfHour R) → Result (List CarbonIntensityPoint)
  carbon_points [] = ok []
  carbon_points (r ∷ rs) = do p ← carbon_point r; ps ← carbon_points rs; ok (p ∷ ps)

  abbrev pub has_index : HalfHour R → Bool
  has_index r = elim r.intensity_index [ none ↦ false | some _ ↦ true ]

  abbrev pub carbon_point? : Option (HalfHour R) → Result (Option CarbonIntensityPoint)
  carbon_point? none = ok none
  carbon_point? (some r) = do p ← carbon_point r; ok (some p)

  -- ORDER BY period_start_utc DESC LIMIT 1 is the last row of the ascending order
  unfoldable pub get_current_carbon_intensity :
      Result (Tables R) → ℕ → Result (Option CarbonIntensityPoint)
  get_current_carbon_intensity connection region_id = do
    t ← connection
    carbon_point? (
        last (
          order_by (λ r. r.period_start_utc)
            (filter (λ r. r.region_id == region_id && has_index r) t.half_hourly)))

  abbrev pub price_point : PriceRecord R → AgilePricePoint R
  price_point r = record {
    region_id = r.region_id;
    period_start_utc = r.period_start_utc;
    period_end_utc = r.period_end_utc;
    price_pence_per_kwh_inc_vat = r.price_pence_per_kwh_inc_vat;
    price_pence_per_kwh_exc_vat = r.price_pence_per_kwh_exc_vat;
  }

  abbrev pub price_point? : Option (PriceRecord R) → Option (AgilePricePoint R)
  price_point? none = none
  price_point? (some r) = some (price_point r)

  -- `now` is `datetime.now(UTC)` as an instant
  unfoldable pub get_current_agile_price :
      Result (Tables R) → ℕ → ℕ → Result (Option (AgilePricePoint R))
  get_current_agile_price connection now region_id = if region_id == 0 then ok none else do
    t ← connection
    ok (
        price_point? (
          last (
            order_by (λ r. r.period_start_utc)
              (filter
                (λ r.
                  r.region_id == region_id
                  && (leb r.period_start_utc now && ltb now r.period_end_utc))
                t.agile_price))))

-- how psycopg sends a `datetime`
module _ (timestamptz : DateTime → ℕ) where
  abbrev pub guarded : {A : Type 0} → DateTime → DateTime → Result A → Result A
  guarded from_utc to_utc body = do
    long ← longer_than from_utc to_utc max_range_us
    if long then raise value_error else body

  abbrev pub in_window : ℕ → DateTime → DateTime → ℕ → ℕ → Bool
  in_window region_id from_utc to_utc region start =
      region == region_id && (leb (timestamptz from_utc) start && ltb start (timestamptz to_utc))

  module _ {R : Type 0} where
    unfoldable pub get_carbon_intensity_range :
        Result (Tables R) → ℕ → DateTime → DateTime → Result (List CarbonIntensityPoint)
    unfolding longer_than
    get_carbon_intensity_range connection region_id from_utc to_utc = guarded from_utc to_utc do
      t ← connection
      carbon_points (
          order_by (λ r. r.period_start_utc)
            (filter
              (λ r.
                in_window region_id from_utc to_utc r.region_id r.period_start_utc && has_index r)
              t.half_hourly))

    unfoldable pub get_agile_price_range :
        Result (Tables R) → ℕ → DateTime → DateTime → Result (List (AgilePricePoint R))
    unfolding longer_than
    get_agile_price_range connection region_id from_utc to_utc = guarded from_utc to_utc do
      t ← connection
      ok (
          map price_point (
            order_by (λ r. r.period_start_utc)
              (filter (λ r. in_window region_id from_utc to_utc r.region_id r.period_start_utc)
                t.agile_price)))
