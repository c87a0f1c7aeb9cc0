-- ===== src/Contracts/Octopus.antt =====
-- gridpulse/contracts/octopus.py
use gridpulse.Prelude.{ℕ, String, Option, List, map}
use gridpulse.Datetime.{DateTime}

-- `F` is the type of Python's floats.
pub record AgileRate (F : Type 0) : Type 0 where
  pub value_exc_vat : F
  pub value_inc_vat : F
  pub valid_from : DateTime
  pub valid_to : DateTime
  pub payment_method : Option String

pub record AgileRatesResponse (F : Type 0) : Type 0 where
  pub count : ℕ
  pub next : Option String
  pub previous : Option String
  pub results : List (AgileRate F)

pub record AgilePriceRow (F : Type 0) : Type 0 where
  pub region_id : ℕ
  pub period_start_utc : DateTime
  pub period_end_utc : DateTime
  pub price_pence_per_kwh_inc_vat : F
  pub price_pence_per_kwh_exc_vat : F

module _ {F : Type 0} where
  unfoldable pub agile_row : ℕ → AgileRate F → AgilePriceRow F
  agile_row region_id r = record {
    region_id = region_id;
    period_start_utc = r.valid_from;
    period_end_utc = r.valid_to;
    price_pence_per_kwh_inc_vat = r.value_inc_vat;
    price_pence_per_kwh_exc_vat = r.value_exc_vat;
  }

  unfoldable pub agile_to_rows : AgileRatesResponse F → ℕ → List (AgilePriceRow F)
  unfolding agile_row
  agile_to_rows r region_id = map (agile_row region_id) r.results
