-- ===== src/Storage/Postgres/Price.antt =====
-- The upsert into raw.agile_price: `_UPSERT_AGILE_PRICE_SQL` and `upsert_agile_price_rows` of
-- gridpulse/storage/postgres.py, with the constraints of
-- gridpulse/storage/migrations/006_raw_agile_price.sql.
pub mod Upsert
use gridpulse.Prelude.{
  ℕ, String, Bool, Option, List, map, Result, ok, raise, Exec, integrity_error, data_error, ◌&&◌,
  ltb, leb, if◌then◌else◌,
}
use gridpulse.Datetime.{DateTime}
use gridpulse.Contracts.Octopus.{AgilePriceRow}
use gridpulse.Storage.Keyed.{upsert}
use gridpulse.Storage.Pool.{Process}
use gridpulse.Storage.Postgres.{Key, key_eq, Db, Driver, PriceRecord}
use gridpulse.Storage.Postgres.Carbon.{has_region}
use gridpulse.Storage.Postgres.Write.{write_rows}

-- The tuple of the INSERT, in the order of its columns.
abbrev pub Values : Type 0 → Type 0
Values F = ℕ × DateTime × DateTime × F × F

unfoldable pub payload : {F : Type 0} → AgilePriceRow F → Values F
payload r = (
  r.region_id, r.period_start_utc, r.period_end_utc, r.price_pence_per_kwh_inc_vat,
  r.price_pence_per_kwh_exc_vat,
)

module _ {P F R : Type 0} (driver : Driver P F R) (now : ℕ) where
  open driver use {timestamptz, to_real, real_range}

  abbrev pub key : Values F → Key
  key v = (v.0, timestamptz v.1)

  unfoldable pub fresh : Values F → PriceRecord R
  fresh v = record {
    region_id = v.0;
    period_start_utc = timestamptz v.1;
    period_end_utc = timestamptz v.2;
    price_pence_per_kwh_inc_vat = to_real v.3;
    price_pence_per_kwh_exc_vat = to_real v.4;
    ingested_at_utc = now;
  }

  -- DO UPDATE SET
  unfoldable pub update : Values F → PriceRecord R → PriceRecord R
  update v r = record r {
    period_end_utc = timestamptz v.2;
    price_pence_per_kwh_inc_vat = to_real v.3;
    price_pence_per_kwh_exc_vat = to_real v.4;
    ingested_at_utc = now;
  }

  -- SMALLINT and REAL columns
  abbrev pub fits : Values F → Bool
  fits v = leb v.0 32767 && real_range v.3 && real_range v.4

  -- the two CHECKs, and the foreign key
  abbrev pub allowed : Values F → Db R → Bool
  allowed v d =
      ltb (timestamptz v.1) (timestamptz v.2)
      && (leb 1 v.0 && leb v.0 14)
      && has_region v.0 d.dno_region

  unfoldable pub statement : Values F → Db R → Result (Db R)
  unfolding fresh update has_region
  statement v d =
      if fits v
      then if allowed v d
        then ok (record d { agile_price = upsert (key v) (fresh v) (update v) d.agile_price })
        else raise integrity_error
      else raise data_error

  unfoldable pub upsert_agile_price_rows :
      (String → Option String)
      → (String → Result P)
      → List (AgilePriceRow F)
      → Exec (Process P (Db R)) ℕ
  unfolding statement payload
  upsert_agile_price_rows environ new_pool rows =
      write_rows driver statement environ new_pool (map payload rows)
