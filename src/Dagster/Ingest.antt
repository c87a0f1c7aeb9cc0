-- ===== src/Dagster/Ingest.antt =====
-- The four assets of gridpulse/dagster_defs/assets.py: each fetches, writes what it fetched, and
-- reports, between the pings of its heartbeat. Log lines are left out.
pub mod Settles
pub mod Codes
pub mod Prices
use gridpulse.Prelude.{ℕ, String, Bool, Option, none, some, List, Result, ok, raise, Exec, continue}
use gridpulse.Datetime.{DateTime}
use gridpulse.Contracts.CarbonIntensity.{CarbonIntensityRow, NationalResponse, RegionalResponse}
use gridpulse.Contracts.Neso.{NesoResponse}
use gridpulse.Contracts.Octopus.{AgileRatesResponse}
use gridpulse.Ingestion.Http.{Net, Httpx, Tenacity}
use gridpulse.Ingestion.Fetch.{
  fetch_national, fetch_regional, fetch_recent_generation_mix, fetch_agile_rates_all_regions,
}
use gridpulse.Storage.Pool.{Process, get_pool}
use gridpulse.Storage.Postgres.{Db, Driver, DnoRegion}
use gridpulse.Storage.Postgres.Carbon.{upsert_carbon_intensity_rows}
use gridpulse.Storage.Postgres.Mix.{upsert_generation_mix_rows}
use gridpulse.Storage.Postgres.Price.{upsert_agile_price_rows}
use gridpulse.Api.Marts.{dno_regions_with_octopus_code}
use gridpulse.Heartbeat.{Observed, with_heartbeat}
use gridpulse.Dagster.Metadata.{
  Metadata, Rows, carbon_rows, price_rows, mix_rows, materialize_result,
}

-- What a run works on: the network, the process with its pool and the database, and what
-- `functools.cache` keeps of the regions.
pub record World (W P R : Type 0) : Type 0 where
  pub net : Net W
  pub process : Process P (Db R)
  pub regions : Option (List (ℕ × String))

module _ {W P R : Type 0} where
  abbrev pub on_net : {A : Type 0} → Exec (Net W) A → Exec (World W P R) A
  on_net f s = let (r, n) = f s.net in (r, record s { net = n })

  abbrev pub on_process : {A : Type 0} → Exec (Process P (Db R)) A → Exec (World W P R) A
  on_process f s = let (r, p) = f s.process in (r, record s { process = p })

  -- rows = fetch(…); written = upsert(rows); return _materialize_result(written, rows, …)
  unfoldable pub ingest :
      {Row F : Type 0}
      → Exec (Net W) (List Row)
      → (List Row → Exec (Process P (Db R)) ℕ)
      → (ℕ → List Row → Result (Metadata F))
      → Exec (World W P R) (Metadata F)
  ingest fetch upsert report s =
      continue (on_net fetch s)
        λ rows s'. continue (on_process (upsert rows) s') λ written s''. (report written rows, s'')

-- the body of an asset on carbon intensity
module _ {W P F R : Type 0} (driver : Driver P F R) (now : ℕ) (environ : String → Option String)
    (new_pool : String → Result P) (isoformat : DateTime → String) (float_lt : F → F → Bool) where
  abbrev pub carbon_asset :
      Exec (Net W) (List CarbonIntensityRow) → String → Exec (World W P R) (Metadata F)
  carbon_asset fetch source =
      ingest fetch (upsert_carbon_intensity_rows driver now environ new_pool)
        λ written rows. materialize_result isoformat float_lt written (carbon_rows rows) source

module _ {P F R : Type 0} (driver : Driver P F R) (environ : String → Option String)
    (new_pool : String → Result P) where
  open driver use {connection}

  -- `with get_pool().connection() as conn, conn.cursor() as cur: …` of the lookup of the regions
  unfoldable pub read_regions : Exec (Process P (Db R)) (List DnoRegion)
  read_regions s = continue (get_pool environ new_pool s) λ pool s'.
      let (r, d) = connection pool (λ d. ok (d.dno_region, d)) s'.db in (r, record s' { db = d })

  -- `dno_regions_with_octopus_code()`, which reads the table only while nothing is kept
  abbrev pub codes_from :
      {W : Type 0} → Option (List (ℕ × String)) → Exec (World W P R) (List (ℕ × String))
  codes_from (some pairs) s = (ok pairs, s)
  codes_from none s =
      let (read, p) = read_regions s.process in
      let (r, kept) = dno_regions_with_octopus_code read none in
      (r, record s { process = p; regions = kept })

  abbrev pub region_codes : {W : Type 0} → Exec (World W P R) (List (ℕ × String))
  region_codes s = codes_from s.regions s

module _ {J W P F R : Type 0} (httpx : Httpx J W) (tenacity : Tenacity W) (driver : Driver P F R)
    (now : ℕ) (environ : String → Option String) (strip : String → String)
    (get : String → List String → Result (Unit {0})) (new_pool : String → Result P)
    (isoformat : DateTime → String) (float_lt : F → F → Bool) where
  abbrev pub beat :
      String → Exec (World W P R) (Metadata F) → Exec (Observed (World W P R)) (Metadata F)
  beat = with_heartbeat environ strip get

  unfoldable pub carbon_intensity_national :
      (J → Result NationalResponse) → Exec (Observed (World W P R)) (Metadata F)
  carbon_intensity_national validate = beat "carbon_intensity_national" (
      carbon_asset driver now environ new_pool isoformat float_lt
        (fetch_national httpx tenacity validate) "carbonintensity.org.uk /intensity")

  unfoldable pub carbon_intensity_regional :
      (J → Result (RegionalResponse F)) → Exec (Observed (World W P R)) (Metadata F)
  carbon_intensity_regional validate = beat "carbon_intensity_regional" (
      carbon_asset driver now environ new_pool isoformat float_lt
        (fetch_regional httpx tenacity validate) "carbonintensity.org.uk /regional")

  unfoldable pub generation_mix :
      (J → Result (NesoResponse F)) → Exec (Observed (World W P R)) (Metadata F)
  generation_mix validate = beat "generation_mix" (
      ingest (fetch_recent_generation_mix httpx tenacity validate 96)
        (upsert_generation_mix_rows driver now environ new_pool)
        λ written rows.
          materialize_result isoformat float_lt written (mix_rows rows)
            "api.neso.energy /historic-generation-mix")

  unfoldable pub agile_price :
      (J → Result (AgileRatesResponse F)) → Exec (Observed (World W P R)) (Metadata F)
  agile_price validate = beat "agile_price" λ s.
      continue (region_codes driver environ new_pool s) λ regions s'.
        ingest (fetch_agile_rates_all_regions httpx tenacity validate regions 96)
          (upsert_agile_price_rows driver now environ new_pool)
          (λ written rows.
            materialize_result isoformat float_lt written (price_rows rows)
              "api.octopus.energy AGILE-24-10-01")
          s'
