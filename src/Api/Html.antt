-- ===== src/Api/Html.antt =====
-- gridpulse/api/routes/html.py: the pages. A page is its template with the context that it is
-- rendered from; rendering is Jinja's. Each query of a handler has its own connection, numbered in
-- the order in which the handler asks: `connections k` is what it gives.
pub mod Trend
use gridpulse.Prelude.{
  ℕ, ◌-◌, String, Bool, Option, none, some, List, [], Result, ok, raise, http_exception,
  overflow_error, ◌>>=◌, ◌==◌, ltb, if◌then◌else◌,
}
use gridpulse.Datetime.{DateTime, utc, day_us}
use gridpulse.Api.Schemas.{Region, CarbonIntensityPoint, GenerationMixFuel, BestSlot, LastIngest}
use gridpulse.Api.Queries.{
  Tables, list_regions, get_region_by_slug, get_region_by_canonical_code,
  get_current_carbon_intensity, get_carbon_intensity_range,
}
use gridpulse.Api.Marts.{
  MixLong, SlotRow, get_current_generation_mix, get_best_slots, get_last_ingests,
}
use gridpulse.Api.Health.{db_ok}
use gridpulse.Api.Health
use gridpulse.Storage.Postgres.{Db}

abbrev pub default_agile_region_slug : String
default_agile_region_slug = "london"

-- `datetime.now(UTC)` at a reading of the UTC clock
abbrev pub now_utc : ℕ → DateTime
now_utc now = record { wall = now; tzinfo = some utc }

-- What every full page has.
pub record Common : Type 0 where
  pub regions : List Region
  pub at : DateTime

-- The templates with their contexts. `R` is the type of REAL values, `F` of floats.
pub data Page (R F : Type 0) : Type 0 where
  landing_html : Common → (region agile_region : Option Region) → Page R F
  region_html : Common → Region → (agile_region : Option Region) → Page R F
  current_conditions_html : Region → (current : Option CarbonIntensityPoint) → Page R F
  best_slots_html : Region → (computed_at : Option DateTime) → List (BestSlot R) → Page R F
  generation_donut_html : (period : Option ℕ) → List (GenerationMixFuel F) → Page R F
  carbon_trend_html : Region → List CarbonIntensityPoint → Page R F
  status_html : Common → (is_db_ok : Bool) → List LastIngest → Page R F

-- `if region is None: raise HTTPException(status)`
abbrev pub or_status : ℕ → Option Region → Result Region
or_status status none = raise (http_exception status)
or_status status (some region) = ok region

-- `if region is None or region.region_id == 0: raise HTTPException(400)`
abbrev pub dno_or_400 : Option Region → Result Region
dno_or_400 none = raise (http_exception 400)
dno_or_400 (some region) = if region.region_id == 0 then raise (http_exception 400) else ok region

abbrev pub donut : {R F : Type 0} → Option (ℕ × List (GenerationMixFuel F)) → Page R F
donut none = generation_donut_html none []
donut (some (period, fuels)) = generation_donut_html (some period) fuels

-- `to - timedelta(hours=24)`, which Python refuses below year 1
abbrev pub day_before : ℕ → Result DateTime
day_before now = if ltb now day_us then raise overflow_error else ok (now_utc (now - day_us))

module _ {R : Type 0} (connections : ℕ → Result (Tables R)) where
  -- `_ctx` asks for the regions by connection `k`
  abbrev pub ctx : ℕ → ℕ → Result Common
  ctx k now = do
    regions ← list_regions (connections k)
    ok (record { regions = regions; at = now_utc now })

  -- the region of the prices, and the connection that is then next
  abbrev pub agile_region : Region → Result (Option Region × ℕ)
  agile_region region =
      if region.region_id == 0
      then get_region_by_slug (connections 1) default_agile_region_slug >>= (λ r. ok (r, 2))
      else ok (some region, 1)

module _ {R F : Type 0} where
  unfoldable pub partial_generation_donut :
      (List (MixLong F) → List (MixLong F)) → Result (List (MixLong F)) → Result (Page R F)
  unfolding get_current_generation_mix
  partial_generation_donut by_mw_desc connection = do
    cached ← get_current_generation_mix by_mw_desc connection
    ok (donut cached)

  module _ (connections : ℕ → Result (Tables R)) where
    unfoldable pub landing : (String → String) → ℕ → Result (Page R F)
    unfolding list_regions get_region_by_slug get_region_by_canonical_code
    landing upper now = do
      national ← get_region_by_canonical_code upper (connections 0) "NATIONAL"
      default_region ← get_region_by_slug (connections 1) default_agile_region_slug
      common ← ctx connections 2 now
      ok (landing_html common national default_region)

    unfoldable pub region_page : String → ℕ → Result (Page R F)
    unfolding list_regions get_region_by_slug
    region_page slug now = do
      found ← get_region_by_slug (connections 0) slug
      region ← or_status 404 found
      agile ← agile_region connections region
      common ← ctx connections agile.1 now
      ok (region_html common region agile.0)

    unfoldable pub partial_current_conditions : String → Result (Page R F)
    unfolding get_region_by_slug get_current_carbon_intensity
    partial_current_conditions slug = do
      found ← get_region_by_slug (connections 0) slug
      region ← or_status 404 found
      current ← get_current_carbon_intensity (connections 1) region.region_id
      ok (current_conditions_html region current)

    unfoldable pub partial_best_slots : Result (List (SlotRow R)) → String → Result (Page R F)
    unfolding get_region_by_slug get_best_slots
    partial_best_slots slots_connection slug = do
      found ← get_region_by_slug (connections 0) slug
      region ← dno_or_400 found
      best ← get_best_slots slots_connection region.region_id
      ok (best_slots_html region best.0 best.1)

    unfoldable pub partial_carbon_trend : (DateTime → ℕ) → String → ℕ → Result (Page R F)
    partial_carbon_trend timestamptz slug now = do
      found ← get_region_by_slug (connections 0) slug
      region ← or_status 404 found
      from_ ← day_before now
      points ←
          get_carbon_intensity_range timestamptz (connections 1) region.region_id from_
            (now_utc now)
      ok (carbon_trend_html region points)

    unfoldable pub status_page :
        Result (Db R)
        → ((List (String × ℕ) → Health.Row) → Result (Option Health.Row))
        → ℕ
        → Result (Page R F)
    unfolding get_last_ingests list_regions db_ok
    status_page ingests_connection probe now = do
      last_ingests ← get_last_ingests ingests_connection
      is_db_ok ← db_ok probe
      common ← ctx connections 0 now
      ok (status_html common is_db_ok last_ingests)
