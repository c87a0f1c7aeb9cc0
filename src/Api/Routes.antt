-- ===== src/Api/Routes.antt =====
-- gridpulse/api/routes/json_api.py: the endpoints. Each cached query has its share of the cache, as
-- its name is part of the key; the world that the queries read is what a connection gives.
pub mod Range
pub mod Current
use gridpulse.Prelude.{
  ℕ, String, Bool, Option, none, some, List, [], Result, ok, raise, http_exception, ◌>>=◌, Exec,
  continue, ◌==◌, if◌then◌else◌,
}
use gridpulse.Datetime.{DateTime, utc}
use gridpulse.Api.Schemas.{
  Region, RegionsResponse, CarbonIntensityPoint, CarbonIntensityCurrentResponse,
  CarbonIntensityRangeResponse, AgilePricePoint, AgilePriceCurrentResponse, AgilePriceRangeResponse,
  GenerationMixFuel, GenerationMixCurrentResponse, BestSlot, BestSlotsResponse,
}
use gridpulse.Api.Queries.{
  Tables, list_regions, get_region_by_canonical_code, get_current_carbon_intensity,
  get_carbon_intensity_range, get_current_agile_price, get_agile_price_range,
}
use gridpulse.Api.Marts.{MixLong, SlotRow, get_current_generation_mix, get_best_slots}
use gridpulse.Api.Window.{parse_window}
use gridpulse.Api.Cache.{TtlCache, Times, State, wrapper}

abbrev pub known : Option Region → Result Region
known none = raise (http_exception 400)
known (some r) = ok r

-- a query, as a function that reads the world and leaves it
abbrev pub reads : {W A B : Type 0} → (W → A → Result B) → A → Exec W B
reads query a w = (query w a, w)

-- Agile prices are per DNO
abbrev pub dno_only : Region → Result Region
dno_only r = if r.region_id == 0 then raise (http_exception 400) else ok r

abbrev pub current_response :
    Region → Option CarbonIntensityPoint → Result CarbonIntensityCurrentResponse
current_response region none = raise (http_exception 404)
current_response region (some point) = ok (record { region = region; current = point })

abbrev pub mix_response :
    {F : Type 0} → Option (ℕ × List (GenerationMixFuel F)) → Result (GenerationMixCurrentResponse F)
mix_response none = raise (http_exception 404)
mix_response (some (ts, fuels)) = ok (record { period_start_utc = ts; fuels = fuels })

unfoldable pub generation_mix_current :
    {F : Type 0} (times : Times)
    → (List (MixLong F) → List (MixLong F))
    → (lib : TtlCache (String × Unit {0}) (Option (ℕ × List (GenerationMixFuel F))))
    → Exec (State (Result (List (MixLong F))) lib.Cache) (GenerationMixCurrentResponse F)
unfolding wrapper get_current_generation_mix
generation_mix_current times by_mw_desc lib s =
    continue
      (wrapper lib "_gen_mix_current_cached" (reads λ w u. get_current_generation_mix by_mw_desc w)
        times tt s)
      λ cached s'. (mix_response cached, s')

module _ {R : Type 0} (upper : String → String) where
  unfoldable pub resolve_region : Result (Tables R) → String → Result Region
  resolve_region connection code = do
    region ← get_region_by_canonical_code upper connection code
    known region

  -- The caches of the endpoints' queries, by the arguments of each, and the clock's readings.
  module _ (times : Times) where
    unfoldable pub list_regions_endpoint :
        (lib : TtlCache (String × Unit {0}) RegionsResponse)
        → Exec (State (Result (Tables R)) lib.Cache) RegionsResponse
    unfolding wrapper list_regions
    list_regions_endpoint lib =
        wrapper lib "_list_regions_cached"
          (reads λ w u. do regions ← list_regions w; ok (record { regions = regions })) times tt

    unfoldable pub carbon_intensity_current :
        (lib : TtlCache (String × ℕ) (Option CarbonIntensityPoint))
        → String
        → Exec (State (Result (Tables R)) lib.Cache) CarbonIntensityCurrentResponse
    unfolding resolve_region wrapper get_current_carbon_intensity
    carbon_intensity_current lib code s =
        continue (resolve_region s.world code, s)
          λ region s'.
            continue
              (wrapper lib "_carbon_current_cached" (reads get_current_carbon_intensity) times
                region.region_id s')
              λ current s''. (current_response region current, s'')

    unfoldable pub agile_price_current :
        (lib : TtlCache (String × ℕ) (Option (AgilePricePoint R)))
        → ℕ
        → String
        → Exec (State (Result (Tables R)) lib.Cache) (AgilePriceCurrentResponse R)
    unfolding resolve_region wrapper get_current_agile_price
    agile_price_current lib now code s =
        continue (resolve_region s.world code, s)
          λ region s'.
            continue (dno_only region, s')
              λ dno s₁.
                continue
                  (wrapper lib "_agile_current_cached" (reads λ w. get_current_agile_price w now)
                    times dno.region_id s₁)
                  λ current s''. (ok (record { region = dno; current = current }), s'')

    module _ (timestamptz : DateTime → ℕ) where
      unfoldable pub carbon_intensity_range :
          (lib : TtlCache (String × (ℕ × DateTime × DateTime)) (List CarbonIntensityPoint))
          → String
          → DateTime
          → DateTime
          → Exec (State (Result (Tables R)) lib.Cache) CarbonIntensityRangeResponse
      carbon_intensity_range lib code from_ to s =
          continue (resolve_region s.world code, s)
            λ region s'.
              continue (parse_window from_ to, s')
                λ window s₁.
                  continue
                    (wrapper lib "_carbon_range_cached"
                      (reads λ w a. get_carbon_intensity_range timestamptz w a.0 a.1 a.2) times
                      (region.region_id, window.0, window.1) s₁)
                    λ points s''. (ok (record { region = region; points = points }), s'')

      unfoldable pub agile_price_range :
          (lib : TtlCache (String × (ℕ × DateTime × DateTime)) (List (AgilePricePoint R)))
          → String
          → DateTime
          → DateTime
          → Exec (State (Result (Tables R)) lib.Cache) (AgilePriceRangeResponse R)
      unfolding resolve_region parse_window wrapper get_agile_price_range
      agile_price_range lib code from_ to s =
          continue (resolve_region s.world code, s)
            λ region s'.
              continue (dno_only region, s')
                λ dno s₀.
                  continue (parse_window from_ to, s₀)
                    λ window s₁.
                      continue
                        (wrapper lib "_agile_range_cached"
                          (reads λ w a. get_agile_price_range timestamptz w a.0 a.1 a.2) times
                          (dno.region_id, window.0, window.1) s₁)
                        λ points s''. (ok (record { region = dno; points = points }), s'')

    -- its world has the mart beside the tables
    abbrev pub slots_response :
        ℕ → Region → Option DateTime × List (BestSlot R) → BestSlotsResponse R
    slots_response now region (none, slots) = record {
      region = region;
      computed_at_utc = record { wall = now; tzinfo = some utc };
      slots = [];
    }
    slots_response now region (some computed_at, slots) = record {
      region = region;
      computed_at_utc = computed_at;
      slots = slots;
    }

    unfoldable pub best_slots :
        (lib : TtlCache (String × ℕ) (Option DateTime × List (BestSlot R)))
        → ℕ
        → String
        → Exec
            (State (Result (Tables R) × Result (List (SlotRow R))) lib.Cache)
            (BestSlotsResponse R)
    unfolding resolve_region wrapper get_best_slots
    best_slots lib now code s =
        continue (resolve_region s.world.0 code, s)
          λ region s'.
            continue (dno_only region, s')
              λ dno s₀.
                continue
                  (wrapper lib "_best_slots_cached" (reads λ w. get_best_slots w.1) times
                    dno.region_id s₀)
                  λ found s''. (ok (slots_response now dno found), s'')
