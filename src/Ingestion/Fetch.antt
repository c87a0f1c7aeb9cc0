-- ===== src/Ingestion/Fetch.antt =====
-- gridpulse/ingestion/carbon_intensity.py, neso.py and octopus.py. Pydantic's validation of a
-- payload is a parameter of each function.
pub mod Rows
use Prim.Native.String.{◌++◌}
use gridpulse.Prelude.{ℕ, String, List, [], ◌∷◌, Result, ok, raise, Exec, continue, ◌>>=◌, str}
use mathlib.Core.List.{◌++◌ as append}
use gridpulse.Contracts.CarbonIntensity.{
  NationalResponse, RegionalResponse, CarbonIntensityRow, national_to_rows, regional_to_rows,
}
use gridpulse.Contracts.Neso.{NesoResponse, NesoGenerationMixRow, neso_to_rows}
use gridpulse.Contracts.Octopus.{AgileRatesResponse, AgilePriceRow, agile_to_rows}
use gridpulse.Ingestion.Http.{Request, Net, Httpx, Tenacity, get_with_retry}

abbrev pub carbon_url : String
carbon_url = "https://api.carbonintensity.org.uk"

abbrev pub neso_url : String
neso_url = "https://api.neso.energy"

abbrev pub generation_mix_resource_id : String
generation_mix_resource_id = "f93d1835-75bc-43e5-84ad-12472b180a98"

abbrev pub octopus_url : String
octopus_url = "https://api.octopus.energy"

abbrev pub agile_product : String
agile_product = "AGILE-24-10-01"

unfoldable pub tariff_code : String → String
tariff_code octopus_code = "E-1R-" ++ (agile_product ++ ("-" ++ octopus_code))

abbrev pub get : String → String → List (String × String) → Request
get base_url path params = record { base_url = base_url; path = path; params = params }

unfoldable pub neso_request : ℕ → Request
unfolding str
neso_request limit = get neso_url "/api/3/action/datastore_search" (
    ("resource_id", generation_mix_resource_id)
    ∷ ("limit", str limit)
    ∷ ("sort", "DATETIME desc")
    ∷ [])

unfoldable pub agile_request : String → ℕ → Request
unfolding str tariff_code
agile_request octopus_code page_size =
    get octopus_url
      ("/v1/products/"
        ++ (agile_product
            ++ ("/electricity-tariffs/" ++ (tariff_code octopus_code ++ "/standard-unit-rates/"))))
      (("page_size", str page_size) ∷ [])

module _ {J W : Type 0} (httpx : Httpx J W) (tenacity : Tenacity W) where
  -- Ask, then validate and convert: what all the functions below do.
  unfoldable pub fetch : {A : Type 0} → Request → (J → Result A) → Exec (Net W) A
  fetch q convert s =
      continue (get_with_retry httpx tenacity q s) λ payload s'. (convert payload, s')

  unfoldable pub fetch_national :
      (J → Result NationalResponse) → Exec (Net W) (List CarbonIntensityRow)
  unfolding fetch
  fetch_national validate =
      fetch (get carbon_url "/intensity" [])
        λ payload. do parsed ← validate payload; ok (national_to_rows parsed)

  module _ {F : Type 0} where
    unfoldable pub fetch_regional :
        (J → Result (RegionalResponse F)) → Exec (Net W) (List CarbonIntensityRow)
    unfolding fetch
    fetch_regional validate =
        fetch (get carbon_url "/regional" [])
          λ payload. do parsed ← validate payload; ok (regional_to_rows parsed)

    unfoldable pub fetch_recent_generation_mix :
        (J → Result (NesoResponse F)) → ℕ → Exec (Net W) (List (NesoGenerationMixRow F))
    unfolding fetch neso_request
    fetch_recent_generation_mix validate limit =
        fetch (neso_request limit) λ payload. do parsed ← validate payload; neso_to_rows parsed

    module _ (validate : J → Result (AgileRatesResponse F)) where
      unfoldable pub fetch_agile_rates_for_region :
          ℕ → String → ℕ → Exec (Net W) (List (AgilePriceRow F))
      unfolding fetch agile_request
      fetch_agile_rates_for_region region_id octopus_code page_size =
          fetch (agile_request octopus_code page_size)
            λ payload. do parsed ← validate payload; ok (agile_to_rows parsed region_id)

      -- the loop, `out` so far
      unfoldable pub fetch_each :
          List (ℕ × String) → ℕ → List (AgilePriceRow F) → Exec (Net W) (List (AgilePriceRow F))
      fetch_each [] page_size out s = (ok out, s)
      fetch_each ((region_id, octopus_code) ∷ rest) page_size out s =
          continue (fetch_agile_rates_for_region region_id octopus_code page_size s)
            λ rows s'. fetch_each rest page_size (append out rows) s'

      unfoldable pub fetch_agile_rates_all_regions :
          List (ℕ × String) → ℕ → Exec (Net W) (List (AgilePriceRow F))
      unfolding fetch_each
      fetch_agile_rates_all_regions regions page_size = fetch_each regions page_size []
