-- ===== src/Dagster/Metadata.antt =====
-- `_materialize_result` of gridpulse/dagster_defs/assets.py: what a run shows of its rows. A dict of
-- metadata is the list of its entries, in order.
pub mod Summary
use gridpulse.Prelude.{
  ℕ, String, ℤ, pos, Bool, true, false, List, [], ◌∷◌, ◌++◌, map, length, Result, ok, ◌>>=◌, ◌||◌,
  ◌==◌, ltb, ltb_ℤ, if◌then◌else◌,
}
use gridpulse.Datetime.{DateTime, instant, same_kind}
use gridpulse.Contracts.CarbonIntensity.{CarbonIntensityRow}
use gridpulse.Contracts.Neso.{NesoGenerationMixRow}
use gridpulse.Contracts.Octopus.{AgilePriceRow}

-- `F` is the type of Python's floats.
pub data MetadataValue (F : Type 0) : Type 0 where
  text path : String → MetadataValue F
  int : ℤ → MetadataValue F
  float : F → MetadataValue F
  json : List (String × ℤ) → MetadataValue F

abbrev pub Metadata : Type 0 → Type 0
Metadata F = List (String × MetadataValue F)

-- The rows of a run, by their class.
pub data Rows (F : Type 0) : Type 0 where
  carbon_rows : List CarbonIntensityRow → Rows F
  price_rows : List (AgilePriceRow F) → Rows F
  mix_rows : List (NesoGenerationMixRow F) → Rows F

-- `max`, which keeps the first of the greatest. Comparing a naive with an aware time raises.
unfoldable pub latest : DateTime → List DateTime → Result DateTime
latest best [] = ok best
latest best (d ∷ ds) = do
  is_later ← same_kind best.tzinfo d.tzinfo (ltb (instant best) (instant d))
  latest (if is_later then d else best) ds

-- `min` and `max` by the order `lt`
unfoldable pub least : {A : Type 0} → (A → A → Bool) → A → List A → A
least lt best [] = best
least lt best (x ∷ xs) = least lt (if lt x best then x else best) xs

unfoldable pub greatest : {A : Type 0} → (A → A → Bool) → A → List A → A
greatest lt best [] = best
greatest lt best (x ∷ xs) = greatest lt (if lt best x then x else best) xs

unfoldable pub is_among : ℕ → List ℕ → Bool
is_among n [] = false
is_among n (x ∷ xs) = x == n || is_among n xs

-- the elements of a set
unfoldable pub distinct : List ℕ → List ℕ
unfolding is_among
distinct [] = []
distinct (x ∷ xs) = if is_among x xs then distinct xs else x ∷ distinct xs

module _ {F : Type 0} where
  abbrev pub starts : Rows F → List DateTime
  starts (carbon_rows rs) = map (λ r. r.period_start_utc) rs
  starts (price_rows rs) = map (λ r. r.period_start_utc) rs
  starts (mix_rows rs) = map (λ r. r.period_start_utc) rs

  -- `isoformat` is the method of `datetime`, `float_lt` Python's order on floats.
  module _ (isoformat : DateTime → String) (float_lt : F → F → Bool) where
    unfoldable pub extras : Rows F → Metadata F
    unfolding least greatest distinct
    extras (carbon_rows []) = []
    extras (price_rows []) = []
    extras (mix_rows []) = []
    extras (carbon_rows (r ∷ rs)) =
        let forecasts = map (λ x. x.forecast_gco2_per_kwh) rs in
        ("forecast_min_gco2_per_kwh", int (least ltb_ℤ r.forecast_gco2_per_kwh forecasts))
        ∷ ("forecast_max_gco2_per_kwh", int (greatest ltb_ℤ r.forecast_gco2_per_kwh forecasts))
        ∷ ("regions", int (pos (length (distinct (map (λ x. x.region_id) (r ∷ rs))))))
        ∷ []
    extras (price_rows (r ∷ rs)) =
        let prices = map (λ x. x.price_pence_per_kwh_inc_vat) rs in
        ("price_min_pence", float (least float_lt r.price_pence_per_kwh_inc_vat prices))
        ∷ ("price_max_pence", float (greatest float_lt r.price_pence_per_kwh_inc_vat prices))
        ∷ ("regions", int (pos (length (distinct (map (λ x. x.region_id) (r ∷ rs))))))
        ∷ []
    extras (mix_rows (r ∷ rs)) =
        let totals = map (λ x. x.total_generation_mw) rs in
        ("total_generation_min_mw", float (least float_lt r.total_generation_mw totals))
        ∷ ("total_generation_max_mw", float (greatest float_lt r.total_generation_mw totals))
        ∷ []

    abbrev pub summary : ℕ → Rows F → String → List DateTime → Result (Metadata F)
    summary rows_written rows source [] =
        ok (("source", text source) ∷ ("rows_written", int (pos 0)) ∷ [])
    summary rows_written rows source (d ∷ ds) = do
      latest_period ← latest d ds
      ok (
          (("source", text source)
            ∷ ("rows_written", int (pos rows_written))
            ∷ ("latest_period_utc", text (isoformat latest_period))
            ∷ [])
          ++ extras rows)

    unfoldable pub materialize_result : ℕ → Rows F → String → Result (Metadata F)
    unfolding extras latest
    materialize_result rows_written rows source = summary rows_written rows source (starts rows)
