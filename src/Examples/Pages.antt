-- ===== src/Examples/Pages.antt =====
-- The pages at concrete tables.
use gridpulse.Prelude.{
  ℕ, ◌-◌, ◌*◌, ◌≡◌, ◌⊎◌, ◌↔◌, refl, none, some, List, Result, ok, raise, http_exception, In, arith,
}
use gridpulse.Datetime.{instant, day_us}
use gridpulse.Api.Schemas.{Region, CarbonIntensityPoint}
use gridpulse.Api.Sql.{IsOrdered}
use gridpulse.Api.Queries.{Tables, get_region_by_slug}
use gridpulse.Api.Queries.Ranges.{IsAnswer}
use gridpulse.Api.Html.{carbon_trend_html, now_utc, partial_carbon_trend}
use gridpulse.Api.Html.Trend.{partial_carbon_trend_answers}
use gridpulse.Examples.Api.{tables, sends_instants}

abbrev connections : ℕ → Result (Tables ℕ)
connections k = ok tables

partial_carbon_trend_answers_example :
    ((get_region_by_slug (ok tables) "london" ≡ ok none)
      × (partial_carbon_trend {F = ℕ} connections (λ d. instant d) "london" (5 * day_us)
          ≡ raise (http_exception 404)))
    ⊎ ((region : Region) × (ps : List CarbonIntensityPoint) × (get_region_by_slug
            (ok tables)
            "london"
          ≡ ok (some region))
        × (partial_carbon_trend {F = ℕ} connections (λ d. instant d) "london" (5 * day_us)
            ≡ ok (carbon_trend_html region ps))
        × IsOrdered (λ p. p.period_start_utc) ps
        × ((p : CarbonIntensityPoint)
            → In p ps
              ↔ IsAnswer
                  (λ d. instant d)
                  sends_instants
                  tables
                  region.region_id
                  (now_utc (5 * day_us - day_us))
                  (now_utc (5 * day_us))
                  p))
partial_carbon_trend_answers_example =
    partial_carbon_trend_answers {F = ℕ} connections (λ d. instant d) sends_instants tables tables
      "london" (5 * day_us) refl refl (omega arith)
