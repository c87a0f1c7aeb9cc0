-- ===== src/Api/Html/Trend.antt =====
-- The trend of the last day.
use gridpulse.Prelude.{
  ℕ, ◌-◌, ◌≤◌, String, ◌≡◌, ◌⊎◌, inl, inr, refl, ap, ◌∙◌, ◌↔◌, true, Option, none, some, List,
  Result, ok, raise, http_exception, In, arith, Option-cases,
}
use gridpulse.Datetime.{DateTime, instant, is_aware, day_us}
use gridpulse.Api.Schemas.{Region, CarbonIntensityPoint}
use gridpulse.Api.Sql.{IsOrdered}
use gridpulse.Api.Queries.{Tables, get_region_by_slug}
use gridpulse.Api.Queries.Ranges.{IsAnswer, get_carbon_intensity_range_answers}
use gridpulse.Api.Window.{IsWindow}
use gridpulse.Api.Html.{carbon_trend_html, now_utc, day_before, partial_carbon_trend}

last_day : (now : ℕ) → day_us ≤ now → IsWindow (now_utc (now - day_us)) (now_utc now)
last_day now h = record {
  from_aware = refl;
  to_aware = refl;
  ordered = omega (arith, h);
  short = omega (arith, h);
}

day_before_lem : (now : ℕ) → day_us ≤ now → day_before now ≡ ok (now_utc (now - day_us))
day_before_lem now h = ground (arith, h)

get_region_by_slug-ok :
    {R : Type 0} (t : Tables R) (slug : String)
    → (o : Option Region) × (get_region_by_slug (ok t) slug ≡ ok o)
unfolding get_region_by_slug
get_region_by_slug-ok t slug = (_, refl)

module _ {R F : Type 0} (connections : ℕ → Result (Tables R)) (timestamptz : DateTime → ℕ)
    (sends_instants : (d : DateTime) → is_aware d ≡ true → timestamptz d ≡ instant d) where
  -- When the two queries of the handler have their tables, aware times are sent as their instants
  -- and the clock is past the first day of the calendar: an unknown slug is answered with status
  -- 404; a known one with a page for its region, whose points are in the order of their starts, and
  -- are exactly those of the mart's half-hours that are of the region, start in the 24 hours before
  -- now, and have an index. The guard on the length of the window never refuses them.
  pub partial_carbon_trend_answers :
      (t u : Tables R) (slug : String) (now : ℕ)
      → connections 0 ≡ ok t
      → connections 1 ≡ ok u
      → day_us ≤ now
      → ((get_region_by_slug (ok t) slug ≡ ok none)
          × (partial_carbon_trend {F = F} connections timestamptz slug now
              ≡ raise (http_exception 404)))
        ⊎ ((region : Region) × (ps : List CarbonIntensityPoint) × (get_region_by_slug (ok t) slug
              ≡ ok (some region))
            × (partial_carbon_trend {F = F} connections timestamptz slug now
                ≡ ok (carbon_trend_html region ps))
            × IsOrdered (λ p. p.period_start_utc) ps
            × ((p : CarbonIntensityPoint)
                → In p ps
                  ↔ IsAnswer timestamptz sends_instants u region.region_id
                      (now_utc (now - day_us))
                      (now_utc now)
                      p))
  unfolding partial_carbon_trend
  partial_carbon_trend_answers t u slug now first second past =
      let (o, looked) = get_region_by_slug-ok t slug in
      elim (Option-cases o) [
        | inl none_ ↦ let unknown = looked ∙ ap ok none_ in inl (unknown, rw (first, unknown) refl)
        | inr (region, found) ↦
            let known = looked ∙ ap ok found in
            let (ps, answered, ordered, exact) =
              get_carbon_intensity_range_answers timestamptz sends_instants u region.region_id
                (now_utc (now - day_us)) (now_utc now) (last_day now past) in
            inr (
              region,
              ps,
              known,
              rw (first, known, day_before_lem now past, second, answered) refl,
              ordered,
              exact,
            )
      ]
