-- ===== src/Api/Routes/Range.antt =====
-- What the range endpoint of carbon intensity answers.
use gridpulse.Prelude.{
  ℕ, String, ◌≡◌, refl, ◌⊎◌, inl, inr, ◌↔◌, true, false, none, some, List, ok, raise,
  http_exception, In,
}
use gridpulse.Datetime.{DateTime, instant, is_aware}
use gridpulse.Api.Schemas.{Region, CarbonIntensityPoint}
use gridpulse.Api.Sql.{IsOrdered}
use gridpulse.Api.Queries.{Tables, get_region_by_canonical_code}
use gridpulse.Api.Queries.Ranges.{IsAnswer, get_carbon_intensity_range_answers}
use gridpulse.Api.Window.{IsWindow, parse_window, parse_window_decides}
use gridpulse.Api.Cache.{TtlCache, Times, wrapper}
use gridpulse.Api.Routes.{carbon_intensity_range, resolve_region}

parsed : (from_ to : DateTime) → IsWindow from_ to → parse_window from_ to ≡ ok (from_, to)
parsed from_ to w = elim (parse_window_decides from_ to) [
  | inl (_, e) ↦ e
  | inr (no_window, _) ↦ absurd (no_window w)
]

refused :
    (from_ to : DateTime) → ¬ IsWindow from_ to → parse_window from_ to ≡ raise (http_exception 400)
refused from_ to no_window = elim (parse_window_decides from_ to) [
  | inl (w, _) ↦ absurd (no_window w)
  | inr (_, e) ↦ e
]

module _ {R : Type 0} (upper : String → String) (times : Times) (timestamptz : DateTime → ℕ)
    (lib : TtlCache (String × (ℕ × DateTime × DateTime)) (List CarbonIntensityPoint)) where
  -- When the tables are at hand, an unknown region code is answered with status 400, and so is a
  -- known one with two times that are no window; the cache is then as it was.
  pub carbon_intensity_range_refuses :
      (t : Tables R) (cache : lib.Cache) (code : String) (from_ to : DateTime)
      → (get_region_by_canonical_code upper (ok t) code ≡ ok none)
        ⊎ ((region : Region) × (get_region_by_canonical_code upper (ok t) code ≡ ok (some region))
            × (¬ IsWindow from_ to))
      → carbon_intensity_range upper times timestamptz lib code from_ to
          (record { world = ok t; cache = cache })
        ≡ (raise (http_exception 400), record { world = ok t; cache = cache })
  unfolding carbon_intensity_range resolve_region
  carbon_intensity_range_refuses t cache code from_ to (inl unknown) = rw unknown refl
  carbon_intensity_range_refuses t cache code from_ to (inr (region, known, no_window)) =
      rw (known, refused from_ to no_window) refl

  module _ (sends_instants : (d : DateTime) → is_aware d ≡ true → timestamptz d ≡ instant d) where
    -- When the tables are at hand, aware times are sent as their instants, the region code is
    -- known, the two times are a window and the cache has no entry for them, the endpoint returns,
    -- with the region and with points in the order of their starts: exactly those of the mart's
    -- half-hours that are of the region, start in the window (its end excluded), and have an
    -- index.
    pub carbon_intensity_range_answers :
        (t : Tables R) (cache : lib.Cache) (code : String) (from_ to : DateTime) (region : Region)
        → get_region_by_canonical_code upper (ok t) code ≡ ok (some region)
        → IsWindow from_ to
        → lib.contains cache times.looked ("_carbon_range_cached", (region.region_id, from_, to))
          ≡ false
        → (points : List CarbonIntensityPoint) × ((carbon_intensity_range upper times timestamptz
              lib code from_ to
              (record { world = ok t; cache = cache })).0
            ≡ ok (record { region = region; points = points }))
          × IsOrdered (λ p. p.period_start_utc) points
          × ((p : CarbonIntensityPoint)
              → In p points ↔ IsAnswer timestamptz sends_instants t region.region_id from_ to p)
    unfolding carbon_intensity_range resolve_region wrapper
    carbon_intensity_range_answers t cache code from_ to region known w miss =
        let (points, e, ordered, answers) =
          get_carbon_intensity_range_answers timestamptz sends_instants t region.region_id from_ to
            w in
        (points, rw (known, parsed from_ to w, miss, e) refl, ordered, answers)
