-- ===== src/Examples/Api.antt =====
-- The cache, the endpoints and the health check at concrete inputs.
use gridpulse.Prelude.{
  ℕ, suc, ◌+◌, ◌*◌, ◌≡◌, ◌↔◌, ◌⊎◌, refl, true, false, none, some, String, List, [], ◌∷◌, ◌++◌,
  Result, ok, raise, Exec, pos, key_error, In, arith, value_error,
}
use gridpulse.Datetime.{DateTime, instant, is_aware, day_us}
use gridpulse.Contracts.CarbonIntensity.{low}
use gridpulse.Api.Schemas.{CarbonIntensityPoint}
use gridpulse.Api.Sql.{IsOrdered}
use gridpulse.Api.Queries.{HalfHour, Tables, region_of, get_region_by_canonical_code}
use gridpulse.Api.Queries.Ranges.{IsAnswer}
use gridpulse.Api.Window.{IsWindow}
use gridpulse.Api.Cache.{TtlCache, Times, State, wrapper}
use gridpulse.Api.Cache.Fresh.{
  Call, Computed, Reaches, begins, called, computes, serve, IsFresh, wrapper_replies,
  wrapper_caches,
}
use gridpulse.Api.Routes.{carbon_intensity_range}
use gridpulse.Api.Routes.Range.{carbon_intensity_range_answers}
use gridpulse.Api.Health.{healthz}
use gridpulse.Api.Health.Probe.{select_one, healthz_always_degraded}
use gridpulse.Examples.Memory.{at, london, national, environ}
use gridpulse.Examples.Cached.{last_entry, named, same_range, same_range_eq, same_range_refl}

abbrev half : ℕ → HalfHour ℕ
half start = record {
  region_id = 13;
  period_start_utc = start;
  period_end_utc = start + 1800;
  forecast_gco2_per_kwh = pos 100;
  actual_gco2_per_kwh = none;
  intensity_index = some low;
  price_pence_per_kwh_inc_vat = none;
  price_pence_per_kwh_exc_vat = none;
}

abbrev pub tables : Tables ℕ
tables = record {
  dno_region = national ∷ london ∷ [];
  half_hourly = half (5 * day_us) ∷ half (3 * day_us) ∷ [];
  agile_price = [];
}

abbrev first_day : DateTime
first_day = at day_us

abbrev fifth_day : DateTime
fifth_day = at (5 * day_us)

window : IsWindow first_day fifth_day
window = record { from_aware = refl; to_aware = refl; ordered = omega arith; short = omega arith }

abbrev pub sends_instants : (d : DateTime) → is_aware d ≡ true → instant d ≡ instant d
sends_instants d h = refl

abbrev pub range_cache : TtlCache (String × (ℕ × DateTime × DateTime)) (List CarbonIntensityPoint)
range_cache = last_entry (named same_range same_range_eq same_range_refl) 120

abbrev pub times : Times
times = record { looked = 1000; read = 1000; stored = 1001 }

abbrev pub same_text : String → String
same_text code = code

found : get_region_by_canonical_code same_text (ok tables) "LONDON" ≡ ok (some (region_of london))
unfolding get_region_by_canonical_code
found = refl

carbon_intensity_range_answers_example :
    (points : List CarbonIntensityPoint) × ((carbon_intensity_range same_text times
        (λ d. instant d)
        range_cache
        "LONDON"
        first_day
        fifth_day
        (record { world = ok tables; cache = none })).0
      ≡ ok (record { region = region_of london; points = points }))
    × IsOrdered (λ p. p.period_start_utc) points
    × ((p : CarbonIntensityPoint)
        → In p points ↔ IsAnswer (λ d. instant d) sends_instants tables 13 first_day fifth_day p)
carbon_intensity_range_answers_example =
    carbon_intensity_range_answers same_text times (λ d. instant d) range_cache sends_instants
      tables none "LONDON" first_day fifth_day (region_of london) found window refl

abbrev regions_cache : TtlCache (String × (ℕ × DateTime × DateTime)) ℕ
regions_cache = last_entry (named same_range same_range_eq same_range_refl) 30

-- A function that counts its runs.
abbrev counted : ℕ × DateTime × DateTime → Exec ℕ ℕ
counted a n = (ok n, suc n)

abbrev call_at : ℕ → ℕ → Call ℕ (ℕ × DateTime × DateTime) ℕ
call_at looked read = record {
  qualname = "counted";
  func = counted;
  args = (13, first_day, fifth_day);
  times = record { looked = looked; read = read; stored = looked };
}

abbrev nothing : State ℕ regions_cache.Cache
nothing = record { world = 7; cache = none }

abbrev one_call : State ℕ regions_cache.Cache
one_call = (serve regions_cache (call_at 100 100) nothing).1

abbrev history : List (Computed (ℕ × DateTime × DateTime) ℕ)
history = computes regions_cache (call_at 100 100) nothing ++ []

reached : Reaches regions_cache history one_call
reached = called [] nothing (call_at 100 100) (begins 7)

abbrev late_call : Call ℕ (ℕ × DateTime × DateTime) ℕ
late_call = call_at 129 130

abbrev key : String × (ℕ × DateTime × DateTime)
key = ("counted", late_call.args)

abbrev reply : Result ℕ × State ℕ regions_cache.Cache
reply = wrapper regions_cache "counted" counted late_call.times late_call.args one_call

-- The entry expires between the two looks of the second call.
wrapper_replies_example :
    ((regions_cache.contains one_call.cache 129 key ≡ false)
      × (reply.0 ≡ (counted late_call.args one_call.world).0)
      × (reply.1.world ≡ (counted late_call.args one_call.world).1))
    ⊎ ((reply.1 ≡ one_call)
        × (((v : ℕ) × (reply.0 ≡ ok v)
              × IsFresh regions_cache history "counted" late_call.args 130 v)
            ⊎ ((reply.0 ≡ raise key_error)
                × (regions_cache.contains one_call.cache 129 key ≡ true)
                × (regions_cache.contains one_call.cache 130 key ≡ false))))
wrapper_replies_example = wrapper_replies regions_cache history one_call late_call reached

wrapper_caches_example :
    wrapper regions_cache "counted" counted
      (call_at 129 129).times
      (13, first_day, fifth_day)
      (wrapper regions_cache "counted" counted
        (call_at 100 100).times
        (13, first_day, fifth_day)
        nothing).1
    ≡ (
      ok 7,
      (wrapper regions_cache "counted" counted
          (call_at 100 100).times
          (13, first_day, fifth_day)
          nothing).1,
    )
wrapper_caches_example =
    wrapper_caches regions_cache nothing "counted" counted counted (13, first_day, fifth_day)
      (call_at 100 100).times (call_at 129 129).times refl 7 refl (omega arith) (omega arith)
      (omega arith) (omega arith)

healthz_always_degraded_example :
    healthz environ (select_one (ok (("?column?", 1) ∷ []))) (select_one (raise value_error))
    ≡ ok (record { status = "degraded"; db = "fail"; version = "set"; environment = "set" })
healthz_always_degraded_example =
    healthz_always_degraded environ (ok (("?column?", 1) ∷ [])) (raise value_error) tt refl
