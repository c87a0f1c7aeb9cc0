-- ===== src/Dbt/Served.antt =====
-- From the upsert of carbon intensity through the mart to the range endpoint.
use gridpulse.Prelude.{
  ℕ, String, ℤ, ◌≤◌, ◌<◌, ◌≡◌, ◌≢◌, ◌⊎◌, inl, inr, refl, ap, ap₂, sym, ◌∙◌, false, Bool-cases,
  ==_iff, ◌==◌, Option, some, List, map, Result, ok, All, In, All-In, All-of_In, In-map, In-map_of,
  arith, ok-injective,
}
use mathlib.Core.Path.{subst}
use gridpulse.Datetime.{DateTime, instant}
use gridpulse.Contracts.CarbonIntensity.{CarbonIntensityRow}
use gridpulse.Storage.Keyed.{find}
use gridpulse.Storage.Keyed.Lookup.{find-In, In-find, some-injective}
use gridpulse.Storage.Pool.{Process}
use gridpulse.Storage.Postgres.{Key, key_eq, Db, Driver, CarbonRecord}
use gridpulse.Storage.Postgres.Carbon.{payload, coalesce, upsert_carbon_intensity_rows}
use gridpulse.Storage.Postgres.Carbon.Settled.{last_at, last_actual, actual_of, settled}
use gridpulse.Storage.Postgres.Carbon.Table.{IsSound, RowIsSound, SameElsewhere}
use gridpulse.Storage.Postgres.Carbon.Upsert.{upsert_carbon_settles, upsert_carbon-IsSound}
use gridpulse.Storage.Postgres.Price.Upsert.{PricesAreSound}
use gridpulse.Storage.Postgres.Price.Upsert
use gridpulse.Api.Schemas.{Region, CarbonIntensityPoint}
use gridpulse.Api.Queries.{HalfHour, Tables, carbon_point, get_region_by_canonical_code}
use gridpulse.Api.Queries.Prices.{served}
use gridpulse.Api.Window.{IsWindow}
use gridpulse.Api.Cache.{TtlCache, Times}
use gridpulse.Api.Routes.{carbon_intensity_range}
use gridpulse.Api.Routes.Range.{carbon_intensity_range_answers}
use gridpulse.Dbt.{mart_half_hourly}
use gridpulse.Dbt.HalfHourly.{joined, mart_half_hourly_joins}

-- The tables that the API reads after dbt has built the marts of a database.
abbrev pub built : {R : Type 0} → Db R → Tables R
built d = served (mart_half_hourly d) d

prices_kept : {R : Type 0} (d d' : Db R) → SameElsewhere d d' → PricesAreSound d → PricesAreSound d'
prices_kept d d' same sound =
    let regions = sym same.dno_region in
    let prices = sym same.agile_price in
    record {
      keyed = rw same.agile_price sound.keyed;
      rows =
          subst (λ t. All (λ x. Upsert.RowIsSound d'.dno_region x.0 x.1) t) prices
            (subst (λ g. All (λ x. Upsert.RowIsSound g x.0 x.1) d.agile_price) regions sound.rows);
    }

-- What the endpoint makes of a stored row.
abbrev pub point_of : CarbonRecord → CarbonIntensityPoint
point_of c = record {
  region_id = c.region_id;
  period_start_utc = c.period_start_utc;
  period_end_utc = c.period_end_utc;
  forecast_gco2_per_kwh = c.forecast_gco2_per_kwh;
  actual_gco2_per_kwh = c.actual_gco2_per_kwh;
  intensity_index = c.intensity_index;
}

module _ {R : Type 0} (d : Db R) (carbon : IsSound d) (prices : PricesAreSound d) where
  mart-In :
      (k : Key) (c : CarbonRecord)
      → find k d.carbon_intensity ≡ some c
      → In (joined d.agile_price (k, c)) (mart_half_hourly d)
  mart-In k c found =
      subst (In (joined d.agile_price (k, c))) (sym (mart_half_hourly_joins d carbon prices).0) (
        In-map_of (joined d.agile_price) (k, c) d.carbon_intensity
          (find-In k c d.carbon_intensity found))

  In-mart :
      (row : HalfHour R)
      → In row (mart_half_hourly d)
      → (k : Key) × (c : CarbonRecord) × (row ≡ joined d.agile_price (k, c))
        × (find k d.carbon_intensity ≡ some c)
        × (c.region_id ≡ k.0)
        × (c.period_start_utc ≡ k.1)
  In-mart row m =
      let (x, n, e) =
        In-map (joined d.agile_price) row d.carbon_intensity
          (subst (In row) (mart_half_hourly_joins d carbon prices).0 m) in
      let h = All-In (λ x. RowIsSound d.dno_region x.0 x.1) x d.carbon_intensity carbon.rows n in
      (x.0, x.1, e, In-find x.0 x.1 d.carbon_intensity carbon.keyed n, h.0, h.1)

  -- A row of the mart is the one of the stored row with its start, if it has its region.
  only :
      (k : Key) (c : CarbonRecord) (row : HalfHour R) (p : CarbonIntensityPoint)
      → find k d.carbon_intensity ≡ some c
      → In row (mart_half_hourly d)
      → row.region_id ≡ k.0
      → carbon_point row ≡ ok p
      → (p.period_start_utc ≢ k.1) ⊎ (p ≡ point_of c)
  only k c row p found m region made =
      let (j, b, e, at, i, t) = In-mart row m in
      let here : p ≡ point_of b = ok-injective (sym made ∙ ap carbon_point e) in
      elim (Bool-cases (p.period_start_utc == k.1)) [
        | inr other ↦ inl (λ h. ground (arith, h, other))
        | inl start ↦
            let starts = (==_iff p.period_start_utc k.1).0 start in
            let same : j ≡ k =
              ap₂ (λ a b. (a, b)) (sym i ∙ (sym (ap (λ x. x.region_id) e) ∙ region))
                (sym t ∙ (sym (ap (λ x. x.period_start_utc) here) ∙ starts)) in
            inr (
              here
              ∙ ap point_of
                  (some-injective (sym at ∙ (ap (λ l. find l d.carbon_intensity) same ∙ found))))
      ]

module _ {P F R : Type 0} (driver : Driver P F R) where
  open driver use {timestamptz}

  abbrev pub key_of : CarbonIntensityRow → Key
  key_of r = (r.region_id, timestamptz r.period_start_utc)

  -- The point that a row is to become, with a realised value.
  abbrev pub expected : CarbonIntensityRow → Option ℤ → CarbonIntensityPoint
  expected r actual = record {
    region_id = r.region_id;
    period_start_utc = timestamptz r.period_start_utc;
    period_end_utc = timestamptz r.period_end_utc;
    forecast_gco2_per_kwh = r.forecast_gco2_per_kwh;
    actual_gco2_per_kwh = actual;
    intensity_index = r.intensity_index;
  }

  -- The last realised value that is known of the half-hour of a row: of the batch, or of the table.
  abbrev pub known_actual : CarbonIntensityRow → List CarbonIntensityRow → Db R → Option ℤ
  known_actual r rows d =
      coalesce (last_actual driver (key_of r) (map payload rows))
        (actual_of (find (key_of r) d.carbon_intensity))

module _ {P F R : Type 0} (driver : Driver P F R) (now : ℕ) (environ : String → Option String)
    (new_pool : String → Result P) where
  open driver use {timestamptz, timestamptz_aware}

  stored :
      (r : CarbonIntensityRow) (rows : List CarbonIntensityRow) (s s' : Process P (Db R)) (n : ℕ)
      → IsSound s.db
      → upsert_carbon_intensity_rows driver now environ new_pool rows s ≡ (ok n, s')
      → last_at driver (key_of driver r) (map payload rows) ≡ some (payload r)
      → (c : CarbonRecord) × (find (key_of driver r) s'.db.carbon_intensity ≡ some c)
        × (point_of c ≡ expected driver r (known_actual driver r rows s.db))
  unfolding payload
  stored r rows s s' n sound h last =
      let (_, _, settles) = upsert_carbon_settles driver environ new_pool now rows s s' n sound h in
      (
        _,
        settles (key_of driver r)
            ∙ ap
                (λ o.
                  settled driver now (key_of driver r) o
                    (last_actual driver (key_of driver r) (map payload rows))
                    (find (key_of driver r) s.db.carbon_intensity))
                last,
        refl,
      )

  -- From tables that meet their keys and constraints: once an upsert of carbon intensity has
  -- returned and dbt has built the mart, the range endpoint, for the code of a row's region, over a
  -- window that the row's start lies in and that the cache has no entry for, returns points that
  -- have the row, if it is the last of the upsert for its half-hour, with the last realised value
  -- of the upsert or else the one that was stored; and no other point with its start.
  pub carbon_reaches_endpoint :
      (upper : String → String) (times : Times)
      (lib : TtlCache (String × (ℕ × DateTime × DateTime)) (List CarbonIntensityPoint))
      (cache : lib.Cache) (code : String) (region : Region) (from_ to : DateTime)
      (r : CarbonIntensityRow) (rows : List CarbonIntensityRow) (s s' : Process P (Db R)) (n : ℕ)
      → IsSound s.db
      → PricesAreSound s.db
      → upsert_carbon_intensity_rows driver now environ new_pool rows s ≡ (ok n, s')
      → last_at driver (key_of driver r) (map payload rows) ≡ some (payload r)
      → get_region_by_canonical_code upper (ok (built s'.db)) code ≡ ok (some region)
      → region.region_id ≡ r.region_id
      → IsWindow from_ to
      → instant from_ ≤ timestamptz r.period_start_utc
      → timestamptz r.period_start_utc < instant to
      → lib.contains cache times.looked ("_carbon_range_cached", (region.region_id, from_, to))
        ≡ false
      → (points : List CarbonIntensityPoint) × ((carbon_intensity_range upper times timestamptz lib
            code from_ to
            (record { world = ok (built s'.db); cache = cache })).0
          ≡ ok (record { region = region; points = points }))
        × In (expected driver r (known_actual driver r rows s.db)) points
        × All
            (λ p.
              (p.period_start_utc ≢ timestamptz r.period_start_utc)
              ⊎ (p ≡ expected driver r (known_actual driver r rows s.db)))
            points
  carbon_reaches_endpoint upper times lib cache code region from_ to r rows s s' n sound priced h
        last known same w lower upper_ miss =
      let (_, elsewhere, _) =
        upsert_carbon_settles driver environ new_pool now rows s s' n sound h in
      let carbon : IsSound s'.db =
        subst (λ y. IsSound y.1.db) h
          (upsert_carbon-IsSound driver environ new_pool now rows s sound) in
      let prices = prices_kept s.db s'.db elsewhere priced in
      let (c, found, is_point) = stored r rows s s' n sound h last in
      let (points, e, _, exactly) =
        carbon_intensity_range_answers upper times timestamptz lib timestamptz_aware (built s'.db)
          cache code from_ to region known w miss in
      (
        points,
        e,
        (exactly _).1 (record {
          row = joined s'.db.agile_price (key_of driver r, c);
          in_mart = mart-In s'.db carbon prices (key_of driver r) c found;
          same_region = ap (λ p. p.region_id) is_point ∙ sym same;
          not_before = rw (ap (λ p. p.period_start_utc) is_point) lower;
          before_end = rw (ap (λ p. p.period_start_utc) is_point) upper_;
          is_point = ap ok is_point;
        }),
        All-of_In _ points (λ p m.
            let a = (exactly p).0 m in
            elim (only s'.db carbon prices (key_of driver r) c a.row p found a.in_mart
              (a.same_region ∙ same) a.is_point) [
                | inl other ↦ inl other
                | inr e ↦ inr (e ∙ is_point)
              ]),
      )
