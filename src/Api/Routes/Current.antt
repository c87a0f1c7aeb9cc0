-- ===== src/Api/Routes/Current.antt =====
-- What the endpoints of the current half-hour answer.
use gridpulse.Prelude.{
  ℕ, String, ◌≤◌, ◌<◌, ◌≡◌, ◌≢◌, refl, ◌⊎◌, ◌↔◌, inl, inr, ◌==◌, ==_iff, ◌&&◌, &&-true, Bool, true,
  false, Bool-cases, Option, none, some, List, [], ◌∷◌, filter, Result, ok, raise, http_exception,
  All, All-of_In, All-In, In, In-filter, In-filter_of, arith, leb, ltb,
}
use gridpulse.Storage.Postgres.{PriceRecord}
use gridpulse.Api.Schemas.{
  Region, CarbonIntensityPoint, CarbonIntensityCurrentResponse, AgilePricePoint,
  AgilePriceCurrentResponse,
}
use gridpulse.Api.Sql.{order_by, IsOrdered, order_by-IsOrdered, In-order_by, In-order_by_of}
use gridpulse.Api.Queries.{
  HalfHour, Tables, last, has_index, carbon_point, price_point, get_region_by_canonical_code,
  get_current_carbon_intensity, get_current_agile_price,
}
use gridpulse.Api.Queries.Ranges.{index_point}
use gridpulse.Api.Cache.{TtlCache, Times, wrapper}
use gridpulse.Api.Routes.{carbon_intensity_current, agile_price_current, resolve_region}

module _ {A : Type 0} (column : A → ℕ) where
  -- A greatest element of a list, if it has any.
  abbrev IsGreatest : List A → Option A → Type 0
  IsGreatest xs none = (x : A) → ¬ In x xs
  IsGreatest xs (some x) = In x xs × All (λ y. column y ≤ column x) xs

  last-IsGreatest : (xs : List A) → IsOrdered column xs → IsGreatest xs (last xs)
  last-IsGreatest [] h = λ x m. m
  last-IsGreatest (x ∷ []) h = (inl refl, (omega arith, tt))
  last-IsGreatest (x ∷ y ∷ ys) h = go (last (y ∷ ys)) (last-IsGreatest (y ∷ ys) h.1)
    where
      go : (o : Option A) → IsGreatest (y ∷ ys) o → IsGreatest (x ∷ y ∷ ys) o
      go none k = absurd (k y (inl refl))
      go (some z) k = (inr k.0, (All-In (λ w. column x ≤ column w) z (y ∷ ys) h.0 k.0, k.1))

  latest-IsGreatest : (xs : List A) → IsGreatest xs (last (order_by column xs))
  latest-IsGreatest xs =
      go (last (order_by column xs)) (last-IsGreatest _ (order_by-IsOrdered column xs))
    where
      go : (o : Option A) → IsGreatest (order_by column xs) o → IsGreatest xs o
      go none h = λ x m. h x (In-order_by_of column x xs m)
      go (some x) h = (
        In-order_by column x xs h.0,
        All-of_In _ xs
            (λ y m. All-In (λ w. column w ≤ column x) y _ h.1 (In-order_by_of column y xs m)),
      )

no_index : (a b : Bool) → a ≡ true → (a && b) ≢ true → b ≡ false
no_index a b h k = ground arith

both : (a b : Bool) → a ≡ true → b ≡ true → (a && b) ≡ true
both a b h k = ground arith

module _ {R : Type 0} where
  -- The reply about a region: the latest of its half-hours that have an index.
  abbrev pub IsLatest : List (HalfHour R) → Region → Result CarbonIntensityCurrentResponse → Type 0
  IsLatest mart region reply =
      (((r : HalfHour R) → In r mart → r.region_id ≡ region.region_id → has_index r ≡ false)
        × (reply ≡ raise (http_exception 404)))
      ⊎ ((r : HalfHour R) × (p : CarbonIntensityPoint) × In r mart
          × (r.region_id ≡ region.region_id)
          × (carbon_point r ≡ ok p)
          × ((y : HalfHour R)
              → In y mart
              → y.region_id ≡ region.region_id
              → has_index y ≡ true
              → y.period_start_utc ≤ r.period_start_utc)
          × (reply ≡ ok (record { region = region; current = p })))

  -- A price of a region that is in effect at an instant.
  abbrev pub InEffect : ℕ → ℕ → PriceRecord R → Type 0
  InEffect now region_id r =
      (r.region_id ≡ region_id) × (r.period_start_utc ≤ now) × (now < r.period_end_utc)

  -- The reply about a region at an instant: refused for the national one, and else the price in
  -- effect that starts last, or none.
  abbrev pub IsPrice :
      ℕ → List (PriceRecord R) → Region → Result (AgilePriceCurrentResponse R) → Type 0
  IsPrice now prices region reply =
      ((region.region_id ≡ 0) × (reply ≡ raise (http_exception 400)))
      ⊎ ((region.region_id ≢ 0)
          × ((r : PriceRecord R) → In r prices → ¬ InEffect now region.region_id r)
          × (reply ≡ ok (record { region = region; current = none })))
      ⊎ ((r : PriceRecord R) × (region.region_id ≢ 0)
          × In r prices
          × InEffect now region.region_id r
          × ((y : PriceRecord R)
              → In y prices
              → InEffect now region.region_id y
              → y.period_start_utc ≤ r.period_start_utc)
          × (reply ≡ ok (record { region = region; current = some (price_point r) })))

  abbrev wanted : ℕ → HalfHour R → Bool
  wanted region_id r = r.region_id == region_id && has_index r

  abbrev effective : ℕ → ℕ → PriceRecord R → Bool
  effective now region_id r =
      r.region_id == region_id && (leb r.period_start_utc now && ltb now r.period_end_utc)

  effective_iff :
      (now region_id : ℕ) (r : PriceRecord R)
      → (effective now region_id r ≡ true) ↔ InEffect now region_id r
  effective_iff now region_id r = ground arith

  module _ (upper : String → String) (times : Times) where
    -- When the tables are at hand, the region code is known and the cache has no entry for the
    -- region, the endpoint of the current carbon intensity returns the latest half-hour of the
    -- region that has an index, and answers with status 404 where there is none.
    pub carbon_intensity_current_answers :
        (lib : TtlCache (String × ℕ) (Option CarbonIntensityPoint)) (cache : lib.Cache)
        (t : Tables R) (code : String) (region : Region)
        → get_region_by_canonical_code upper (ok t) code ≡ ok (some region)
        → lib.contains cache times.looked ("_carbon_current_cached", region.region_id) ≡ false
        → IsLatest t.half_hourly region
            (carbon_intensity_current upper times lib code
              (record { world = ok t; cache = cache })).0
    unfolding carbon_intensity_current resolve_region wrapper get_current_carbon_intensity
    carbon_intensity_current_answers lib cache t code region known miss =
        let rows = filter (wanted region.region_id) t.half_hourly in
        go (last (order_by (λ r. r.period_start_utc) rows)) refl
          (latest-IsGreatest (λ r. r.period_start_utc) rows)
      where
        go :
            (o : Option (HalfHour R))
            → last (
                order_by (λ r. r.period_start_utc) (filter (wanted region.region_id) t.half_hourly))
              ≡ o
            → IsGreatest
                (λ r. r.period_start_utc)
                (filter (wanted region.region_id) t.half_hourly)
                o
            → IsLatest t.half_hourly region
                (carbon_intensity_current upper times lib code
                  (record { world = ok t; cache = cache })).0
        go none e h = inl (
          λ r m same.
              no_index _ (has_index r) ((==_iff r.region_id region.region_id).1 same)
                (λ k. h r (In-filter_of (wanted region.region_id) r t.half_hourly m k)),
          rw (known, miss, e) refl,
        )
        go (some r) e h =
            let (there, test) = In-filter (wanted region.region_id) r t.half_hourly h.0 in
            let (same, indexed) = &&-true _ _ test in
            let (p, made, _) = index_point r indexed in
            inr (
              r,
              p,
              there,
              (==_iff r.region_id region.region_id).0 same,
              made,
              λ y m k i.
                  All-In (λ w. w.period_start_utc ≤ r.period_start_utc) y _ h.1
                    (In-filter_of (wanted region.region_id) y t.half_hourly m
                      (both _ _ ((==_iff y.region_id region.region_id).1 k) i)),
              rw (known, miss, e, made) refl,
            )

    -- When the tables are at hand, the region code is known and the cache has no entry for the
    -- region, the endpoint of the current price refuses the national region with status 400. For
    -- any other it returns the price of the region that is in effect (of those, the one that starts
    -- last), and no price where none is in effect.
    pub agile_price_current_answers :
        (lib : TtlCache (String × ℕ) (Option (AgilePricePoint R))) (cache : lib.Cache) (now : ℕ)
        (t : Tables R) (code : String) (region : Region)
        → get_region_by_canonical_code upper (ok t) code ≡ ok (some region)
        → lib.contains cache times.looked ("_agile_current_cached", region.region_id) ≡ false
        → IsPrice now t.agile_price region
            (agile_price_current upper times lib now code
              (record { world = ok t; cache = cache })).0
    unfolding agile_price_current resolve_region wrapper get_current_agile_price
    agile_price_current_answers lib cache now t code region known miss =
        elim (Bool-cases (region.region_id == 0)) [
          | inl nat ↦ inl ((==_iff region.region_id 0).0 nat, rw (known, nat) refl)
          | inr dno ↦
              let rows = filter (effective now region.region_id) t.agile_price in
              go dno (last (order_by (λ r. r.period_start_utc) rows)) refl
                (latest-IsGreatest (λ r. r.period_start_utc) rows)
        ]
      where
        go :
            (region.region_id == 0) ≡ false
            → (o : Option (PriceRecord R))
            → last (
                order_by
                  (λ r. r.period_start_utc)
                  (filter (effective now region.region_id) t.agile_price))
              ≡ o
            → IsGreatest
                (λ r. r.period_start_utc)
                (filter (effective now region.region_id) t.agile_price)
                o
            → IsPrice now t.agile_price region
                (agile_price_current upper times lib now code
                  (record { world = ok t; cache = cache })).0
        go dno none e h = inr (
            inl (
              λ z. ground (arith, z, dno),
              λ r m k. h r (
                  In-filter_of (effective now region.region_id) r t.agile_price m
                    ((effective_iff now region.region_id r).1 k)),
              rw (known, dno, miss, dno, e) refl,
            ))
        go dno (some r) e h =
            let (there, test) = In-filter (effective now region.region_id) r t.agile_price h.0 in
            inr (
              inr (
                r,
                λ z. ground (arith, z, dno),
                there,
                (effective_iff now region.region_id r).0 test,
                λ y m k.
                    All-In (λ w. w.period_start_utc ≤ r.period_start_utc) y _ h.1
                      (In-filter_of (effective now region.region_id) y t.agile_price m
                        ((effective_iff now region.region_id y).1 k)),
                rw (known, dno, miss, dno, e) refl,
              ))
