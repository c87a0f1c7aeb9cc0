-- ===== src/Api/Queries/Ranges.antt =====
-- What the range query on carbon intensity returns.
use gridpulse.Prelude.{
  ℕ, ◌+◌, ◌≤◌, ◌<◌, ◌≡◌, refl, ap, ap₂, sym, ◌∙◌, ◌↔◌, inl, inr, Bool, true, false, none, some,
  List, [], ◌∷◌, map, filter, Result, ok, ok-injective, All, In, In-filter, In-filter_of, arith,
  ltb, ◌&&◌, Option, &&-true,
}
use mathlib.Core.Path.{subst}
use gridpulse.Datetime.{DateTime, Offset, instant, is_aware, longer_than}
use gridpulse.Api.Schemas.{CarbonIntensityPoint}
use gridpulse.Contracts.CarbonIntensity.{CiIndex}
use gridpulse.Api.Sql.{order_by, IsOrdered, order_by-IsOrdered, In-order_by, In-order_by_of}
use gridpulse.Api.Queries.{
  HalfHour, Tables, max_range_us, carbon_point, carbon_points, has_index, with_index, in_window,
  get_carbon_intensity_range, guarded,
}
use gridpulse.Api.Window.{IsWindow}

-- The guard lets windows through, and refuses what is longer.
longer_than_lem :
    (w v : ℕ) (o p : Option Offset) (span : ℕ)
    → is_aware (record { wall = w; tzinfo = o }) ≡ true
    → is_aware (record { wall = v; tzinfo = p }) ≡ true
    → longer_than (record { wall = w; tzinfo = o }) (record { wall = v; tzinfo = p }) span
      ≡ ok (
          ltb
            (instant (record { wall = w; tzinfo = o }) + span)
            (instant (record { wall = v; tzinfo = p })))
unfolding longer_than
longer_than_lem w v (some o) (some p) span h k = refl
longer_than_lem w v none p span h k = cc
longer_than_lem w v (some o) none span h k = cc

pub longer_than_aware :
    (a b : DateTime) (span : ℕ)
    → is_aware a ≡ true
    → is_aware b ≡ true
    → longer_than a b span ≡ ok (ltb (instant a + span) (instant b))
longer_than_aware a b span h k = longer_than_lem a.wall b.wall a.tzinfo b.tzinfo span h k

module _ {R : Type 0} where
  pub index_point :
      (r : HalfHour R)
      → has_index r ≡ true
      → (p : CarbonIntensityPoint) × (carbon_point r ≡ ok p)
        × (p.period_start_utc ≡ r.period_start_utc)
  index_point r h = go r.intensity_index refl
    where
      go :
          (i : Option CiIndex)
          → r.intensity_index ≡ i
          → (p : CarbonIntensityPoint) × (carbon_point r ≡ ok p)
            × (p.period_start_utc ≡ r.period_start_utc)
      go none e = absurd (ground (arith, h, e))
      go (some i) e = (
        record {
          region_id = r.region_id;
          period_start_utc = r.period_start_utc;
          period_end_utc = r.period_end_utc;
          forecast_gco2_per_kwh = r.forecast_gco2_per_kwh;
          actual_gco2_per_kwh = r.actual_gco2_per_kwh;
          intensity_index = i;
        },
        rw e refl,
        refl,
      )

  point-has_index :
      (r : HalfHour R) (p : CarbonIntensityPoint) → carbon_point r ≡ ok p → has_index r ≡ true
  point-has_index r p h = go r.intensity_index refl
    where
      go : (i : Option CiIndex) → r.intensity_index ≡ i → has_index r ≡ true
      go none e = cc (ap (with_index r) e)
      go (some i) e = rw e refl

  -- The points of rows that have an index.
  pub record ArePoints (rs : List (HalfHour R)) (ps : List CarbonIntensityPoint) : Type 0 where
    pub made : carbon_points rs ≡ ok ps
    pub starts : map (λ p. p.period_start_utc) ps ≡ map (λ r. r.period_start_utc) rs
    pub from_row :
        (p : CarbonIntensityPoint) → In p ps → (r : HalfHour R) × In r rs × (carbon_point r ≡ ok p)
    pub of_row :
        (r : HalfHour R) (p : CarbonIntensityPoint) → In r rs → carbon_point r ≡ ok p → In p ps

  points :
      (rs : List (HalfHour R))
      → ((r : HalfHour R) → In r rs → has_index r ≡ true)
      → (ps : List CarbonIntensityPoint) × ArePoints rs ps
  unfolding carbon_points
  points [] h =
      ([], record { made = refl; starts = refl; from_row = λ p m. absurd m; of_row = λ r p m e. m })
  points (r ∷ rs) h =
      let (p, e, s) = index_point r (h r (inl refl)) in
      let (ps, a) = points rs (λ x m. h x (inr m)) in
      (
        p ∷ ps,
        record {
          made = rw (e, a.made);
          starts = ap₂ ◌∷◌ s a.starts;
          from_row = λ q m. elim m [
            | inl same ↦ (r, inl refl, e ∙ ap ok same)
            | inr k ↦ let (x, n, f) = a.from_row q k in (x, inr n, f)
          ];
          of_row = λ x q m f. elim m [
            | inl same ↦ inl (ok-injective (sym e ∙ (ap carbon_point same ∙ f)))
            | inr k ↦ inr (a.of_row x q k f)
          ];
        },
      )

All-map :
    {A : Type 0} (column : A → ℕ) (n : ℕ) (xs : List A)
    → All (λ y. n ≤ column y) xs
    → All (λ y. n ≤ y) (map column xs)
All-map column n [] h = tt
All-map column n (x ∷ xs) h = (h.0, All-map column n xs h.1)

All-unmap :
    {A : Type 0} (column : A → ℕ) (n : ℕ) (xs : List A)
    → All (λ y. n ≤ y) (map column xs)
    → All (λ y. n ≤ column y) xs
All-unmap column n [] h = tt
All-unmap column n (x ∷ xs) h = (h.0, All-unmap column n xs h.1)

IsOrdered-map :
    {A : Type 0} (column : A → ℕ) (xs : List A)
    → IsOrdered column xs
    → IsOrdered (λ n. n) (map column xs)
IsOrdered-map column [] h = tt
IsOrdered-map column (x ∷ xs) h = (All-map column (column x) xs h.0, IsOrdered-map column xs h.1)

IsOrdered-unmap :
    {A : Type 0} (column : A → ℕ) (xs : List A)
    → IsOrdered (λ n. n) (map column xs)
    → IsOrdered column xs
IsOrdered-unmap column [] h = tt
IsOrdered-unmap column (x ∷ xs) h =
    (All-unmap column (column x) xs h.0, IsOrdered-unmap column xs h.1)

le→ltb : (a b : ℕ) → b ≤ a → ltb a b ≡ false
le→ltb a b h = ground arith

&&-true_of : (a b : Bool) → a ≡ true → b ≡ true → (a && b) ≡ true
&&-true_of a b h k = rw (h, k) refl

module _ (timestamptz : DateTime → ℕ)
    (sends_instants : (d : DateTime) → is_aware d ≡ true → timestamptz d ≡ instant d) where
  pub in_window_iff :
      (region_id : ℕ) (from_ to : DateTime) (region start : ℕ)
      → IsWindow from_ to
      → (in_window timestamptz region_id from_ to region start ≡ true)
        ↔ ((region ≡ region_id) × (instant from_ ≤ start) × (start < instant to))
  in_window_iff region_id from_ to region start w =
      rw (sends_instants from_ w.from_aware, sends_instants to w.to_aware) (ground arith)

  pub guarded_lem :
      {A : Type 0} (from_ to : DateTime) (body : Result A)
      → IsWindow from_ to
      → guarded timestamptz from_ to body ≡ body
  guarded_lem from_ to body w =
      rw (longer_than_aware from_ to max_range_us w.from_aware w.to_aware, le→ltb _ _ w.short) refl

module _ {R : Type 0} (timestamptz : DateTime → ℕ)
    (sends_instants : (d : DateTime) → is_aware d ≡ true → timestamptz d ≡ instant d) where
  -- A point of the mart: of the region, starting in the window, with its index.
  pub record IsAnswer (t : Tables R) (region_id : ℕ) (from_ to : DateTime)
      (p : CarbonIntensityPoint) : Type 0 where
    pub row : HalfHour R
    pub in_mart : In row t.half_hourly
    pub same_region : row.region_id ≡ region_id
    pub not_before : instant from_ ≤ row.period_start_utc
    pub before_end : row.period_start_utc < instant to
    pub is_point : carbon_point row ≡ ok p

  abbrev wanted : ℕ → DateTime → DateTime → HalfHour R → Bool
  wanted region_id from_ to r =
      in_window timestamptz region_id from_ to r.region_id r.period_start_utc && has_index r

  answers :
      (t : Tables R) (region_id : ℕ) (from_ to : DateTime)
      → IsWindow from_ to
      → (ps : List CarbonIntensityPoint)
      → ArePoints
          (order_by (λ r. r.period_start_utc) (filter (wanted region_id from_ to) t.half_hourly))
          ps
      → (p : CarbonIntensityPoint) → In p ps ↔ IsAnswer t region_id from_ to p
  answers t region_id from_ to w ps a p = (
    λ m.
        let (r, k, made) = a.from_row p m in
        let (here, test) =
          In-filter (wanted region_id from_ to) r t.half_hourly
            (In-order_by (λ x. x.period_start_utc) r _ k) in
        let (same, lower, upper) =
          (in_window_iff timestamptz sends_instants region_id from_ to r.region_id
              r.period_start_utc w).0
            (&&-true _ _ test).0 in
        record {
          row = r;
          in_mart = here;
          same_region = same;
          not_before = lower;
          before_end = upper;
          is_point = made;
        },
    λ h.
        a.of_row h.row p
          (In-order_by_of (λ x. x.period_start_utc) h.row _
            (In-filter_of (wanted region_id from_ to) h.row t.half_hourly h.in_mart (
              &&-true_of _ _
                ((in_window_iff timestamptz sends_instants region_id from_ to h.row.region_id
                    h.row.period_start_utc w).1
                  (h.same_region, h.not_before, h.before_end))
                (point-has_index h.row p h.is_point))))
          h.is_point,
  )

  -- On a window, with the tables at hand and aware times sent as their instants, the range query
  -- returns. Its points are in the order of their starts, and they are exactly those of the mart's
  -- half-hours that are of the region, start in the window (its end excluded), and have an index.
  pub get_carbon_intensity_range_answers :
      (t : Tables R) (region_id : ℕ) (from_ to : DateTime)
      → IsWindow from_ to
      → (ps : List CarbonIntensityPoint) × (get_carbon_intensity_range timestamptz
            (ok t)
            region_id
            from_
            to
          ≡ ok ps)
        × IsOrdered (λ p. p.period_start_utc) ps
        × ((p : CarbonIntensityPoint) → In p ps ↔ IsAnswer t region_id from_ to p)
  unfolding get_carbon_intensity_range
  get_carbon_intensity_range_answers t region_id from_ to w =
      let (ps, a) =
        points
          (order_by (λ r. r.period_start_utc) (filter (wanted region_id from_ to) t.half_hourly))
          (λ r m.
            (&&-true _ _
              (In-filter (wanted region_id from_ to) r t.half_hourly
                (In-order_by (λ x. x.period_start_utc) r _ m)).1).1) in
      (
        ps,
        guarded_lem timestamptz sends_instants from_ to _ w ∙ a.made,
        IsOrdered-unmap (λ p. p.period_start_utc) ps
            (subst (IsOrdered (λ n. n)) (sym a.starts) (
              IsOrdered-map (λ r. r.period_start_utc) _
                (order_by-IsOrdered (λ r. r.period_start_utc) _))),
        answers t region_id from_ to w ps a,
      )
