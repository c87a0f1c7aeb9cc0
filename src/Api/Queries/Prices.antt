-- ===== src/Api/Queries/Prices.antt =====
-- What `upsert_agile_price_rows` writes, `get_agile_price_range` reads back.
use gridpulse.Prelude.{
  ℕ, String, ◌≤◌, ◌<◌, ◌≡◌, refl, ap, ap₂, sym, ◌∙◌, Option, some, List, map, filter, Result, ok,
  Bool, Bool-cases, ==_iff, ◌==◌, inl, inr, ◌⊎◌, ◌≢◌, arith, In, In-filter, In-filter_of, In-map,
  In-map_of, All-In, All, All-of_In,
}
use mathlib.Core.Path.{subst}
use gridpulse.Datetime.{DateTime, instant}
use gridpulse.Contracts.Octopus.{AgilePriceRow}
use gridpulse.Storage.Keyed.{find}
use gridpulse.Storage.Keyed.Latest.{last_for, replaced}
use gridpulse.Storage.Keyed.Lookup.{find-In, In-find, some-injective}
use gridpulse.Storage.Pool.{Process}
use gridpulse.Storage.Postgres.{Key, key_eq, Db, Driver, PriceRecord}
use gridpulse.Storage.Postgres.Price.{payload, key, fresh, upsert_agile_price_rows}
use gridpulse.Storage.Postgres.Price.Upsert.{RowIsSound, PricesAreSound, upsert_agile_settles}
use gridpulse.Api.Schemas.{AgilePricePoint}
use gridpulse.Api.Sql.{order_by, In-order_by, In-order_by_of}
use gridpulse.Api.Queries.{HalfHour, Tables, in_window, price_point, get_agile_price_range}
use gridpulse.Api.Queries.Ranges.{in_window_iff, guarded_lem}
use gridpulse.Api.Window.{IsWindow}

-- The tables that the queries read of a database, beside a mart.
abbrev pub served : {R : Type 0} → List (HalfHour R) → Db R → Tables R
served mart d = record {
  dno_region = d.dno_region;
  half_hourly = mart;
  agile_price = map (λ x. x.1) d.agile_price;
}

module _ {P F R : Type 0} (driver : Driver P F R) where
  open driver use {timestamptz, to_real, timestamptz_aware}

  -- The point that a row is to become.
  abbrev pub point_of : AgilePriceRow F → AgilePricePoint R
  point_of r = record {
    region_id = r.region_id;
    period_start_utc = timestamptz r.period_start_utc;
    period_end_utc = timestamptz r.period_end_utc;
    price_pence_per_kwh_inc_vat = to_real r.price_pence_per_kwh_inc_vat;
    price_pence_per_kwh_exc_vat = to_real r.price_pence_per_kwh_exc_vat;
  }

  price_point-fresh :
      (now : ℕ) (r : AgilePriceRow F) → price_point (fresh driver now (payload r)) ≡ point_of r
  unfolding fresh payload
  price_point-fresh now r = refl

  module _ (region_id : ℕ) (from_ to : DateTime) (window : IsWindow from_ to) (d : Db R) where
    abbrev wanted : PriceRecord R → Bool
    wanted r = in_window timestamptz region_id from_ to r.region_id r.period_start_utc

    -- The answer of the query.
    abbrev answer : List (AgilePricePoint R)
    answer =
        map price_point
          (order_by (λ r. r.period_start_utc) (filter wanted (map (λ x. x.1) d.agile_price)))

    range-answer :
        (mart : List (HalfHour R))
        → get_agile_price_range timestamptz (ok (served mart d)) region_id from_ to ≡ ok answer
    unfolding get_agile_price_range
    range-answer mart = guarded_lem timestamptz timestamptz_aware from_ to _ window

    answer-In :
        (p : AgilePricePoint R)
        → In p answer
        → (k : Key) × (r : PriceRecord R) × In (k, r) d.agile_price
          × (r.region_id ≡ region_id)
          × (p ≡ price_point r)
    answer-In p m =
        let (r, m1, e) = In-map price_point p _ m in
        let (m2, t) = In-filter wanted r _ (In-order_by (λ x. x.period_start_utc) r _ m1) in
        let (x, m3, e3) = In-map (λ (x : Key × PriceRecord R). x.1) r d.agile_price m2 in
        let (same, _, _) =
          (in_window_iff timestamptz timestamptz_aware region_id from_ to r.region_id
              r.period_start_utc window).0
            t in
        (x.0, r, subst (λ y. In (x.0, y) d.agile_price) (sym e3) m3, same, e)

    In-answer :
        (k : Key) (r : PriceRecord R)
        → In (k, r) d.agile_price
        → r.region_id ≡ region_id
        → instant from_ ≤ r.period_start_utc
        → r.period_start_utc < instant to
        → In (price_point r) answer
    In-answer k r m same lower upper = In-map_of price_point r _ (
        In-order_by_of (λ x. x.period_start_utc) r _
          (In-filter_of wanted r _ (In-map_of (λ x. x.1) (k, r) d.agile_price m) (
            (in_window_iff timestamptz timestamptz_aware region_id from_ to r.region_id
                r.period_start_utc window).1
              (same, lower, upper))))

  module _ (now : ℕ) (environ : String → Option String) (new_pool : String → Result P) where
    found-point :
        (r : AgilePriceRow F) (rows : List (AgilePriceRow F)) (s s' : Process P (Db R)) (n : ℕ)
        → PricesAreSound s.db
        → upsert_agile_price_rows driver now environ new_pool rows s ≡ (ok n, s')
        → last_for (key driver now) (key driver now (payload r)) (map payload rows)
          ≡ some (payload r)
        → find (key driver now (payload r)) s'.db.agile_price ≡ some (fresh driver now (payload r))
    found-point r rows s s' n sound h last =
        let (_, _, _, found) =
          upsert_agile_settles driver now environ new_pool rows s s' n sound h in
        found (key driver now (payload r))
        ∙ ap
            (λ o.
              replaced (fresh driver now) o (find (key driver now (payload r)) s.db.agile_price))
            last

    only-point :
        (r : AgilePriceRow F) (d : Db R) (p : AgilePricePoint R)
        → PricesAreSound d
        → find (key driver now (payload r)) d.agile_price ≡ some (fresh driver now (payload r))
        → ((k : Key) × (q : PriceRecord R) × In (k, q) d.agile_price
            × (q.region_id ≡ r.region_id)
            × (p ≡ price_point q))
        → (p.period_start_utc ≢ timestamptz r.period_start_utc) ⊎ (p ≡ point_of r)
    unfolding payload
    only-point r d p sound found (k, q, m, same, e) =
        elim (Bool-cases (p.period_start_utc == timestamptz r.period_start_utc)) [
          | inr other ↦ inl (λ h. ground (arith, h, other))
          | inl start ↦
              let agrees =
                (All-In (λ x. RowIsSound d.dno_region x.0 x.1) (k, q) d.agile_price sound.rows
                  m).0 in
              let starts = (==_iff p.period_start_utc (timestamptz r.period_start_utc)).0 start in
              let keys : k ≡ (r.region_id, timestamptz r.period_start_utc) =
                ap₂ (λ i t. (i, t)) (sym agrees.0 ∙ same)
                  (sym agrees.1 ∙ (sym (ap (λ x. x.period_start_utc) e) ∙ starts)) in
              let at =
                sym (In-find k q d.agile_price sound.keyed m)
                ∙ ap (λ i. find i d.agile_price) keys in
              inr (e ∙ (ap price_point (some-injective (at ∙ found)) ∙ price_point-fresh now r))
        ]

    -- From a table of prices that meets its key and constraints: once an upsert of prices has
    -- returned, the range query for the region of a row, over a window that its start lies in,
    -- returns a list that has the row, if it is the last of the upsert for its half-hour, and no
    -- other point with its start.
    pub get_agile_price_range_reads_back :
        (r : AgilePriceRow F) (rows : List (AgilePriceRow F)) (mart : List (HalfHour R))
        (from_ to : DateTime) (s s' : Process P (Db R)) (n : ℕ)
        → PricesAreSound s.db
        → upsert_agile_price_rows driver now environ new_pool rows s ≡ (ok n, s')
        → last_for (key driver now) (key driver now (payload r)) (map payload rows)
          ≡ some (payload r)
        → IsWindow from_ to
        → instant from_ ≤ timestamptz r.period_start_utc
        → timestamptz r.period_start_utc < instant to
        → (ps : List (AgilePricePoint R)) × (get_agile_price_range timestamptz
              (ok (served mart s'.db))
              r.region_id
              from_
              to
            ≡ ok ps)
          × In (point_of r) ps
          × All (λ p. (p.period_start_utc ≢ timestamptz r.period_start_utc) ⊎ (p ≡ point_of r)) ps
    unfolding fresh payload
    get_agile_price_range_reads_back r rows mart from_ to s s' n sound h last w lower upper =
        let (_, _, after, _) =
          upsert_agile_settles driver now environ new_pool rows s s' n sound h in
        let found = found-point r rows s s' n sound h last in
        let stored =
          find-In (key driver now (payload r)) (fresh driver now (payload r)) s'.db.agile_price
            found in
        (
          answer r.region_id from_ to w s'.db,
          range-answer r.region_id from_ to w s'.db mart,
          In-answer r.region_id from_ to w s'.db _ _ stored refl lower upper,
          All-of_In _ _ (λ p m.
              only-point r s'.db p after found (answer-In r.region_id from_ to w s'.db p m)),
        )
