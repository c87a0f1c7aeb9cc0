-- ===== src/Dbt/HalfHourly.antt =====
-- The join of carbon intensity and prices: one row for each half-hour of a region.
use gridpulse.Prelude.{
  ◌≡◌, refl, ap, ap₂, sym, ◌∙◌, Option, none, some, inl, inr, List, [], ◌∷◌, ◌++◌, map, filter,
  arith, Bool-cases, All,
}
use mathlib.Core.Path.{subst}
use gridpulse.Storage.Keyed.{find, IsKeyed, HasKey}
use gridpulse.Storage.Postgres.{Key, key_eq, Db, DnoRegion, CarbonRecord, PriceRecord}
use gridpulse.Storage.Postgres.Carbon.Table.{IsSound}
use gridpulse.Storage.Postgres.Carbon.Table
use gridpulse.Storage.Postgres.Price.Upsert.{PricesAreSound, Agrees}
use gridpulse.Storage.Postgres.Price.Upsert
use gridpulse.Api.Queries.{HalfHour}
use gridpulse.Dbt.{left_join, with_matches, same_half_hour, half_hour, mart_half_hourly}

abbrev pub key_of : {R : Type 0} → HalfHour R → Key
key_of r = (r.region_id, r.period_start_utc)

-- No two rows are of the same half-hour of a region.
abbrev pub IsUnique : {R : Type 0} → List (HalfHour R) → Type 0
IsUnique rows = IsKeyed (map (λ r. (key_of r, r)) rows)

abbrev listed : {A : Type 0} → Option A → List A
listed none = []
listed (some a) = a ∷ []

-- The columns of the key of a row of carbon intensity.
abbrev IsAt : Key → CarbonRecord → Type 0
IsAt k c = (c.region_id ≡ k.0) × (c.period_start_utc ≡ k.1)

abbrev CarbonAgrees : List (Key × CarbonRecord) → Type 0
CarbonAgrees = All (λ x. IsAt x.0 x.1)

carbon_agrees :
    (regions : List DnoRegion) (rows : List (Key × CarbonRecord))
    → All (λ x. Table.RowIsSound regions x.0 x.1) rows
    → CarbonAgrees rows
carbon_agrees regions [] h = tt
carbon_agrees regions (x ∷ rows) h = ((h.0.0, h.0.1), carbon_agrees regions rows h.1)

module _ {R : Type 0} where
  -- A row of carbon intensity beside the prices of one row, or beside none.
  abbrev pub with_price : CarbonRecord → Option (PriceRecord R) → HalfHour R
  with_price c p = record {
    region_id = c.region_id;
    period_start_utc = c.period_start_utc;
    period_end_utc = c.period_end_utc;
    forecast_gco2_per_kwh = c.forecast_gco2_per_kwh;
    actual_gco2_per_kwh = c.actual_gco2_per_kwh;
    intensity_index = some c.intensity_index;
    price_pence_per_kwh_inc_vat = elim p [
      | none ↦ none
      | some x ↦ some x.price_pence_per_kwh_inc_vat
    ];
    price_pence_per_kwh_exc_vat = elim p [
      | none ↦ none
      | some x ↦ some x.price_pence_per_kwh_exc_vat
    ];
  }

  -- The row of a half-hour, with the price that the table has for it.
  abbrev pub joined : List (Key × PriceRecord R) → Key × CarbonRecord → HalfHour R
  joined prices x = with_price x.1 (find x.0 prices)

  abbrev AgreeAll : List (Key × PriceRecord R) → Type 0
  AgreeAll = All (λ x. Agrees x.0 x.1)

  same-beq :
      (k j : Key) (c : CarbonRecord) (q : PriceRecord R)
      → IsAt k c
      → Agrees j q
      → same_half_hour c q ≡ key_eq.beq j k
  same-beq k j c q h a = ground arith

  none_match :
      (k : Key) (c : CarbonRecord) (t : List (Key × PriceRecord R))
      → IsAt k c
      → AgreeAll t
      → ¬ HasKey k t
      → filter (same_half_hour c) (map (λ x. x.1) t) ≡ []
  none_match k c [] h a absent = refl
  none_match k c ((j, q) ∷ t) h a absent = elim (Bool-cases (key_eq.beq j k)) [
    | inl m ↦ absurd (absent (inl ((key_eq.beq_iff j k).0 m)))
    | inr m ↦ rw (same-beq k j c q h a.0 ∙ m) (none_match k c t h a.1 (λ n. absent (inr n)))
  ]

  matches :
      (k : Key) (c : CarbonRecord) (t : List (Key × PriceRecord R))
      → IsAt k c
      → AgreeAll t
      → IsKeyed t
      → filter (same_half_hour c) (map (λ x. x.1) t) ≡ listed (find k t)
  unfolding find
  matches k c [] h a keyed = refl
  matches k c ((j, q) ∷ t) h a keyed = elim (Bool-cases (key_eq.beq j k)) [
    | inl m ↦
        let same = (key_eq.beq_iff j k).0 m in
        rw (same-beq k j c q h a.0, m)
          (ap (λ l. q ∷ l)
            (none_match k c t h a.1 (λ n. keyed.0 (subst (λ i. HasKey i t) (sym same) n))))
    | inr m ↦ rw (same-beq k j c q h a.0, m) (matches k c t h a.1 keyed.1)
  ]

  with_matches-listed :
      (c : CarbonRecord) (o : Option (PriceRecord R))
      → with_matches same_half_hour half_hour c (listed o) ≡ with_price c o ∷ []
  with_matches-listed c none = refl
  with_matches-listed c (some p) = refl

  left_join-joined :
      (rows : List (Key × CarbonRecord)) (prices : List (Key × PriceRecord R))
      → CarbonAgrees rows
      → AgreeAll prices
      → IsKeyed prices
      → left_join same_half_hour half_hour (map (λ x. x.1) rows) (map (λ x. x.1) prices)
        ≡ map (joined prices) rows
  unfolding left_join
  left_join-joined [] prices h a keyed = refl
  left_join-joined ((k, c) ∷ rows) prices h a keyed =
      ap₂ ◌++◌
        (ap (with_matches same_half_hour half_hour c) (matches k c prices h.0 a keyed)
          ∙ with_matches-listed c (find k prices))
        (left_join-joined rows prices h.1 a keyed)

  HasKey-joined :
      (k : Key) (rows : List (Key × CarbonRecord)) (prices : List (Key × PriceRecord R))
      → CarbonAgrees rows
      → HasKey k (map (λ r. (key_of r, r)) (map (joined prices) rows))
      → HasKey k rows
  HasKey-joined k [] prices h m = m
  HasKey-joined k (x ∷ rows) prices h (inl e) =
      inl (ap₂ (λ a b. (a, b)) (sym h.0.0) (sym h.0.1) ∙ e)
  HasKey-joined k (x ∷ rows) prices h (inr m) = inr (HasKey-joined k rows prices h.1 m)

  joined-IsUnique :
      (rows : List (Key × CarbonRecord)) (prices : List (Key × PriceRecord R))
      → CarbonAgrees rows
      → IsKeyed rows
      → IsUnique (map (joined prices) rows)
  joined-IsUnique [] prices h keyed = tt
  joined-IsUnique (x ∷ rows) prices h keyed = (
    λ m. keyed.0 (
        subst (λ k. HasKey k rows) (ap₂ (λ a b. (a, b)) h.0.0 h.0.1)
          (HasKey-joined _ rows prices h.1 m)),
    joined-IsUnique rows prices h.1 keyed.1,
  )

  prices_agree :
      (regions : List DnoRegion) (t : List (Key × PriceRecord R))
      → All (λ x. Upsert.RowIsSound regions x.0 x.1) t
      → AgreeAll t
  prices_agree regions [] h = tt
  prices_agree regions (x ∷ t) h = (h.0.0, prices_agree regions t h.1)

  -- Where raw.carbon_intensity and raw.agile_price meet their keys and constraints, the mart has one
  -- row for each row of carbon intensity, in its order, with the price that is stored for the same
  -- region and start, or NULLs where there is none; and no two rows are of the same region and
  -- start, as the test of the mart demands.
  pub mart_half_hourly_joins :
      (d : Db R)
      → IsSound d
      → PricesAreSound d
      → (mart_half_hourly d ≡ map (joined d.agile_price) d.carbon_intensity)
        × IsUnique (mart_half_hourly d)
  unfolding mart_half_hourly
  mart_half_hourly_joins d carbon prices =
      let agrees = carbon_agrees d.dno_region d.carbon_intensity carbon.rows in
      let e =
        left_join-joined d.carbon_intensity d.agile_price agrees
          (prices_agree d.dno_region d.agile_price prices.rows) prices.keyed in
      (
        e,
        subst IsUnique (sym e)
            (joined-IsUnique d.carbon_intensity d.agile_price agrees carbon.keyed),
      )
