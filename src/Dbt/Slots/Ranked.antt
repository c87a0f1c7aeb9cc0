-- ===== src/Dbt/Slots/Ranked.antt =====
-- The rows of the best-slots mart as the API reads them: each a half-hour with its two ranks.
use gridpulse.Prelude.{
  ℕ, ◌+◌, ◌<◌, ◌≤◌, ◌≡◌, ap, sym, ◌∙◌, ◌⊎◌, ◌==◌, ==_iff, Bool, true, Option, some, List, map,
  filter, In, In-map, In-map_of, In-filter, In-filter_of,
}
use gridpulse.Datetime.{day_us}
use gridpulse.Api.Schemas.{BestSlot}
use gridpulse.Api.Sql.{order_by, IsOrdered, In-order_by, In-order_by_of}
use gridpulse.Api.Queries.{HalfHour}
use gridpulse.Api.Marts.{SlotRow, slot_of}
use gridpulse.Dbt.Slots.{
  count, nulls_last, then_by, leb_ℤ, Order, is_upcoming, slot_row, by_price, by_forecast,
  cheapest_ranked, greenest_ranked, mart_best_slots_24h,
}
use gridpulse.Dbt.Slots.Numbers.{AreNumbered, row_number_lem}
use gridpulse.Dbt.Slots.Orders.{by_price-IsPreorder, by_forecast-IsPreorder}

-- The rank of a slot, from 1 to `last`.
abbrev pub IsRank : Option ℕ → ℕ → Type 0
IsRank rank last = (n : ℕ) × (rank ≡ some n) × (1 ≤ n) × (n ≤ last)

module _ {R : Type 0} where
  -- A slot shows a half-hour.
  pub record Shows (r : HalfHour R) (s : BestSlot R) : Type 0 where
    pub start : s.period_start_utc ≡ r.period_start_utc
    pub end : s.period_end_utc ≡ r.period_end_utc
    pub price : s.price_pence_per_kwh_inc_vat ≡ r.price_pence_per_kwh_inc_vat
    pub forecast : s.forecast_gco2_per_kwh ≡ some r.forecast_gco2_per_kwh

  abbrev pub greener : BestSlot R → BestSlot R → Bool
  greener = then_by (nulls_last leb_ℤ) (λ s. s.forecast_gco2_per_kwh) (λ s. s.period_start_utc)

  abbrev pub cheaper : Order R → BestSlot R → BestSlot R → Bool
  cheaper order =
      then_by (nulls_last order.at_most) (λ s. s.price_pence_per_kwh_inc_vat)
        (λ s. s.period_start_utc)

  -- Two slots have ranks, which are equal only for the same start, and else in the order.
  abbrev pub AreRanked :
      (BestSlot R → Option ℕ) → (BestSlot R → BestSlot R → Bool) → BestSlot R → BestSlot R → Type 0
  AreRanked rank before a b =
      (n : ℕ) × (m : ℕ) × (rank a ≡ some n)
      × (rank b ≡ some m)
      × (((n ≡ m) × (a.period_start_utc ≡ b.period_start_utc))
          ⊎ ((n < m) × (before a b ≡ true))
          ⊎ ((m < n) × (before b a ≡ true)))

  abbrev pub upcoming : ℕ → List (HalfHour R) → List (HalfHour R)
  upcoming now = filter (is_upcoming now)

  -- The half-hours of a region in the 24 hours from `now`, ranked by price and by forecast.
  pub record AreBestSlots (order : Order R) (now region_id : ℕ) (half_hourly : List (HalfHour R))
      (slots : List (BestSlot R)) : Type 0 where
    pub in_order : IsOrdered (λ s. s.period_start_utc) slots
    pub of_row :
        (r : HalfHour R)
        → In r half_hourly
        → r.region_id ≡ region_id
        → now ≤ r.period_start_utc
        → r.period_start_utc < now + day_us
        → (s : BestSlot R) × In s slots × Shows r s
    pub from_row :
        (s : BestSlot R)
        → In s slots
        → (r : HalfHour R) × In r half_hourly
          × (r.region_id ≡ region_id)
          × (now ≤ r.period_start_utc)
          × (r.period_start_utc < now + day_us)
          × Shows r s
          × IsRank s.cheapest_rank (count (λ x. x.region_id) region_id (upcoming now half_hourly))
          × IsRank s.greenest_rank (count (λ x. x.region_id) region_id (upcoming now half_hourly))
    pub ranked :
        (a b : BestSlot R)
        → In a slots
        → In b slots
        → AreRanked (λ s. s.cheapest_rank) (cheaper order) a b
          × AreRanked (λ s. s.greenest_rank) greener a b

  module _ (order : Order R) (now : ℕ) (half_hourly : List (HalfHour R)) where
    abbrev pub rows : List (HalfHour R)
    rows = upcoming now half_hourly

    abbrev pub cheap : List (HalfHour R × ℕ)
    cheap = cheapest_ranked order rows

    abbrev pub green : List ((HalfHour R × ℕ) × ℕ)
    green = greenest_ranked cheap

    pub cheap_numbered : AreNumbered (by_price order) (λ r. r.region_id) rows cheap
    cheap_numbered = row_number_lem _ _ rows (by_price-IsPreorder order)

    pub green_numbered : AreNumbered (λ a b. by_forecast a.0 b.0) (λ r. r.0.region_id) cheap green
    green_numbered = row_number_lem _ _ cheap (record {
      total = λ a b. by_forecast-IsPreorder.total a.0 b.0;
      transitive = λ a b c. by_forecast-IsPreorder.transitive a.0 b.0 c.0;
    })

    -- A slot with the ranked half-hour that it is made of.
    pub record IsMade (region_id : ℕ) (s : BestSlot R) : Type 0 where
      pub ranked_row : (HalfHour R × ℕ) × ℕ
      pub in_green : In ranked_row green
      pub same_region : ranked_row.0.0.region_id ≡ region_id
      pub is_slot : slot_of (slot_row now ranked_row) ≡ s

    abbrev pub answer : ℕ → List (SlotRow R)
    answer region_id =
        order_by (λ r. r.period_start_utc)
          (filter (λ r. r.region_id == region_id) (mart_best_slots_24h order now half_hourly))

    pub answer-IsMade :
        (region_id : ℕ) (s : BestSlot R)
        → In s (map slot_of (answer region_id))
        → IsMade region_id s
    unfolding mart_best_slots_24h
    answer-IsMade region_id s m =
        let (x, k, e) = In-map slot_of s _ m in
        let (n, t) = In-filter _ x _ (In-order_by (λ r. r.period_start_utc) x _ k) in
        let (z, i, f) = In-map (slot_row now) x green n in
        record {
          ranked_row = z;
          in_green = i;
          same_region = sym (ap (λ r. r.region_id) f) ∙ (==_iff x.region_id region_id).0 t;
          is_slot = sym (e ∙ ap slot_of f);
        }

    pub made-answer :
        (region_id : ℕ) (z : (HalfHour R × ℕ) × ℕ)
        → In z green
        → z.0.0.region_id ≡ region_id
        → In (slot_of (slot_row now z)) (map slot_of (answer region_id))
    unfolding mart_best_slots_24h
    made-answer region_id z m e = In-map_of slot_of (slot_row now z) _ (
        In-order_by_of (λ r. r.period_start_utc) (slot_row now z) _
          (In-filter_of (λ r. r.region_id == region_id) (slot_row now z) _
            (In-map_of (slot_row now) z green m) ((==_iff _ region_id).1 e)))
