-- ===== src/Dbt/Slots/Answers.antt =====
-- What the best-slots endpoint answers, once dbt has built its mart.
use gridpulse.Prelude.{
  ℕ, ◌≡◌, ◌≢◌, refl, ap, sym, ◌∙◌, ◌⊎◌, inl, inr, ◌==◌, true, false, ◌<◌, ◌≤◌, ◌+◌, ◌-◌, Option,
  none, some, String, List, [], ◌∷◌, map, ok, All, All-of_In, In, In-map, Option, In-filter,
  In-filter_of, arith,
}
use mathlib.Core.Path.{subst, subst₂}
use gridpulse.Datetime.{DateTime, day_us}
use gridpulse.Api.Schemas.{Region, BestSlot, BestSlotsResponse}
use gridpulse.Api.Sql.{IsOrdered, order_by-IsOrdered, In-order_by}
use gridpulse.Api.Queries.{HalfHour, Tables, get_region_by_canonical_code}
use gridpulse.Api.Html.{now_utc}
use gridpulse.Api.Marts.{SlotRow, slot_of, slots_of, get_best_slots}
use gridpulse.Api.Cache.{TtlCache, Times, wrapper}
use gridpulse.Api.Routes.{best_slots, resolve_region, slots_response}
use gridpulse.Dbt.Slots.{
  count, Order, is_upcoming, slot_row, by_price, by_forecast, mart_best_slots_24h,
}
use gridpulse.Dbt.Slots.Numbers.{AreOrdered}
use gridpulse.Dbt.Slots.Ranked.{
  Shows, cheaper, greener, AreRanked, IsRank, upcoming, AreBestSlots, green, cheap_numbered,
  green_numbered, answer, answer-IsMade, made-answer,
}

-- What a UTC clock without a zone reads at an instant.
abbrev pub naive_utc : ℕ → DateTime
naive_utc at = record { wall = at - day_us; tzinfo = none }

module _ {R : Type 0} (order : Order R) (now : ℕ) (half_hourly : List (HalfHour R)) where
  upcoming_iff :
      (r : HalfHour R)
      → is_upcoming now r ≡ true
      → (now ≤ r.period_start_utc) × (r.period_start_utc < now + day_us)
  upcoming_iff r h = ground arith

  upcoming_of :
      (r : HalfHour R)
      → now ≤ r.period_start_utc
      → r.period_start_utc < now + day_us
      → is_upcoming now r ≡ true
  upcoming_of r h k = ground arith

  made-Shows : (z : (HalfHour R × ℕ) × ℕ) → Shows z.0.0 (slot_of (slot_row now z))
  made-Shows z = record { start = refl; end = refl; price = refl; forecast = refl }

  slots-IsOrdered :
      (xs : List (SlotRow R))
      → IsOrdered (λ r. r.period_start_utc) xs
      → IsOrdered (λ (s : BestSlot R). s.period_start_utc) (map slot_of xs)
  slots-IsOrdered [] h = tt
  slots-IsOrdered (x ∷ xs) h = (later x xs h.0, slots-IsOrdered xs h.1)
    where
      later :
          (x : SlotRow R) (xs : List (SlotRow R))
          → All (λ y. x.period_start_utc ≤ y.period_start_utc) xs
          → All (λ (s : BestSlot R). x.period_start_utc ≤ s.period_start_utc) (map slot_of xs)
      later x [] h = tt
      later x (y ∷ xs) h = (h.0, later x xs h.1)

  module _ (region_id : ℕ) where
    abbrev slots : List (BestSlot R)
    slots = map slot_of (answer order now half_hourly region_id)

    made_of_row :
        (r : HalfHour R)
        → In r half_hourly
        → r.region_id ≡ region_id
        → now ≤ r.period_start_utc
        → r.period_start_utc < now + day_us
        → (s : BestSlot R) × In s slots × Shows r s
    made_of_row r m e lower upper =
        let here = In-filter_of (is_upcoming now) r half_hourly m (upcoming_of r lower upper) in
        let (n, k) = (cheap_numbered order now half_hourly).kept r here in
        let (g, i) = (green_numbered order now half_hourly).kept (r, n) k in
        (
          slot_of (slot_row now ((r, n), g)),
          made-answer order now half_hourly region_id ((r, n), g) i e,
          made-Shows ((r, n), g),
        )

    FromRow : BestSlot R → Type 0
    FromRow s =
        (r : HalfHour R) × In r half_hourly
        × (r.region_id ≡ region_id)
        × (now ≤ r.period_start_utc)
        × (r.period_start_utc < now + day_us)
        × Shows r s
        × IsRank s.cheapest_rank (count (λ x. x.region_id) region_id (upcoming now half_hourly))
        × IsRank s.greenest_rank (count (λ x. x.region_id) region_id (upcoming now half_hourly))

    made-FromRow : (s : BestSlot R) → In s slots → FromRow s
    unfolding FromRow
    made-FromRow s m =
        let most : ℕ → ℕ = λ i. count (λ x. x.region_id) i (upcoming now half_hourly) in
        let made = answer-IsMade order now half_hourly region_id s m in
        let z = made.ranked_row in
        let c = cheap_numbered order now half_hourly in
        let g = green_numbered order now half_hourly in
        let ranked = g.came z made.in_green in
        let here = c.came z.0 ranked in
        let (there, test) = In-filter (is_upcoming now) z.0.0 half_hourly here in
        let (lower, upper) = upcoming_iff z.0.0 test in
        let b = c.bounds z.0 ranked in
        let d = g.bounds z made.in_green in
        subst FromRow made.is_slot (
          z.0.0,
          there,
          made.same_region,
          lower,
          upper,
          made-Shows z,
          (z.0.1, refl, b.0, subst (λ i. z.0.1 ≤ most i) made.same_region b.1),
          (
            z.1,
            refl,
            d.0,
            subst (λ i. z.1 ≤ most i) made.same_region
                (subst (λ n. z.1 ≤ n) (c.counted z.0.0.region_id) d.1),
          ),
        )

    cheap_ranks :
        (z w : (HalfHour R × ℕ) × ℕ)
        → AreOrdered (λ (r : HalfHour R). r.region_id) (by_price order) z.0 w.0
        → AreRanked
            (λ s. s.cheapest_rank)
            (cheaper order)
            (slot_of (slot_row now z))
            (slot_of (slot_row now w))
    cheap_ranks z w o = (
      z.0.1,
      w.0.1,
      refl,
      refl,
      elim o [
        | inl e ↦ inl (ap (λ x. x.1) e, ap (λ x. x.0.period_start_utc) e)
        | inr before ↦ inr before
      ],
    )

    green_ranks :
        (z w : (HalfHour R × ℕ) × ℕ)
        → AreOrdered (λ (r : HalfHour R × ℕ). r.0.region_id) (λ a b. by_forecast a.0 b.0) z w
        → AreRanked
            (λ s. s.greenest_rank)
            greener
            (slot_of (slot_row now z))
            (slot_of (slot_row now w))
    green_ranks z w o = (
      z.1,
      w.1,
      refl,
      refl,
      elim o [
        | inl e ↦ inl (ap (λ x. x.1) e, ap (λ x. x.0.0.period_start_utc) e)
        | inr before ↦ inr before
      ],
    )

    slots_ranked :
        (a b : BestSlot R)
        → In a slots
        → In b slots
        → AreRanked (λ s. s.cheapest_rank) (cheaper order) a b
          × AreRanked (λ s. s.greenest_rank) greener a b
    slots_ranked a b m n =
        let p = answer-IsMade order now half_hourly region_id a m in
        let q = answer-IsMade order now half_hourly region_id b n in
        let c = cheap_numbered order now half_hourly in
        let g = green_numbered order now half_hourly in
        let same = p.same_region ∙ sym q.same_region in
        (
          subst₂ (AreRanked (λ s. s.cheapest_rank) (cheaper order)) p.is_slot q.is_slot (
              cheap_ranks p.ranked_row q.ranked_row (
                c.ordered p.ranked_row.0 q.ranked_row.0 (g.came p.ranked_row p.in_green)
                  (g.came q.ranked_row q.in_green) same)),
          subst₂ (AreRanked (λ s. s.greenest_rank) greener) p.is_slot q.is_slot (
              green_ranks p.ranked_row q.ranked_row
                (g.ordered p.ranked_row q.ranked_row p.in_green q.in_green same)),
        )

    slots-AreBestSlots : AreBestSlots order now region_id half_hourly slots
    slots-AreBestSlots = record {
      in_order = slots-IsOrdered _ (order_by-IsOrdered (λ r. r.period_start_utc) _);
      of_row = made_of_row;
      from_row = λ s m. unfold FromRow in made-FromRow s m;
      ranked = slots_ranked;
    }

    answer_computed :
        All (λ r. r.computed_at_utc ≡ naive_utc now) (answer order now half_hourly region_id)
    unfolding mart_best_slots_24h
    answer_computed = All-of_In _ _ (λ x k.
        let (n, _) = In-filter _ x _ (In-order_by (λ r. r.period_start_utc) x _ k) in
        let (z, _, f) = In-map (slot_row now) x (green order now half_hourly) n in
        ap (λ r. r.computed_at_utc) f)

∷≢[] : {A : Type 0} {a : A} {l : List A} → (a ∷ l) ≢ []
∷≢[] e = cc

-- The response to the rows of the mart.
respond :
    {R : Type 0} (upper : String → String) (times : Times) (now : ℕ) (built : DateTime)
    (region : Region) (xs : List (SlotRow R))
    → All (λ r. r.computed_at_utc ≡ built) xs
    → let response = slots_response upper times now region (slots_of xs) in
      (response.region ≡ region)
      × (response.slots ≡ map slot_of xs)
      × (((response.slots ≡ []) × (response.computed_at_utc ≡ now_utc now))
          ⊎ ((response.slots ≢ []) × (response.computed_at_utc ≡ built)))
respond upper times now built region [] h = (refl, refl, inl (refl, refl))
respond upper times now built region (x ∷ xs) h = (refl, refl, inr (λ e. ∷≢[] e, h.0))

≢0 : (n : ℕ) → n ≢ 0 → (n == 0) ≡ false
≢0 n h = ground arith

-- When the tables are at hand and dbt has built the mart at `built`, the region code is known and
-- not national, and the cache has no entry for the region, the endpoint returns. Its slots are in
-- the order of their starts; they show exactly the half-hours of the region that the mart of
-- half-hours has in the 24 hours from `built`; and the slots have ranks from 1 to the number of
-- those, equal only for the same start and else in the order of the price, or of the forecast,
-- NULLs last, and of the start. Where there is a slot, the time of computation is the reading of
-- the UTC clock at `built` without a zone, a naive `datetime`; else it is the present, aware.
pub best_slots_answers :
    {R : Type 0} (order : Order R) (upper : String → String) (times : Times)
    (lib : TtlCache (String × ℕ) (Option DateTime × List (BestSlot R))) (cache : lib.Cache)
    (now built : ℕ) (t : Tables R) (code : String) (region : Region)
    → get_region_by_canonical_code upper (ok t) code ≡ ok (some region)
    → region.region_id ≢ 0
    → lib.contains cache times.looked ("_best_slots_cached", region.region_id) ≡ false
    → (response : BestSlotsResponse R) × ((best_slots upper times lib now code (record {
      world = (ok t, ok (mart_best_slots_24h order built t.half_hourly));
      cache = cache;
    })).0
        ≡ ok response)
      × (response.region ≡ region)
      × AreBestSlots order built region.region_id t.half_hourly response.slots
      × (((response.slots ≡ []) × (response.computed_at_utc ≡ now_utc now))
          ⊎ ((response.slots ≢ []) × (response.computed_at_utc ≡ naive_utc built)))
unfolding best_slots resolve_region wrapper get_best_slots
best_slots_answers order upper times lib cache now built t code region known dno miss =
    let xs = answer order built t.half_hourly region.region_id in
    let (a, b, c) =
      respond upper times now (naive_utc built) region xs
        (answer_computed order built t.half_hourly region.region_id) in
    (
      slots_response upper times now region (slots_of xs),
      rw (known, ≢0 region.region_id dno, miss) refl,
      a,
      subst (AreBestSlots order built region.region_id t.half_hourly) (sym b)
          (slots-AreBestSlots order built t.half_hourly region.region_id),
      c,
    )
