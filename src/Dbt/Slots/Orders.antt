-- ===== src/Dbt/Slots/Orders.antt =====
-- The orders of the best slots: by price or forecast, NULLs last, and then by the start.
use gridpulse.Prelude.{ℕ, ◌≡◌, refl, Bool, true, false, Option, none, some, ℤ, arith}
use gridpulse.Dbt.Slots.{nulls_last, then_by, leb_ℤ, Order, by_price, by_forecast}
use gridpulse.Dbt.Slots.Numbers.{IsPreorder}

nulls_last-IsPreorder :
    {X : Type 0} (at_most : X → X → Bool) → IsPreorder at_most → IsPreorder (nulls_last at_most)
nulls_last-IsPreorder {X} at_most o = record { total = total; transitive = transitive }
  where
    total : (a b : Option X) → nulls_last at_most a b ≡ false → nulls_last at_most b a ≡ true
    total a none h = cc
    total none (some b) h = refl
    total (some a) (some b) h = o.total a b h

    transitive :
        (a b c : Option X)
        → nulls_last at_most a b ≡ true
        → nulls_last at_most b c ≡ true
        → nulls_last at_most a c ≡ true
    transitive a b none h k = refl
    transitive a none (some c) h k = cc
    transitive none (some b) (some c) h k = cc
    transitive (some a) (some b) (some c) h k = o.transitive a b c h k

module _ {A X : Type 0} (at_most : X → X → Bool) (column : A → X) (start : A → ℕ)
    (o : IsPreorder at_most) where
  then_by_total :
      (a b : A) → then_by at_most column start a b ≡ false → then_by at_most column start b a ≡ true
  then_by_total a b h = ground (arith, o.total (column a) (column b))

  then_by_transitive :
      (a b c : A)
      → then_by at_most column start a b ≡ true
      → then_by at_most column start b c ≡ true
      → then_by at_most column start a c ≡ true
  then_by_transitive a b c h k = ground (
    arith,
    o.transitive (column a) (column b) (column c),
    o.transitive (column c) (column a) (column b),
    o.transitive (column b) (column c) (column a),
  )

  pub then_by-IsPreorder : IsPreorder (then_by at_most column start)
  then_by-IsPreorder = record { total = then_by_total; transitive = then_by_transitive }

leb_ℤ_total : (a b : ℤ) → leb_ℤ a b ≡ false → leb_ℤ b a ≡ true
leb_ℤ_total a b h = ground arith

leb_ℤ_transitive : (a b c : ℤ) → leb_ℤ a b ≡ true → leb_ℤ b c ≡ true → leb_ℤ a c ≡ true
leb_ℤ_transitive a b c h k = ground arith

module _ {R : Type 0} where
  pub by_price-IsPreorder : (order : Order R) → IsPreorder (by_price order)
  by_price-IsPreorder order =
      then_by-IsPreorder (nulls_last order.at_most) (λ r. r.price_pence_per_kwh_inc_vat)
        (λ r. r.period_start_utc)
        (nulls_last-IsPreorder order.at_most
          (record { total = order.total; transitive = order.transitive }))

  pub by_forecast-IsPreorder : IsPreorder (by_forecast {R = R})
  by_forecast-IsPreorder =
      then_by-IsPreorder (nulls_last leb_ℤ) (λ r. some r.forecast_gco2_per_kwh)
        (λ r. r.period_start_utc)
        (nulls_last-IsPreorder leb_ℤ
          (record { total = leb_ℤ_total; transitive = leb_ℤ_transitive }))
