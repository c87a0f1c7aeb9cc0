-- ===== src/Dagster/Metadata/Summary.antt =====
-- What the metadata of a run say of its rows.
use gridpulse.Prelude.{
  ℕ, ◌≤◌, String, ℤ, pos, ◌≤ℤ◌, ◌≡◌, ◌↔◌, inl, inr, refl, Bool, true, false, none, some, Option,
  List, [], ◌∷◌, map, length, ok, All, In, arith, Bool-cases, ltb, ltb_ℤ, ==_iff, ◌==◌,
  if◌then◌else◌,
}
use mathlib.Core.Path.{subst}
use gridpulse.Datetime.{DateTime, Offset, instant, is_aware, same_kind}
use gridpulse.Contracts.CarbonIntensity.{CarbonIntensityRow}
use gridpulse.Dagster.Metadata.{
  text, int, carbon_rows, latest, least, greatest, is_among, distinct, extras, materialize_result,
}

-- The element that a comparison picks of a list is below all of it.
module _ {A : Type 0} (lt : A → A → Bool) (Le : A → A → Type 0) (same : (a : A) → Le a a)
    (chain : (a b c : A) → Le a b → Le b c → Le a c) (below : (a b : A) → lt a b ≡ true → Le a b)
    (above : (a b : A) → lt a b ≡ false → Le b a) where
  picked :
      (x best : A) → Le (if lt x best then x else best) x × Le (if lt x best then x else best) best
  picked x best = elim (Bool-cases (lt x best)) [
    | inl e ↦ rw e (same x, below x best e)
    | inr e ↦ rw e (above x best e, same best)
  ]

  pub least_lem : (best : A) (xs : List A) → All (Le (least lt best xs)) (best ∷ xs)
  unfolding least
  least_lem best [] = (same best, tt)
  least_lem best (x ∷ xs) =
      let next = if lt x best then x else best in
      let h = least_lem next xs in
      let p = picked x best in (chain _ next best h.0 p.1, (chain _ next x h.0 p.0, h.1))

module _ {A : Type 0} (lt : A → A → Bool) where
  pub least-In : (best : A) (xs : List A) → In (least lt best xs) (best ∷ xs)
  unfolding least
  least-In best [] = inl refl
  least-In best (x ∷ xs) = go (lt x best) (least-In (if lt x best then x else best) xs)
    where
      go : (b : Bool) → {m : A} → In m ((if b then x else best) ∷ xs) → In m (best ∷ x ∷ xs)
      go true (inl e) = inr (inl e)
      go true (inr k) = inr (inr k)
      go false (inl e) = inl e
      go false (inr k) = inr (inr k)

  greatest-least : (best : A) (xs : List A) → greatest lt best xs ≡ least (λ x y. lt y x) best xs
  unfolding least greatest
  greatest-least best [] = refl
  greatest-least best (x ∷ xs) = greatest-least (if lt best x then x else best) xs

abbrev is_later : DateTime → DateTime → Bool
is_later d best = ltb (instant best) (instant d)

same_kind-aware :
    {A : Type 0} (w v : ℕ) (o p : Option Offset) (a : A)
    → is_aware (record { wall = w; tzinfo = o }) ≡ true
    → is_aware (record { wall = v; tzinfo = p }) ≡ true
    → same_kind o p a ≡ ok a
same_kind-aware w v (some o) (some p) a h k = refl
same_kind-aware w v none p a h k = cc
same_kind-aware w v (some o) none a h k = cc

-- Of aware times the latest is found.
latest-least :
    (d : DateTime) (ds : List DateTime)
    → is_aware d ≡ true
    → All (λ x. is_aware x ≡ true) ds
    → latest d ds ≡ ok (least is_later d ds)
unfolding latest least
latest-least d [] h k = refl
latest-least d (x ∷ ds) h k =
    rw (same_kind-aware d.wall x.wall d.tzinfo x.tzinfo (ltb (instant d) (instant x)) h k.0)
      (latest-least (if is_later x d then x else d) ds aware k.1)
  where
    aware : is_aware (if is_later x d then x else d) ≡ true
    aware = elim (Bool-cases (is_later x d)) [ inl e ↦ rw e k.0 | inr e ↦ rw e h ]

-- No number stands twice.
abbrev pub IsSetOf : List ℕ → Type 0
IsSetOf [] = Unit
IsSetOf (x ∷ xs) = (¬ In x xs) × IsSetOf xs

is_among_iff : (n : ℕ) (xs : List ℕ) → (is_among n xs ≡ true) ↔ In n xs
unfolding is_among
is_among_iff n [] = (λ h. cc, absurd)
is_among_iff n (x ∷ xs) = elim (Bool-cases (x == n)) [
  | inl e ↦ rw e (λ h. inl ((==_iff x n).0 e), λ m. refl)
  | inr e ↦ rw e (
    λ h. inr ((is_among_iff n xs).0 h),
    λ m. elim m [ inl q ↦ absurd (ground (arith, e, q)) | inr k ↦ (is_among_iff n xs).1 k ],
  )
]

distinct-In : (n : ℕ) (xs : List ℕ) → In n (distinct xs) ↔ In n xs
unfolding distinct
distinct-In n [] = (λ m. m, λ m. m)
distinct-In n (x ∷ xs) = elim (Bool-cases (is_among x xs)) [
  | inl e ↦ rw e (
    λ m. inr ((distinct-In n xs).0 m),
    λ m. elim m [
      | inl q ↦ (distinct-In n xs).1 (subst (λ y. In y xs) q ((is_among_iff x xs).0 e))
      | inr k ↦ (distinct-In n xs).1 k
    ],
  )
  | inr e ↦ rw e (
    λ m. elim m [ inl q ↦ inl q | inr k ↦ inr ((distinct-In n xs).0 k) ],
    λ m. elim m [ inl q ↦ inl q | inr k ↦ inr ((distinct-In n xs).1 k) ],
  )
]

distinct-IsSetOf : (xs : List ℕ) → IsSetOf (distinct xs)
unfolding distinct
distinct-IsSetOf [] = tt
distinct-IsSetOf (x ∷ xs) = elim (Bool-cases (is_among x xs)) [
  | inl e ↦ rw e (distinct-IsSetOf xs)
  | inr e ↦ rw e (λ m. cc ((is_among_iff x xs).1 ((distinct-In x xs).0 m)), distinct-IsSetOf xs)
]

All-starts :
    (rs : List CarbonIntensityRow)
    → All (λ (r : CarbonIntensityRow). is_aware r.period_start_utc ≡ true) rs
    → All (λ d. is_aware d ≡ true) (map (λ r. r.period_start_utc) rs)
All-starts [] h = tt
All-starts (r ∷ rs) h = (h.0, All-starts rs h.1)

abbrev forecasts : List CarbonIntensityRow → List ℤ
forecasts rs = map (λ r. r.forecast_gco2_per_kwh) rs

-- What the figures of a run of the carbon assets are of its rows.
pub record Figures (rs : List CarbonIntensityRow) (newest : DateTime) (lowest highest : ℤ)
    (ids : List ℕ) : Type 0 where
  pub newest_start : In newest (map (λ r. r.period_start_utc) rs)
  pub none_later : All (λ d. instant d ≤ instant newest) (map (λ r. r.period_start_utc) rs)
  pub a_lowest : In lowest (forecasts rs)
  pub none_lower : All (λ f. lowest ≤ℤ f) (forecasts rs)
  pub a_highest : In highest (forecasts rs)
  pub none_higher : All (λ f. f ≤ℤ highest) (forecasts rs)
  pub ids_of_rows : (i : ℕ) → In i ids ↔ In i (map (λ r. r.region_id) rs)
  pub ids_once : IsSetOf ids

module _ {F : Type 0} (isoformat : DateTime → String) (float_lt : F → F → Bool) where
  -- Where a run of a carbon asset has rows and their starts are aware, its metadata are made, and
  -- show the source, the number written, the latest start of a row, the least and the greatest
  -- forecast of a row, and how many regions the rows have, each counted once.
  pub materialize_result_summarises :
      (n : ℕ) (r : CarbonIntensityRow) (rs : List CarbonIntensityRow) (source : String)
      → All (λ (x : CarbonIntensityRow). is_aware x.period_start_utc ≡ true) (r ∷ rs)
      → (newest : DateTime) × (lowest : ℤ) × (highest : ℤ) × (ids : List ℕ) × (materialize_result
            isoformat float_lt n
            (carbon_rows (r ∷ rs))
            source
          ≡ ok (
              ("source", text source)
              ∷ ("rows_written", int (pos n))
              ∷ ("latest_period_utc", text (isoformat newest))
              ∷ ("forecast_min_gco2_per_kwh", int lowest)
              ∷ ("forecast_max_gco2_per_kwh", int highest)
              ∷ ("regions", int (pos (length ids)))
              ∷ []))
        × Figures (r ∷ rs) newest lowest highest ids
  unfolding materialize_result
  materialize_result_summarises n r rs source h =
      let d = r.period_start_utc in
      let ds = map (λ x. x.period_start_utc) rs in
      let f = r.forecast_gco2_per_kwh in
      let fs = forecasts rs in
      (
        least is_later d ds,
        least ltb_ℤ f fs,
        least (λ x y. ltb_ℤ y x) f fs,
        distinct (map (λ x. x.region_id) (r ∷ rs)),
        rw (latest-least d ds h.0 (All-starts rs h.1)) (unfold extras in rw greatest-least refl),
        record {
          newest_start = least-In is_later d ds;
          none_later =
              least_lem is_later (λ a b. instant b ≤ instant a) (λ a. omega arith)
                (λ a b c p q. omega (arith, p, q)) (λ a b e. ground (arith, e))
                (λ a b e. ground (arith, e)) d ds;
          a_lowest = least-In ltb_ℤ f fs;
          none_lower =
              least_lem ltb_ℤ ◌≤ℤ◌ (λ a. omega arith) (λ a b c p q. omega (arith, p, q))
                (λ a b e. ground (arith, e)) (λ a b e. ground (arith, e)) f fs;
          a_highest = least-In (λ x y. ltb_ℤ y x) f fs;
          none_higher =
              least_lem (λ x y. ltb_ℤ y x) (λ a b. b ≤ℤ a) (λ a. omega arith)
                (λ a b c p q. omega (arith, p, q)) (λ a b e. ground (arith, e))
                (λ a b e. ground (arith, e)) f fs;
          ids_of_rows = λ i. distinct-In i (map (λ x. x.region_id) (r ∷ rs));
          ids_once = distinct-IsSetOf (map (λ x. x.region_id) (r ∷ rs));
        },
      )
