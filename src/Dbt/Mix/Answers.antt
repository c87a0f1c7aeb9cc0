-- ===== src/Dbt/Mix/Answers.antt =====
-- What the endpoint of the generation mix answers, once dbt has built its mart.
use gridpulse.Prelude.{
  ℕ, ◌≤◌, ◌≡◌, refl, ap, sym, ◌∙◌, ◌⊎◌, ◌↔◌, inl, inr, ◌==◌, ==_iff, false, In-filter, Option, some,
  String, List, [], ◌∷◌, map, filter, length, Result, ok, raise, http_exception, All, All-In,
  All-of_In, In, In-map, In-map_of, arith, nat_eq, length-map,
}
use mathlib.Core.Path.{subst}
use gridpulse.Storage.Postgres.{Db, MixRecord}
use gridpulse.Storage.Postgres.Mix.Upsert.{MixIsSound}
use gridpulse.Api.Schemas.{GenerationMixFuel, GenerationMixCurrentResponse}
use gridpulse.Api.Marts.{MixLong, max_of, fuel_of, mix_of, get_current_generation_mix}
use gridpulse.Api.Cache.{TtlCache, Times, wrapper}
use gridpulse.Api.Routes.{generation_mix_current}
use gridpulse.Dbt.Mix.{Arithmetic, fuels, stg_generation_mix, mart_generation_mix_long}
use gridpulse.Dbt.Mix.Rows.{max_of_lem, start-key, key-start, at_start, mart, starts, shown}

-- ORDER BY loses no row and adds none.
abbrev pub Rearranges : {A : Type 0} → (List A → List A) → Type 0
Rearranges {A} sort =
    (xs : List A) → (length (sort xs) ≡ length xs) × ((x : A) → In x (sort xs) ↔ In x xs)

empty : {A : Type 0} (xs : List A) → length xs ≡ 0 → xs ≡ []
empty [] h = refl
empty (x ∷ xs) h = absurd (omega arith)

non_empty : {A : Type 0} (a : A) (xs : List A) → In a xs → (y : A) × (ys : List A) × (xs ≡ y ∷ ys)
non_empty a [] m = absurd m
non_empty a (x ∷ xs) m = (x, xs, refl)

mix_of-some :
    {F : Type 0} (k : ℕ) (ys : List (MixLong F))
    → length ys ≡ 11
    → All (λ y. y.period_start_utc ≡ k) ys
    → mix_of ys ≡ some (k, map fuel_of ys)
mix_of-some k [] e h = absurd (omega arith)
mix_of-some k (y ∷ ys) e h = ap (λ n. some (n, map fuel_of (y ∷ ys))) h.0

module _ {R F : Type 0} (a : Arithmetic R F) (by_mw_desc : List (MixLong F) → List (MixLong F))
    (sorts : Rearranges by_mw_desc) where
  latest :
      (d : Db R) (k₀ : ℕ) (r₀ : MixRecord R)
      → MixIsSound d
      → In (k₀, r₀) d.generation_mix
      → (k : ℕ) × (r : MixRecord R) × In (k, r) d.generation_mix
        × All (λ x. x.0 ≤ k) d.generation_mix
        × (max_of (starts a d) ≡ some k)
  latest d k₀ r₀ sound m =
      let (n, ns, e) = non_empty k₀ (starts a d) (key-start a d k₀ r₀ sound m) in
      let (k, found, max) = max_of_lem n ns in
      let (x, there, same) =
        In-map (λ (x : ℕ × MixRecord R). x.0) k d.generation_mix
          (start-key a d k sound (subst (In k) (sym e) max.0)) in
      (
        k,
        x.1,
        subst (λ i. In (i, x.1) d.generation_mix) (sym same) there,
        All-of_In _ _ (λ y l.
            All-In (λ i. i ≤ k) y.0 (n ∷ ns) max.1
              (subst (In y.0) e (key-start a d y.0 y.1 sound l))),
        ap max_of e ∙ found,
      )

  -- The rows of the mart at a start, in the order of the query.
  abbrev chosen : Db R → ℕ → List (MixLong F)
  chosen d k = by_mw_desc (filter (λ x. x.period_start_utc == k) (mart a d))

  chosen_fuels :
      (d : Db R) (k : ℕ) (r : MixRecord R)
      → MixIsSound d
      → In (k, r) d.generation_mix
      → (length (chosen d k) ≡ 11)
        × (mix_of (chosen d k) ≡ some (k, map fuel_of (chosen d k)))
        × ((f : GenerationMixFuel F) → In f (map fuel_of (chosen d k)) ↔ In f (shown a r))
  unfolding fuels
  chosen_fuels d k r sound m =
      let xs = filter (λ (x : MixLong F). x.period_start_utc == k) (mart a d) in
      let (size, same) = sorts xs in
      let e = at_start a d k r sound m in
      let eleven : length (by_mw_desc xs) ≡ 11 =
        size ∙ (sym (length-map xs fuel_of) ∙ ap length e) in
      (
        eleven,
        mix_of-some k (by_mw_desc xs) eleven (
            All-of_In _ _ (λ y l.
              let (_, t) =
                In-filter (λ (x : MixLong F). x.period_start_utc == k) y (mart a d)
                  ((same y).0 l) in
              (==_iff y.period_start_utc k).0 t)),
        λ f. (
          λ l.
              let (y, i, q) = In-map fuel_of f (by_mw_desc xs) l in
              subst (In f) e (
                subst (λ g. In g (map fuel_of xs)) (sym q) (In-map_of fuel_of y xs ((same y).0 i))),
          λ l.
              let (y, i, q) = In-map fuel_of f xs (subst (In f) (sym e) l) in
              subst (λ g. In g (map fuel_of (by_mw_desc xs))) (sym q)
                (In-map_of fuel_of y (by_mw_desc xs) ((same y).1 i)),
        ),
      )

  no_rows : (d : Db R) → d.generation_mix ≡ [] → mart_generation_mix_long a d ≡ []
  unfolding mart_generation_mix_long stg_generation_mix fuels
  no_rows d e = rw e refl

  -- The reply to a table of the generation mix.
  abbrev pub IsCurrentMix : Db R → Result (GenerationMixCurrentResponse F) → Type 0
  IsCurrentMix d reply =
      ((d.generation_mix ≡ []) × (reply ≡ raise (http_exception 404)))
      ⊎ ((k : ℕ) × (r : MixRecord R) × (fs : List (GenerationMixFuel F)) × In (k, r)
            d.generation_mix
          × All (λ x. x.0 ≤ k) d.generation_mix
          × (reply ≡ ok (record { period_start_utc = k; fuels = fs }))
          × (length fs ≡ 11)
          × ((f : GenerationMixFuel F) → In f fs ↔ In f (shown a r)))

  -- Where dbt has built the mart of a table that shows its key, ORDER BY only rearranges, and the
  -- cache has no entry, the endpoint answers an empty table with status 404. Of any other it returns
  -- the latest half-hour, with eleven fuels: exactly those of its raw row, each with its value, its
  -- flag and its share of the sum of the eleven.
  pub generation_mix_current_answers :
      (times : Times) (lib : TtlCache (String × Unit {0}) (Option (ℕ × List (GenerationMixFuel F))))
      (cache : lib.Cache) (d : Db R)
      → MixIsSound d
      → lib.contains cache times.looked ("_gen_mix_current_cached", tt) ≡ false
      → IsCurrentMix d
          (generation_mix_current times by_mw_desc lib
            (record { world = ok (mart_generation_mix_long a d); cache = cache })).0
  unfolding generation_mix_current wrapper get_current_generation_mix
  generation_mix_current_answers times lib cache d sound miss = go d.generation_mix refl
    where
      go :
          (t : List (ℕ × MixRecord R))
          → d.generation_mix ≡ t
          → IsCurrentMix d
              (generation_mix_current times by_mw_desc lib
                (record { world = ok (mart_generation_mix_long a d); cache = cache })).0
      go [] e = inl (e, rw (miss, no_rows d e, empty (by_mw_desc []) (sorts []).0) refl)
      go (x ∷ t) e =
          let (k, r, there, most, max) = latest d x.0 x.1 sound (subst (In x) (sym e) (inl refl)) in
          let (eleven, made, exactly) = chosen_fuels d k r sound there in
          inr (
            k,
            r,
            map fuel_of (chosen d k),
            there,
            most,
            rw (miss, max, made) refl,
            length-map (chosen d k) fuel_of ∙ eleven,
            exactly,
          )
