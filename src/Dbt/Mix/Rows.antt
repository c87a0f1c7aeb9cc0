-- ===== src/Dbt/Mix/Rows.antt =====
-- The rows of the mart of the generation mix: eleven for each raw row, at its start.
use gridpulse.Prelude.{
  ℕ, ◌≤◌, ◌≡◌, refl, ap, ap₂, sym, ◌∙◌, inl, inr, ◌==◌, ==_iff, String, Bool, true, false,
  if◌then◌else◌, none, Bool-cases, some, List, [], ◌∷◌, ◌++◌, map, filter, filter-append, flat_map,
  All, All-In, All-implies, In, In-map, In-map_of, In-flat_map, In-flat_map_of, arith, leb, leb→le,
  leb-false, nat_eq,
}
use mathlib.Core.Path.{subst}
use gridpulse.Storage.Keyed.{IsKeyed, HasKey}
use gridpulse.Storage.Postgres.{Db, MixRecord}
use gridpulse.Storage.Postgres.Mix.Upsert.{MixIsSound, Agrees}
use gridpulse.Api.Schemas.{GenerationMixFuel}
use gridpulse.Api.Marts.{MixLong, max_of, fuel_of}
use gridpulse.Dbt.Mix.{
  Fuel, Staged, Arithmetic, column, fuels, select, stg_generation_mix, total_mw, long_row,
  mart_generation_mix_long,
}

-- `max(…)` is an element that no other exceeds.
abbrev pub IsMax : ℕ → List ℕ → Type 0
IsMax m ns = In m ns × All (λ n. n ≤ m) ns

pub max_of_lem : (n : ℕ) (ns : List ℕ) → (m : ℕ) × (max_of (n ∷ ns) ≡ some m) × IsMax m (n ∷ ns)
unfolding max_of
max_of_lem n [] = (n, refl, (inl refl, (omega arith, tt)))
max_of_lem n (k ∷ ns) =
    let (m, e, max) = max_of_lem k ns in
    elim (Bool-cases (leb n m)) [
      | inl le ↦ (m, rw (e, le) refl, (inr max.0, (leb→le n m le, max.1)))
      | inr gt ↦ (
        n,
        rw (e, gt) refl,
        (
          inl refl,
          (
            omega arith,
            All-implies (λ x. x ≤ m) (λ x. x ≤ n) (k ∷ ns)
                (λ x h. omega (arith, leb-false n m gt, h)) max.1,
          ),
        ),
      )
    ]

module _ {R : Type 0} where
  abbrev starting : ℕ → Staged R → Bool
  starting start m = m.period_start_utc == start

  absent_filter :
      (f : Fuel R) (k : ℕ) (t : List (ℕ × MixRecord R))
      → All (λ x. Agrees x.0 x.1) t
      → ¬ HasKey k t
      → filter (starting k) (map (select f) (map (λ x. x.1) t)) ≡ []
  absent_filter f k [] h absent = refl
  absent_filter f k ((j, q) ∷ t) h absent = elim (Bool-cases (q.period_start_utc == k)) [
    | inl m ↦ absurd (absent (inl (sym h.0 ∙ (==_iff q.period_start_utc k).0 m)))
    | inr m ↦ rw m (absent_filter f k t h.1 (λ n. absent (inr n)))
  ]

  one_filter :
      (f : Fuel R) (k : ℕ) (r : MixRecord R) (t : List (ℕ × MixRecord R))
      → All (λ x. Agrees x.0 x.1) t
      → IsKeyed t
      → In (k, r) t
      → filter (starting k) (map (select f) (map (λ x. x.1) t)) ≡ select f r ∷ []
  one_filter f k r [] h keyed m = absurd m
  one_filter f k r ((j, q) ∷ t) h keyed (inl e) =
      let here = ap (λ x. x.0) e in
      rw ((==_iff q.period_start_utc k).1 (h.0 ∙ here)) (
        ap₂ ◌∷◌ (ap (λ x. select f x.1) e)
          (absent_filter f k t h.1 (λ n. keyed.0 (subst (λ i. HasKey i t) (sym here) n))))
  one_filter f k r ((j, q) ∷ t) h keyed (inr m) = elim (Bool-cases (q.period_start_utc == k)) [
    | inl same ↦
        let e : j ≡ k = sym h.0 ∙ (==_iff q.period_start_utc k).0 same in
        absurd (keyed.0 (subst (λ i. HasKey i t) (sym e) (In-map_of (λ x. x.0) (k, r) t m)))
    | inr other ↦ rw other (one_filter f k r t h.1 keyed.1 m)
  ]

  fuels_filter :
      (fs : List (Fuel R)) (k : ℕ) (r : MixRecord R) (t : List (ℕ × MixRecord R))
      → All (λ x. Agrees x.0 x.1) t
      → IsKeyed t
      → In (k, r) t
      → filter (starting k) (flat_map (λ f. map (select f) (map (λ x. x.1) t)) fs)
        ≡ map (λ f. select f r) fs
  fuels_filter [] k r t h keyed m = refl
  fuels_filter (f ∷ fs) k r t h keyed m =
      filter-append (starting k) (map (select f) (map (λ x. x.1) t)) _
      ∙ ap₂ ◌++◌ (one_filter f k r t h keyed m) (fuels_filter fs k r t h keyed m)

gas : {R : Type 0} → Fuel R
gas = column "gas" (λ r. r.gas_mw) false

gas-In : (R : Type 0) → In (gas {R = R}) fuels
unfolding fuels gas
gas-In R = inl refl

module _ {R F : Type 0} (a : Arithmetic R F) where
  -- A fuel of a raw row as the API shows it, with its share of a sum.
  abbrev of_total : R → String → R → Bool → GenerationMixFuel F
  of_total total fuel mw is_renewable = record {
    fuel = fuel;
    mw = a.to_float mw;
    is_renewable = is_renewable;
    share_of_generation_pct = if a.is_positive total then some (a.share mw total) else none;
  }

  -- The sum of the eleven fuels of a raw row.
  abbrev sum_of : MixRecord R → R
  sum_of r = a.sum (
      r.gas_mw ∷ r.coal_mw ∷ r.nuclear_mw ∷ r.wind_mw ∷ r.wind_embedded_mw ∷ r.hydro_mw
      ∷ r.imports_mw ∷ r.biomass_mw ∷ r.other_mw ∷ r.solar_mw ∷ r.storage_mw ∷ [])

  -- The eleven fuels that the API shows of a raw row.
  abbrev pub shown : MixRecord R → List (GenerationMixFuel F)
  shown r =
      let of = of_total (sum_of r) in
      of "gas" r.gas_mw false
      ∷ of "coal" r.coal_mw false
      ∷ of "nuclear" r.nuclear_mw false
      ∷ of "wind" r.wind_mw true
      ∷ of "wind_emb" r.wind_embedded_mw true
      ∷ of "hydro" r.hydro_mw true
      ∷ of "imports" r.imports_mw false
      ∷ of "biomass" r.biomass_mw true
      ∷ of "other" r.other_mw false
      ∷ of "solar" r.solar_mw true
      ∷ of "storage" r.storage_mw false
      ∷ []

  fuels-shown :
      (r : MixRecord R)
      → map (λ f. fuel_of (long_row a (select f r) (a.sum (map (λ g. g.mw r) fuels)))) fuels
        ≡ shown r
  unfolding fuels
  fuels-shown r = refl

  abbrev pub mart : Db R → List (MixLong F)
  mart d = mart_generation_mix_long a d

  abbrev pub starts : Db R → List ℕ
  starts d = map (λ x. x.period_start_utc) (mart d)

  -- The starts of the mart are those of the raw table.
  pub start-key : (d : Db R) (n : ℕ) → MixIsSound d → In n (starts d) → HasKey n d.generation_mix
  unfolding mart_generation_mix_long stg_generation_mix
  start-key d n sound m =
      let (x, k, e) = In-map (λ (x : MixLong F). x.period_start_utc) n (mart d) m in
      let (y, i, q) = In-map _ x (stg_generation_mix d) k in
      let (f, _, j) =
        In-flat_map (λ f. map (select f) (map (λ z. z.1) d.generation_mix)) y fuels i in
      let (r, l, p) = In-map (select f) y _ j in
      let (z, o, w) = In-map (λ (z : ℕ × MixRecord R). z.1) r d.generation_mix l in
      let agrees = All-In (λ z. Agrees z.0 z.1) z d.generation_mix sound.rows o in
      subst (λ i. HasKey i d.generation_mix)
        (sym agrees
          ∙ (sym (ap (λ r. r.period_start_utc) w)
              ∙ (sym (ap (λ y. y.period_start_utc) p)
                  ∙ (sym (ap (λ x. x.period_start_utc) q) ∙ sym e))))
        (In-map_of (λ z. z.0) z d.generation_mix o)

  pub key-start :
      (d : Db R) (k : ℕ) (r : MixRecord R)
      → MixIsSound d
      → In (k, r) d.generation_mix
      → In k (starts d)
  unfolding mart_generation_mix_long stg_generation_mix
  key-start d k r sound m =
      let agrees = All-In (λ z. Agrees z.0 z.1) (k, r) d.generation_mix sound.rows m in
      subst (λ n. In n (starts d)) agrees
        (In-map_of (λ (x : MixLong F). x.period_start_utc) _ (mart d)
          (In-map_of _ (select gas r) (stg_generation_mix d) (
            In-flat_map_of (λ f. map (select f) (map (λ z. z.1) d.generation_mix)) gas
              (select gas r) fuels (gas-In R)
              (In-map_of (select gas) r _ (In-map_of (λ z. z.1) (k, r) d.generation_mix m)))))

  -- The rows of the mart at the start of a raw row.
  filter-long :
      (p : ℕ → Bool) (total : ℕ → R) (xs : List (Staged R))
      → filter (λ x. p x.period_start_utc) (map (λ m. long_row a m (total m.period_start_utc)) xs)
        ≡ map (λ m. long_row a m (total m.period_start_utc)) (filter (λ m. p m.period_start_utc) xs)
  filter-long p total [] = refl
  filter-long p total (x ∷ xs) = elim (Bool-cases (p x.period_start_utc)) [
    | inl e ↦ rw e (ap (λ l. long_row a x (total x.period_start_utc) ∷ l) (filter-long p total xs))
    | inr e ↦ rw e (filter-long p total xs)
  ]

  map-shown :
      (r : MixRecord R) (total : ℕ → R) (fs : List (Fuel R))
      → map fuel_of (map (λ m. long_row a m (total m.period_start_utc)) (map (λ f. select f r) fs))
        ≡ map (λ f. fuel_of (long_row a (select f r) (total r.period_start_utc))) fs
  map-shown r total [] = refl
  map-shown r total (f ∷ fs) =
      ap (λ l. fuel_of (long_row a (select f r) (total r.period_start_utc)) ∷ l)
        (map-shown r total fs)

  pub at_start :
      (d : Db R) (k : ℕ) (r : MixRecord R)
      → MixIsSound d
      → In (k, r) d.generation_mix
      → map fuel_of (filter (λ x. x.period_start_utc == k) (mart d)) ≡ shown r
  unfolding mart_generation_mix_long stg_generation_mix
  at_start d k r sound m =
      let mix = stg_generation_mix d in
      let picked = fuels_filter fuels k r d.generation_mix sound.rows sound.keyed m in
      let agrees = All-In (λ z. Agrees z.0 z.1) (k, r) d.generation_mix sound.rows m in
      ap (map fuel_of) (filter-long (λ n. n == k) (total_mw a mix) mix)
      ∙ (ap (λ l. map fuel_of (map (λ x. long_row a x (total_mw a mix x.period_start_utc)) l))
            picked
          ∙ (map-shown r (total_mw a mix) fuels
              ∙ ap (λ t. map (λ f. fuel_of (long_row a (select f r) t)) fuels)
                  (ap (total_mw a mix) agrees ∙ ap (λ l. a.sum (map (λ x. x.mw) l)) picked)
              ∙ fuels-shown r))
