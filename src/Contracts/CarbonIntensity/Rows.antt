-- ===== src/Contracts/CarbonIntensity/Rows.antt =====
-- What the rows of a Carbon Intensity response are.
use mathlib.Core.List.{append-nil, append_assoc, map-append}
use gridpulse.Prelude.{
  ℕ, ◌≡◌, refl, ap, ap₂, ◌↔◌, All, All-append, none, inl, inr, Bool, true, false, not, List, [],
  ◌∷◌, ◌++◌, map, arith, In, In-map, In-map_of, In-filter, In-filter_of, In-flat_map,
  In-flat_map_of, Bool-cases, flat_map, filter, ◌∙◌,
}
use gridpulse.Contracts.CarbonIntensity.{
  CarbonIntensityRow, Region, RegionalPeriod, RegionalResponse, regional_row, regional_to_rows,
  append_regions, append_periods, is_rollup,
}

not-eq-true : (b : Bool) → not b ≡ true → b ≡ false
not-eq-true b h = ground arith

module _ {F : Type 0} where
  abbrev is_kept : Region F → Bool
  is_kept r = not (is_rollup r.regionid)

  -- The rows of one period, without the accumulator.
  abbrev pub period_rows : RegionalPeriod F → List CarbonIntensityRow
  period_rows p = map (regional_row p) (filter is_kept p.regions)

  append_regions-eq :
      (p : RegionalPeriod F) (rs : List (Region F)) (rows : List CarbonIntensityRow)
      → append_regions p rs rows ≡ rows ++ map (regional_row p) (filter is_kept rs)
  unfolding append_regions
  append_regions-eq p [] rows = rw append-nil
  append_regions-eq p (r ∷ rs) rows = elim (Bool-cases (is_rollup r.regionid)) [
    | inl e ↦ rw e (append_regions-eq p rs rows)
    | inr e ↦ rw e (
        append_regions-eq p rs (rows ++ regional_row p r ∷ [])
        ∙ append_assoc rows (regional_row p r ∷ []) _)
  ]

  append_periods-eq :
      (ps : List (RegionalPeriod F)) (rows : List CarbonIntensityRow)
      → append_periods ps rows ≡ rows ++ flat_map period_rows ps
  unfolding append_periods
  append_periods-eq [] rows = rw append-nil
  append_periods-eq (p ∷ ps) rows =
      append_periods-eq ps (append_regions p p.regions rows)
      ∙ (rw (append_regions-eq p p.regions rows) (append_assoc rows (period_rows p) _))

  pub regional_to_rows-eq :
      (r : RegionalResponse F) → regional_to_rows r ≡ flat_map period_rows r.periods
  unfolding regional_to_rows
  regional_to_rows-eq r = append_periods-eq r.periods []

  -- A row comes from a period and a region of it that is no rollup.
  pub record ComesFrom (ps : List (RegionalPeriod F)) (row : CarbonIntensityRow) : Type 0 where
    pub period : RegionalPeriod F
    pub region : Region F
    pub in_response : In period ps
    pub in_period : In region period.regions
    pub no_rollup : is_rollup region.regionid ≡ false
    pub is_row : row ≡ regional_row period region

  sound :
      (r : RegionalResponse F) (row : CarbonIntensityRow)
      → In row (flat_map period_rows r.periods)
      → ComesFrom r.periods row
  sound r row m =
      let (p, in_r, k) = In-flat_map period_rows row r.periods m in
      let (g, n, e) = In-map (regional_row p) row (filter is_kept p.regions) k in
      let (in_p, kept) = In-filter is_kept g p.regions n in
      record {
        period = p;
        region = g;
        in_response = in_r;
        in_period = in_p;
        no_rollup = not-eq-true _ kept;
        is_row = e;
      }

  complete :
      (r : RegionalResponse F) (row : CarbonIntensityRow)
      → ComesFrom r.periods row
      → In row (flat_map period_rows r.periods)
  complete r row c = rw c.is_row (
      In-flat_map_of period_rows c.period _ r.periods c.in_response (
        In-map_of (regional_row c.period) c.region _
          (In-filter_of is_kept c.region _ c.in_period (rw c.no_rollup))))

  -- The rows of a regional response are exactly those of the regions, in any period, that are no
  -- rollup (England, Scotland, Wales and GB, ids 15 to 18): none is lost and none is added.
  pub regional_to_rows-In :
      (r : RegionalResponse F) (row : CarbonIntensityRow)
      → In row (regional_to_rows r) ↔ ComesFrom r.periods row
  regional_to_rows-In r row = rw regional_to_rows-eq (sound r row, complete r row)

-- The ids of a complete regional period: the 14 regions and the four rollups.
abbrev pub all_ids : List ℕ
all_ids = 1 ∷ 2 ∷ 3 ∷ 4 ∷ 5 ∷ 6 ∷ 7 ∷ 8 ∷ 9 ∷ 10 ∷ 11 ∷ 12 ∷ 13 ∷ 14 ∷ 15 ∷ 16 ∷ 17 ∷ 18 ∷ []

abbrev pub dno_ids : List ℕ
dno_ids = 1 ∷ 2 ∷ 3 ∷ 4 ∷ 5 ∷ 6 ∷ 7 ∷ 8 ∷ 9 ∷ 10 ∷ 11 ∷ 12 ∷ 13 ∷ 14 ∷ []

kept_ids : filter (λ i. not (is_rollup i)) all_ids ≡ dno_ids
unfolding is_rollup
kept_ids = refl

module _ {F : Type 0} where
  ids-rows :
      (p : RegionalPeriod F) (rs : List (Region F))
      → map (λ x. x.region_id) (map (regional_row p) (filter is_kept rs))
        ≡ filter (λ i. not (is_rollup i)) (map (λ x. x.regionid) rs)
  unfolding regional_row
  ids-rows p [] = refl
  ids-rows p (r ∷ rs) = elim (Bool-cases (is_rollup r.regionid)) [
    | inl e ↦ rw e (ids-rows p rs)
    | inr e ↦ rw e (ap (◌∷◌ r.regionid) (ids-rows p rs))
  ]

  abbrev pub HasAllIds : RegionalPeriod F → Type 0
  HasAllIds p = map (λ x. x.regionid) p.regions ≡ all_ids

  ids-periods :
      (ps : List (RegionalPeriod F))
      → All HasAllIds ps
      → map (λ x. x.region_id) (flat_map period_rows ps) ≡ flat_map (λ _. dno_ids) ps
  ids-periods [] h = refl
  ids-periods (p ∷ ps) h =
      map-append (λ (x : CarbonIntensityRow). x.region_id) (period_rows p) (flat_map period_rows ps)
      ∙ ap₂ ◌++◌ (ids-rows p p.regions ∙ ap (filter (λ i. not (is_rollup i))) h.0 ∙ kept_ids)
          (ids-periods ps h.1)

  unrealised-rows :
      (p : RegionalPeriod F) (rs : List (Region F))
      → All (λ x. x.actual_gco2_per_kwh ≡ none) (map (regional_row p) rs)
  unfolding regional_row
  unrealised-rows p [] = tt
  unrealised-rows p (r ∷ rs) = (refl, unrealised-rows p rs)

  unrealised-periods :
      (ps : List (RegionalPeriod F))
      → All (λ x. x.actual_gco2_per_kwh ≡ none) (flat_map period_rows ps)
  unrealised-periods [] = tt
  unrealised-periods (p ∷ ps) =
      All-append _ (period_rows p) (flat_map period_rows ps)
        (unrealised-rows p (filter is_kept p.regions)) (unrealised-periods ps)

  -- If every period of the response lists the 18 entries, the rows of each period are those of the
  -- 14 DNO regions, in order, and none of the rows of the response has a realised value.
  pub regional_to_rows_dno :
      (r : RegionalResponse F)
      → All HasAllIds r.periods
      → (map (λ x. x.region_id) (regional_to_rows r) ≡ flat_map (λ _. dno_ids) r.periods)
        × All (λ x. x.actual_gco2_per_kwh ≡ none) (regional_to_rows r)
  regional_to_rows_dno r h =
      rw regional_to_rows-eq (ids-periods r.periods h, unrealised-periods r.periods)
