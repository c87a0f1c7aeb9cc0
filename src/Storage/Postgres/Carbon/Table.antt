-- ===== src/Storage/Postgres/Carbon/Table.antt =====
-- What `upsert_carbon_intensity_rows` does to raw.carbon_intensity, and when it succeeds.
use mathlib.Core.Path.{subst}
use gridpulse.Prelude.{
  ℕ, ◌≡◌, refl, ap, sym, ◌∙◌, true, Option, none, some, List, [], ◌∷◌, ok, arith, ◌<◌, All, ltb,
  lt→ltb, guards-ok, &&-true,
}
use gridpulse.Storage.Keyed.{find, upsert, IsKeyed, All-find, All-upsert, upsert-IsKeyed}
use gridpulse.Storage.Keyed.Batch.{run, run-keeps, find-upserts, table-run}
use gridpulse.Storage.Postgres.{Key, key_eq, Db, Driver, DnoRegion, CarbonRecord}
use gridpulse.Storage.Postgres.Carbon.{
  Values, has_region, key, fresh, update, fits, allowed, statement,
}
use gridpulse.Storage.Postgres.Carbon.Settled.{
  KeyAgrees, last_at, last_actual, settled, row_after-settled,
}

-- The other tables are the same.
pub record SameElsewhere {R : Type 0} (d d' : Db R) : Type 0 where
  pub dno_region : d'.dno_region ≡ d.dno_region
  pub generation_mix : d'.generation_mix ≡ d.generation_mix
  pub agile_price : d'.agile_price ≡ d.agile_price

-- A row under its key, with the constraints of the table.
abbrev pub RowIsSound : List DnoRegion → Key → CarbonRecord → Type 0
RowIsSound regions k r =
    (r.region_id ≡ k.0)
    × (r.period_start_utc ≡ k.1)
    × (r.period_start_utc < r.period_end_utc)
    × (has_region k.0 regions ≡ true)

-- The primary key and the constraints of raw.carbon_intensity.
pub record IsSound {R : Type 0} (d : Db R) : Type 0 where
  pub keyed : IsKeyed d.carbon_intensity
  pub rows : All (λ x. RowIsSound d.dno_region x.0 x.1) d.carbon_intensity

module _ {P F R : Type 0} (driver : Driver P F R) (now : ℕ) where
  open driver use {timestamptz, available}

  abbrev upsert_one : Values → List (Key × CarbonRecord) → List (Key × CarbonRecord)
  upsert_one v = upsert (key driver now v) (fresh driver now v) (update driver now v)

  statement-ok :
      (v : Values) (d d' : Db R)
      → statement driver now v d ≡ ok d'
      → (d' ≡ record d { carbon_intensity = upsert_one v d.carbon_intensity })
        × (ltb (timestamptz v.1) (timestamptz v.2) ≡ true)
        × (has_region v.0 d.dno_region ≡ true)
  unfolding statement
  statement-ok v d d' h =
      let (_, checked, e) = guards-ok (fits driver now v) (allowed driver now v d) _ _ h in
      let (ordered, known) = &&-true _ _ checked in (sym e, ordered, known)

  statement-SameElsewhere :
      (v : Values) (d d' : Db R) → statement driver now v d ≡ ok d' → SameElsewhere d d'
  statement-SameElsewhere v d d' h =
      subst (SameElsewhere d) (sym (statement-ok v d d' h).0)
        (record { dno_region = refl; generation_mix = refl; agile_price = refl })

  statement-IsSound :
      (v : Values) (d d' : Db R) → statement driver now v d ≡ ok d' → IsSound d → IsSound d'
  unfolding fresh update
  statement-IsSound v d d' h s =
      let (e, ordered, known) = statement-ok v d d' h in
      subst IsSound (sym e) (record {
        keyed = upsert-IsKeyed _ _ _ d.carbon_intensity s.keyed;
        rows =
            All-upsert (RowIsSound d.dno_region) _ _ _ d.carbon_intensity
              (refl, refl, ground arith, known) (λ r q. (q.0, q.1, ground arith, known)) s.rows;
      })

  -- The tuple meets the types and the constraints of the table.
  abbrev pub IsAccepted : List DnoRegion → Values → Type 0
  IsAccepted regions v =
      (fits driver now v ≡ true)
      × (timestamptz v.1 < timestamptz v.2)
      × (has_region v.0 regions ≡ true)

  statement-accepts :
      (v : Values) (d : Db R)
      → IsAccepted d.dno_region v
      → statement driver now v d
        ≡ ok (record d { carbon_intensity = upsert_one v d.carbon_intensity })
  unfolding statement
  statement-accepts v d h = rw (h.0, lt→ltb _ _ h.1, h.2)

  pub run-accepts :
      (vs : List Values) (d : Db R)
      → All (IsAccepted d.dno_region) vs
      → (d' : Db R) × (run (statement driver now) vs d ≡ ok d')
  unfolding run
  run-accepts [] d h = (d, refl)
  run-accepts (v ∷ vs) d h =
      let (d', e) =
        run-accepts vs (record d { carbon_intensity = upsert_one v d.carbon_intensity }) h.1 in
      (d', rw (statement-accepts v d h.0) e)

  KeyAgrees-find :
      (d : Db R) (k : Key) (o : Option CarbonRecord)
      → IsSound d
      → find k d.carbon_intensity ≡ o
      → KeyAgrees k o
  KeyAgrees-find d k none s e = tt
  KeyAgrees-find d k (some r) s e =
      let q = All-find (RowIsSound d.dno_region) k r d.carbon_intensity s.rows e in (q.0, q.1)

  pub settles :
      (vs : List Values) (d d' : Db R)
      → IsSound d
      → run (statement driver now) vs d ≡ ok d'
      → (k : Key)
      → find k d'.carbon_intensity
        ≡ settled driver now k
            (last_at driver k vs)
            (last_actual driver k vs)
            (find k d.carbon_intensity)
  settles vs d d' s h k =
      ap (find k) (
        table-run (key driver now) (fresh driver now) (update driver now)
          (λ (x : Db R). x.carbon_intensity) (statement driver now)
          (λ v a b q. ap (λ (x : Db R). x.carbon_intensity) (statement-ok v a b q).0) vs d d' h)
      ∙ find-upserts (key driver now) (fresh driver now) (update driver now) k vs d.carbon_intensity
      ∙ row_after-settled driver now k vs _ (KeyAgrees-find d k _ s refl)

  pub run-SameElsewhere :
      (vs : List Values) (d d' : Db R)
      → run (statement driver now) vs d ≡ ok d'
      → SameElsewhere d d'
  run-SameElsewhere =
      run-keeps SameElsewhere (statement driver now)
        (λ d. record { dno_region = refl; generation_mix = refl; agile_price = refl })
        (λ a b c p q. record {
          dno_region = q.dno_region ∙ p.dno_region;
          generation_mix = q.generation_mix ∙ p.generation_mix;
          agile_price = q.agile_price ∙ p.agile_price;
        })
        statement-SameElsewhere

  pub run-IsSound :
      (vs : List Values) (d d' : Db R)
      → run (statement driver now) vs d ≡ ok d'
      → IsSound d
      → IsSound d'
  run-IsSound =
      run-keeps (λ a b. IsSound a → IsSound b) (statement driver now) (λ d s. s)
        (λ a b c p q s. q (p s)) statement-IsSound
