-- ===== src/Storage/Postgres/Mix/Upsert.antt =====
-- What `upsert_generation_mix_rows` promises.
use gridpulse.Prelude.{
  ℕ, nat_eq, String, ◌≡◌, refl, ap, sym, ◌∙◌, Bool, true, false, Option, List, map, Result, ok,
  raise, data_error, length, length-map, All, if◌then◌else◌,
}
use mathlib.Core.Path.{subst}
use gridpulse.Contracts.Neso.{NesoGenerationMixRow}
use gridpulse.Storage.Keyed.{find, upsert, IsKeyed, All-upsert, upsert-IsKeyed}
use gridpulse.Storage.Keyed.Batch.{run, run-keeps}
use gridpulse.Storage.Keyed.Latest.{last_for, replaced, find-run}
use gridpulse.Storage.Pool.{Process}
use gridpulse.Storage.Postgres.{Db, Driver, MixRecord}
use gridpulse.Storage.Postgres.Atomic.{write_rows-run}
use gridpulse.Storage.Postgres.Mix.{
  Values, payload, key, fresh, update, fits, statement, upsert_generation_mix_rows,
}

-- What an upsert is to send of a row, column by column.
abbrev pub columns_of : {F : Type 0} → NesoGenerationMixRow F → Values F
columns_of r = (
  r.period_start_utc, r.gas_mw, r.coal_mw, r.nuclear_mw, r.wind_mw, r.wind_embedded_mw, r.hydro_mw,
  r.imports_mw, r.biomass_mw, r.other_mw, r.solar_mw, r.storage_mw, r.total_generation_mw,
  r.neso_carbon_intensity_gco2_per_kwh,
)

module _ {R : Type 0} where
  abbrev pub Agrees : ℕ → MixRecord R → Type 0
  Agrees k r = r.period_start_utc ≡ k

  -- The primary key of raw.generation_mix, which its rows show.
  pub record MixIsSound (d : Db R) : Type 0 where
    pub keyed : IsKeyed d.generation_mix
    pub rows : All (λ x. Agrees x.0 x.1) d.generation_mix

  -- The tables but raw.generation_mix are the same.
  pub record SameButMix (d d' : Db R) : Type 0 where
    pub dno_region : d'.dno_region ≡ d.dno_region
    pub carbon_intensity : d'.carbon_intensity ≡ d.carbon_intensity
    pub agile_price : d'.agile_price ≡ d.agile_price

pub fitted :
    {D : Type 0} (b : Bool) (x y : D) → (if b then ok x else raise data_error) ≡ ok y → y ≡ x
fitted true x y h = cc
fitted false x y h = cc

module _ {P F R : Type 0} (driver : Driver P F R) (now : ℕ) where
  abbrev upsert_one : Values F → List (ℕ × MixRecord R) → List (ℕ × MixRecord R)
  upsert_one v = upsert (key driver now v) (fresh driver now v) (update driver now v)

  statement-ok :
      (v : Values F) (d d' : Db R)
      → statement driver now v d ≡ ok d'
      → d' ≡ record d { generation_mix = upsert_one v d.generation_mix }
  unfolding statement
  statement-ok v d d' h = fitted (fits driver now v) _ d' h

  fresh-Agrees : (v : Values F) → Agrees (key driver now v) (fresh driver now v)
  unfolding fresh
  fresh-Agrees v = refl

  update-fresh :
      (v : Values F) (r : MixRecord R)
      → Agrees (key driver now v) r
      → update driver now v r ≡ fresh driver now v
  unfolding fresh update
  update-fresh v r h = ap (λ start. record (update driver now v r) { period_start_utc = start }) h

  statement-SameButMix :
      (v : Values F) (d d' : Db R) → statement driver now v d ≡ ok d' → SameButMix d d'
  statement-SameButMix v d d' h =
      subst (SameButMix d) (sym (statement-ok v d d' h))
        (record { dno_region = refl; carbon_intensity = refl; agile_price = refl })

  statement-MixIsSound :
      (v : Values F) (d d' : Db R) → statement driver now v d ≡ ok d' → MixIsSound d → MixIsSound d'
  unfolding fresh update
  statement-MixIsSound v d d' h s = subst MixIsSound (sym (statement-ok v d d' h)) (record {
    keyed = upsert-IsKeyed _ _ _ d.generation_mix s.keyed;
    rows = All-upsert Agrees _ _ _ d.generation_mix refl (λ r q. q) s.rows;
  })

  run-SameButMix :
      (vs : List (Values F)) (d d' : Db R)
      → run (statement driver now) vs d ≡ ok d'
      → SameButMix d d'
  run-SameButMix =
      run-keeps SameButMix (statement driver now)
        (λ d. record { dno_region = refl; carbon_intensity = refl; agile_price = refl })
        (λ a b c p q. record {
          dno_region = q.dno_region ∙ p.dno_region;
          carbon_intensity = q.carbon_intensity ∙ p.carbon_intensity;
          agile_price = q.agile_price ∙ p.agile_price;
        })
        statement-SameButMix

  run-MixIsSound :
      (vs : List (Values F)) (d d' : Db R)
      → run (statement driver now) vs d ≡ ok d'
      → MixIsSound d
      → MixIsSound d'
  run-MixIsSound =
      run-keeps (λ a b. MixIsSound a → MixIsSound b) (statement driver now) (λ d s. s)
        (λ a b c p q s. q (p s)) statement-MixIsSound

  -- What a row is to be stored as, column by column.
  abbrev pub stored_as : Values F → MixRecord R
  stored_as v = record {
    period_start_utc = driver.timestamptz v.0;
    gas_mw = driver.to_real v.1;
    coal_mw = driver.to_real v.2;
    nuclear_mw = driver.to_real v.3;
    wind_mw = driver.to_real v.4;
    wind_embedded_mw = driver.to_real v.5;
    hydro_mw = driver.to_real v.6;
    imports_mw = driver.to_real v.7;
    biomass_mw = driver.to_real v.8;
    other_mw = driver.to_real v.9;
    solar_mw = driver.to_real v.10;
    storage_mw = driver.to_real v.11;
    total_generation_mw = driver.to_real v.12;
    neso_carbon_intensity_gco2_per_kwh = driver.to_real v.13;
    ingested_at_utc = now;
  }

  module _ (environ : String → Option String) (new_pool : String → Result P) where
    -- From a table that meets its key, an upsert of the generation mix that returns has written
    -- every row and nothing else: it returns the number of rows, the other tables are the same, at
    -- each half-hour stands the last row for it, a half-hour that no row has is unchanged, and the
    -- table still meets its key.
    pub upsert_mix_settles :
        (rows : List (NesoGenerationMixRow F)) (s s' : Process P (Db R)) (n : ℕ)
        → MixIsSound s.db
        → upsert_generation_mix_rows driver now environ new_pool rows s ≡ (ok n, s')
        → (n ≡ length rows)
          × SameButMix s.db s'.db
          × MixIsSound s'.db
          × ((k : ℕ)
              → find k s'.db.generation_mix
                ≡ replaced stored_as
                    (last_for (key driver now) k (map columns_of rows))
                    (find k s.db.generation_mix))
    unfolding upsert_generation_mix_rows payload fresh
    upsert_mix_settles rows s s' n sound h =
        let vs = map payload rows in
        let (e, ran) = write_rows-run driver (statement driver now) environ new_pool vs s s' n h in
        (
          e ∙ length-map rows payload,
          run-SameButMix vs s.db s'.db ran,
          run-MixIsSound vs s.db s'.db ran sound,
          find-run (key driver now) (fresh driver now) (update driver now) Agrees fresh-Agrees
              update-fresh (λ (x : Db R). x.generation_mix) (statement driver now)
              (λ v a b q. ap (λ (x : Db R). x.generation_mix) (statement-ok v a b q)) vs s.db s'.db
              sound.rows ran,
        )
