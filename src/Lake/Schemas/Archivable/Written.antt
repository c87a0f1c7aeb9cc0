-- ===== src/Lake/Schemas/Archivable/Written.antt =====
-- The upserts write nothing that the archive cannot take.
use gridpulse.Prelude.{
  ℕ, nat_eq, String, ◌≡◌, sym, true, Option, List, map, Result, ok, All, &&-true, guards-ok, leb,
  arith, pos,
}
use mathlib.Core.Path.{subst}
use gridpulse.Contracts.CarbonIntensity.{CarbonIntensityRow}
use gridpulse.Contracts.Neso.{NesoGenerationMixRow}
use gridpulse.Contracts.Octopus.{AgilePriceRow}
use gridpulse.Storage.Keyed.{All-upsert}
use gridpulse.Storage.Pool.{Process}
use gridpulse.Storage.Postgres.{key_eq, Db, Driver}
use gridpulse.Storage.Postgres.Atomic.{write_rows-keeps}
use gridpulse.Storage.Postgres.Carbon
use gridpulse.Storage.Postgres.Mix
use gridpulse.Storage.Postgres.Price
use gridpulse.Storage.Postgres.Mix.Upsert.{fitted}
use gridpulse.Lake.Schemas.{
  is_int32, carbon_intensity_schema, generation_mix_schema, agile_price_schema,
}
use gridpulse.Lake.Schemas.Archivable.{
  Fits, carbon_dict, mix_dict, price_dict, carbon_dict-Fits, mix_dict-Fits, price_dict-Fits,
  is_smallint-int32, is_smallint?-int32, coalesce-IsInt32,
}

-- Every row of the raw tables can be archived.
pub record IsArchivable {R : Type 0} (d : Db R) : Type 0 where
  pub carbon : All (λ x. Fits carbon_intensity_schema (carbon_dict R x.1)) d.carbon_intensity
  pub mix : All (λ x. Fits generation_mix_schema (mix_dict x.1)) d.generation_mix
  pub price : All (λ x. Fits agile_price_schema (price_dict x.1)) d.agile_price

region_int32 : (i : ℕ) → leb i 32767 ≡ true → is_int32 (pos i) ≡ true
region_int32 i h = ground arith

module _ {P F R : Type 0} (driver : Driver P F R) (now : ℕ) where
  carbon-kept :
      (v : Carbon.Values) (d d' : Db R)
      → Carbon.statement driver now v d ≡ ok d'
      → IsArchivable d
      → IsArchivable d'
  unfolding Carbon.statement Carbon.fresh Carbon.update
  carbon-kept v d d' h a =
      let (sized, _, e) =
        guards-ok (Carbon.fits driver now v) (Carbon.allowed driver now v d) _ _ h in
      let (first, actual) = &&-true _ _ sized in
      let (region, forecast) = &&-true _ _ first in
      let narrow = is_smallint-int32 v.3 forecast in
      let realised = is_smallint?-int32 v.4 actual in
      subst IsArchivable e (record {
        mix = a.mix;
        price = a.price;
        carbon =
            All-upsert (λ k r. Fits carbon_intensity_schema (carbon_dict R r)) _ _ _
              d.carbon_intensity
              ((carbon_dict-Fits R _).0 (region_int32 v.0 region, narrow, realised))
              (λ r f.
                let (i, _, old) = (carbon_dict-Fits R r).1 f in
                (carbon_dict-Fits R _).0
                  (i, narrow, coalesce-IsInt32 v.4 r.actual_gco2_per_kwh realised old))
              a.carbon;
      })

  price-kept :
      (v : Price.Values F) (d d' : Db R)
      → Price.statement driver now v d ≡ ok d'
      → IsArchivable d
      → IsArchivable d'
  unfolding Price.statement Price.fresh Price.update
  price-kept v d d' h a =
      let (sized, _, e) =
        guards-ok (Price.fits driver now v) (Price.allowed driver now v d) _ _ h in
      let region = (&&-true _ _ (&&-true _ _ sized).0).0 in
      subst IsArchivable e (record {
        carbon = a.carbon;
        mix = a.mix;
        price =
            All-upsert (λ k r. Fits agile_price_schema (price_dict r)) _ _ _ d.agile_price
              ((price_dict-Fits _).0 (region_int32 v.0 region))
              (λ r f. (price_dict-Fits _).0 ((price_dict-Fits r).1 f)) a.price;
      })

  mix-kept :
      (v : Mix.Values F) (d d' : Db R)
      → Mix.statement driver now v d ≡ ok d'
      → IsArchivable d
      → IsArchivable d'
  unfolding Mix.statement
  mix-kept v d d' h a = subst IsArchivable (sym (fitted (Mix.fits driver now v) _ d' h)) (record {
    carbon = a.carbon;
    price = a.price;
    mix =
        All-upsert (λ k r. Fits generation_mix_schema (mix_dict r)) _ _ _ d.generation_mix
          (mix_dict-Fits _) (λ r f. mix_dict-Fits _) a.mix;
  })

  module _ (environ : String → Option String) (new_pool : String → Result P) where
    -- From a database in which every row of the raw tables can be archived, each of the three
    -- upserts, whether it returns or raises, leaves such a database: without `ingested_at_utc`,
    -- each row has the columns of the Iceberg schema of its table and no others, a value in each
    -- that is required, and values of their types, integers in 32 bits.
    pub upserts-IsArchivable :
        (ci : List CarbonIntensityRow) (gm : List (NesoGenerationMixRow F))
        (ap_ : List (AgilePriceRow F)) (s : Process P (Db R))
        → IsArchivable s.db
        → IsArchivable (Carbon.upsert_carbon_intensity_rows driver now environ new_pool ci s).1.db
          × IsArchivable (Mix.upsert_generation_mix_rows driver now environ new_pool gm s).1.db
          × IsArchivable (Price.upsert_agile_price_rows driver now environ new_pool ap_ s).1.db
    unfolding Carbon.upsert_carbon_intensity_rows Mix.upsert_generation_mix_rows
        Price.upsert_agile_price_rows
    upserts-IsArchivable ci gm ap_ s a = (
      write_rows-keeps driver (Carbon.statement driver now) environ new_pool IsArchivable
          (map Carbon.payload ci) s carbon-kept a,
      write_rows-keeps driver (Mix.statement driver now) environ new_pool IsArchivable
          (map Mix.payload gm) s mix-kept a,
      write_rows-keeps driver (Price.statement driver now) environ new_pool IsArchivable
          (map Price.payload ap_) s price-kept a,
    )
