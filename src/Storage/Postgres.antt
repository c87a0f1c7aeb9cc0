-- ===== src/Storage/Postgres.antt =====
-- The database of gridpulse/storage: the tables that the migrations create, and psycopg as a
-- parameter, with what its documentation says of transactions and of `executemany`.
pub mod Write
pub mod Atomic
pub mod Carbon
pub mod Mix
pub mod Price
use gridpulse.Prelude.{
  ℕ, String, ℤ, ◌≡◌, Bool, true, false, Option, List, [], ◌∷◌, Result, ok, raise, Exc, Eq, ◌==◌,
  ◌&&◌, arith, ◌↔◌,
}
use gridpulse.Datetime.{DateTime, instant, is_aware}
use gridpulse.Contracts.CarbonIntensity.{CiIndex}

-- ref.dno_region
pub record DnoRegion : Type 0 where
  pub region_id : ℕ
  pub canonical_code : String
  pub slug : String
  pub name : String
  pub octopus_code : Option String

-- A row of raw.carbon_intensity. TIMESTAMPTZ columns hold instants.
pub record CarbonRecord : Type 0 where
  pub region_id : ℕ
  pub period_start_utc : ℕ
  pub period_end_utc : ℕ
  pub forecast_gco2_per_kwh : ℤ
  pub actual_gco2_per_kwh : Option ℤ
  pub intensity_index : CiIndex
  pub ingested_at_utc : ℕ

-- A row of raw.generation_mix; `R` is the type of REAL values.
pub record MixRecord (R : Type 0) : Type 0 where
  pub period_start_utc : ℕ
  pub gas_mw : R
  pub coal_mw : R
  pub nuclear_mw : R
  pub wind_mw : R
  pub wind_embedded_mw : R
  pub hydro_mw : R
  pub imports_mw : R
  pub biomass_mw : R
  pub other_mw : R
  pub solar_mw : R
  pub storage_mw : R
  pub total_generation_mw : R
  pub neso_carbon_intensity_gco2_per_kwh : R
  pub ingested_at_utc : ℕ

-- A row of raw.agile_price.
pub record PriceRecord (R : Type 0) : Type 0 where
  pub region_id : ℕ
  pub period_start_utc : ℕ
  pub period_end_utc : ℕ
  pub price_pence_per_kwh_inc_vat : R
  pub price_pence_per_kwh_exc_vat : R
  pub ingested_at_utc : ℕ

-- The key (region_id, period_start_utc).
abbrev pub Key : Type 0
Key = ℕ × ℕ

pub key_beq_iff : (a b : Key) → ((a.0 == b.0 && a.1 == b.1) ≡ true) ↔ (a ≡ b)
key_beq_iff a b = ground arith

instance abbrev pub key_eq : Eq Key
key_eq = record { beq = λ a b. a.0 == b.0 && a.1 == b.1; beq_iff = key_beq_iff }

pub record Db (R : Type 0) : Type 0 where
  pub dno_region : List DnoRegion
  pub carbon_intensity : List (Key × CarbonRecord)
  pub generation_mix : List (ℕ × MixRecord R)
  pub agile_price : List (Key × PriceRecord R)

-- psycopg and its pool. `P` is the type of pools, `F` of floats, `R` of REAL values. `connection p
-- body` is `with p.connection() as conn: body`: it commits when the block ends, and rolls back and
-- raises again when the block raises. Where no connection is to be had, or the commit is refused,
-- it raises and the database is as it was. `executemany` runs a statement with each tuple in turn.
pub record Driver (P F R : Type 0) : Type 1 where
  pub available : P → Db R → Bool
  pub connection : {A : Type 0} → P → (Db R → Result (A × Db R)) → Db R → Result A × Db R
  pub executemany : {V : Type 0} → (V → Db R → Result (Db R)) → List V → Db R → Result (Db R)
  -- how a `datetime` is sent; a naive one is read in the session's time zone
  pub timestamptz : DateTime → ℕ
  -- how a float is rounded for a REAL column, which refuses what is out of its range
  pub to_real : F → R
  pub real_range : F → Bool
  pub commits :
      {A : Type 0} (p : P) (body : Db R → Result (A × Db R)) (d d' : Db R) (a : A)
      → available p d ≡ true
      → body d ≡ ok (a, d')
      → connection p body d ≡ (ok a, d')
  pub rolls_back :
      {A : Type 0} (p : P) (body : Db R → Result (A × Db R)) (d : Db R) (e : Exc)
      → available p d ≡ true
      → body d ≡ raise e
      → connection p body d ≡ (raise e, d)
  pub refuses :
      {A : Type 0} (p : P) (body : Db R → Result (A × Db R)) (d : Db R)
      → available p d ≡ false
      → (e : Exc) × (connection p body d ≡ (raise e, d))
  pub executemany_none :
      {V : Type 0} (f : V → Db R → Result (Db R)) (d : Db R) → executemany f [] d ≡ ok d
  pub executemany_step :
      {V : Type 0} (f : V → Db R → Result (Db R)) (v : V) (vs : List V) (d d' : Db R)
      → f v d ≡ ok d'
      → executemany f (v ∷ vs) d ≡ executemany f vs d'
  pub executemany_stop :
      {V : Type 0} (f : V → Db R → Result (Db R)) (v : V) (vs : List V) (d : Db R) (e : Exc)
      → f v d ≡ raise e
      → executemany f (v ∷ vs) d ≡ raise e
  pub timestamptz_aware : (d : DateTime) → is_aware d ≡ true → timestamptz d ≡ instant d
