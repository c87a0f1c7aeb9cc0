-- ===== src/Storage/Postgres/Carbon/Upsert.antt =====
-- What `upsert_carbon_intensity_rows` promises.
use gridpulse.Prelude.{
  ℕ, String, ℤ, ◌≤◌, ◌<◌, inl, inr, ◌==◌, ==_iff, nat_eq, In, Bool-cases, le→leb, is_smallint, [],
  ◌∷◌, ◌≡◌, ◌≢◌, refl, ap, sym, ◌∙◌, true, Option, none, some, List, map, Result, ok, raise, Exec,
  length, length-map, All,
}
use gridpulse.Contracts.CarbonIntensity.{CarbonIntensityRow}
use gridpulse.Storage.Keyed.{find}
use gridpulse.Storage.Keyed.Batch.{run}
use mathlib.Core.Path.{subst}
use gridpulse.Storage.Pool.{Process}
use gridpulse.Storage.Postgres.{Key, key_eq, Db, Driver, DnoRegion, CarbonRecord}
use gridpulse.Storage.Postgres.Atomic.{
  AllOrNothing, write_rows-AllOrNothing, write_rows-run, write_rows_succeeds,
}
use gridpulse.Storage.Postgres.Carbon.{
  Values, has_region, is_smallint?, payload, coalesce, statement, upsert_carbon_intensity_rows,
}
use gridpulse.Storage.Postgres.Carbon.Settled.{last_at, last_actual, settled}
use gridpulse.Storage.Postgres.Carbon.Table.{
  SameElsewhere, IsSound, IsAccepted, run-accepts, settles, run-SameElsewhere, run-IsSound,
}

-- The columns that the sources fill: all but `ingested_at_utc`.
abbrev pub columns : Option CarbonRecord → Option CarbonRecord
columns none = none
columns (some r) = some (record r { ingested_at_utc = 0 })

-- What an upsert is to send of a row, column by column.
abbrev pub columns_of : CarbonIntensityRow → Values
columns_of r = (
  r.region_id, r.period_start_utc, r.period_end_utc, r.forecast_gco2_per_kwh, r.actual_gco2_per_kwh,
  r.intensity_index,
)

-- A realised value that is there after the upsert.
abbrev pub IsRealised : Option CarbonRecord → Type 0
IsRealised o = (r : CarbonRecord) × (o ≡ some r) × (r.actual_gco2_per_kwh ≢ none)

coalesce_realised : (actual old : Option ℤ) → old ≢ none → coalesce actual old ≢ none
coalesce_realised none old q = q
coalesce_realised (some a) old q = λ h. cc

module _ {P F R : Type 0} (driver : Driver P F R) (environ : String → Option String)
    (new_pool : String → Result P) where
  open driver use {available, timestamptz}

  -- What the table asks of a row of the sources.
  pub record IsAcceptable (regions : List DnoRegion) (r : CarbonIntensityRow) : Type 0 where
    pub known : In r.region_id (map (λ d. d.region_id) regions)
    pub small_id : r.region_id ≤ 32767
    pub small_forecast : is_smallint r.forecast_gco2_per_kwh ≡ true
    pub small_actual : is_smallint? r.actual_gco2_per_kwh ≡ true
    pub ordered : timestamptz r.period_start_utc < timestamptz r.period_end_utc

  In-has_region :
      (i : ℕ) (regions : List DnoRegion)
      → In i (map (λ d. d.region_id) regions)
      → has_region i regions ≡ true
  unfolding has_region
  In-has_region i [] m = absurd m
  In-has_region i (r ∷ regions) (inl e) = rw ((==_iff r.region_id i).1 e) refl
  In-has_region i (r ∷ regions) (inr m) = elim (Bool-cases (r.region_id == i)) [
    | inl e ↦ rw e refl
    | inr e ↦ rw e (In-has_region i regions m)
  ]

  abbrev upsert_rows : ℕ → List CarbonIntensityRow → Exec (Process P (Db R)) ℕ
  upsert_rows now = upsert_carbon_intensity_rows driver now environ new_pool

  outcome :
      (now : ℕ) (rows : List CarbonIntensityRow) (s : Process P (Db R))
      → AllOrNothing driver
          (statement driver now)
          (map payload rows)
          s.db
          (length (map payload rows))
          (upsert_rows now rows s)
  unfolding upsert_carbon_intensity_rows
  outcome now rows s =
      write_rows-AllOrNothing driver (statement driver now) environ new_pool (map payload rows) s

  returned :
      (now : ℕ) (rows : List CarbonIntensityRow) (s s' : Process P (Db R)) (n : ℕ)
      → upsert_rows now rows s ≡ (ok n, s')
      → (n ≡ length (map payload rows))
        × (run (statement driver now) (map payload rows) s.db ≡ ok s'.db)
  unfolding upsert_carbon_intensity_rows
  returned now rows s s' n h =
      write_rows-run driver (statement driver now) environ new_pool (map payload rows) s s' n h

  -- From a table that meets its key and constraints, an upsert that returns has written every row,
  -- and nothing else: it returns the number of rows, the other tables are the same, and at each
  -- key stands what the last row for it says, with the last realised value of the batch or else
  -- the stored one; a key that no row has is unchanged.
  pub upsert_carbon_settles :
      (now : ℕ) (rows : List CarbonIntensityRow) (s s' : Process P (Db R)) (n : ℕ)
      → IsSound s.db
      → upsert_rows now rows s ≡ (ok n, s')
      → (n ≡ length rows)
        × SameElsewhere s.db s'.db
        × ((k : Key)
            → find k s'.db.carbon_intensity
              ≡ settled driver now k
                  (last_at driver k (map columns_of rows))
                  (last_actual driver k (map columns_of rows))
                  (find k s.db.carbon_intensity))
  unfolding payload
  upsert_carbon_settles now rows s s' n sound h =
      let (e, ran) = returned now rows s s' n h in
      (
        e ∙ length-map rows payload,
        run-SameElsewhere driver now (map payload rows) s.db s'.db ran,
        settles driver now (map payload rows) s.db s'.db sound ran,
      )

  Accepted-payload :
      (now : ℕ) (regions : List DnoRegion) (rows : List CarbonIntensityRow)
      → All (IsAcceptable regions) rows
      → All (IsAccepted driver now regions) (map payload rows)
  unfolding payload
  Accepted-payload now regions [] h = tt
  Accepted-payload now regions (r ∷ rows) h = (
    (
      rw (le→leb r.region_id 32767 h.0.small_id, h.0.small_forecast, h.0.small_actual) refl,
      h.0.ordered,
      In-has_region r.region_id regions h.0.known,
    ),
    Accepted-payload now regions rows h.1,
  )

  -- From a table that meets its key and constraints, where the pool is open and has a connection,
  -- and every row is of a region of the table of regions, ends after it starts and has numbers that
  -- fit SMALLINT, the upsert returns the number of rows; and it has written them: at each key stands
  -- what the last row for it says, with the last realised value of the batch or else the stored one,
  -- a key that no row has is unchanged, and so are the other tables.
  pub upsert_carbon_accepts :
      (now : ℕ) (rows : List CarbonIntensityRow) (s : Process P (Db R)) (p : P)
      → IsSound s.db
      → s.pool ≡ some p
      → available p s.db ≡ true
      → All (IsAcceptable s.db.dno_region) rows
      → (d : Db R) × (upsert_rows now rows s ≡ (ok (length rows), record s { db = d }))
        × SameElsewhere s.db d
        × ((k : Key)
            → find k d.carbon_intensity
              ≡ settled driver now k
                  (last_at driver k (map columns_of rows))
                  (last_actual driver k (map columns_of rows))
                  (find k s.db.carbon_intensity))
  unfolding upsert_carbon_intensity_rows payload
  upsert_carbon_accepts now rows s p sound pooled open_ h =
      let vs = map payload rows in
      let (d, e) = run-accepts driver now vs s.db (Accepted-payload now s.db.dno_region rows h) in
      (
        d,
        write_rows_succeeds driver (statement driver now) environ new_pool vs s p d pooled open_ e
            ∙ ap (λ n. (ok n, record s { db = d })) (length-map rows payload),
        run-SameElsewhere driver now vs s.db d e,
        settles driver now vs s.db d sound e,
      )

  IsSound-after :
      (now : ℕ) (rows : List CarbonIntensityRow) (d : Db R) (n : ℕ)
      (r : Result ℕ × Process P (Db R))
      → IsSound d
      → AllOrNothing driver (statement driver now) (map payload rows) d n r
      → IsSound r.1.db
  IsSound-after now rows d n (ok m, s) sound h =
      run-IsSound driver now (map payload rows) d s.db h.1 sound
  IsSound-after now rows d n (raise e, s) sound h = subst IsSound (sym h) sound

  -- A table that meets its key and constraints (the primary key, the columns of the key, the order
  -- of the two times and the foreign key) still meets them after an upsert, whether it returns or
  -- raises.
  pub upsert_carbon-IsSound :
      (now : ℕ) (rows : List CarbonIntensityRow) (s : Process P (Db R))
      → IsSound s.db
      → IsSound (upsert_rows now rows s).1.db
  upsert_carbon-IsSound now rows s sound =
      IsSound-after now rows s.db _ (upsert_rows now rows s) sound (outcome now rows s)

  settled-IsRealised :
      (now : ℕ) (k : Key) (last : Option Values) (actual : Option ℤ) (old : Option CarbonRecord)
      → IsRealised old
      → IsRealised (settled driver now k last actual old)
  settled-IsRealised now k none actual old h = h
  settled-IsRealised now k (some v) actual old (r, e, q) =
      (_, refl, rw e (coalesce_realised actual r.actual_gco2_per_kwh q))

  IsRealised-after :
      (now : ℕ) (rows : List CarbonIntensityRow) (d : Db R) (n : ℕ)
      (r : Result ℕ × Process P (Db R)) (k : Key)
      → IsSound d
      → IsRealised (find k d.carbon_intensity)
      → AllOrNothing driver (statement driver now) (map payload rows) d n r
      → IsRealised (find k r.1.db.carbon_intensity)
  IsRealised-after now rows d n (ok m, s) k sound h q =
      rw (settles driver now (map payload rows) d s.db sound q.1 k)
        (settled-IsRealised now k _ _ _ h)
  IsRealised-after now rows d n (raise e, s) k sound h q =
      subst (λ (x : Db R). IsRealised (find k x.carbon_intensity)) (sym q) h

  -- In a table that meets its key and constraints, a half-hour whose realised value is stored
  -- keeps a realised value, whatever rows come later, also forecasts with no realised value, and
  -- whether or not the upsert raises.
  pub upsert_carbon_keeps_actual :
      (now : ℕ) (rows : List CarbonIntensityRow) (s : Process P (Db R)) (k : Key)
      → IsSound s.db
      → IsRealised (find k s.db.carbon_intensity)
      → IsRealised (find k (upsert_rows now rows s).1.db.carbon_intensity)
  upsert_carbon_keeps_actual now rows s k sound h =
      IsRealised-after now rows s.db _ (upsert_rows now rows s) k sound h (outcome now rows s)

  settled_twice :
      (now later : ℕ) (k : Key) (last : Option Values) (actual : Option ℤ)
      (old : Option CarbonRecord)
      → columns (settled driver later k last actual (settled driver now k last actual old))
        ≡ columns (settled driver now k last actual old)
  settled_twice now later k none actual old = refl
  settled_twice now later k (some v) none old = refl
  settled_twice now later k (some v) (some a) old = refl

  -- From a table that meets its key and constraints: where the same rows are sent twice, at
  -- whatever times, and both upserts return, the second changes no column but the time of
  -- ingestion.
  pub upsert_carbon_idempotent :
      (now later : ℕ) (rows : List CarbonIntensityRow) (s s' s'' : Process P (Db R)) (n m : ℕ)
      → IsSound s.db
      → upsert_rows now rows s ≡ (ok n, s')
      → upsert_rows later rows s' ≡ (ok m, s'')
      → (k : Key)
      → columns (find k s''.db.carbon_intensity) ≡ columns (find k s'.db.carbon_intensity)
  upsert_carbon_idempotent now later rows s s' s'' n m sound h h' k =
      let (_, ran) = returned now rows s s' n h in
      let (_, ran') = returned later rows s' s'' m h' in
      let sound' = run-IsSound driver now (map payload rows) s.db s'.db ran sound in
      let e = settles driver now (map payload rows) s.db s'.db sound ran k in
      ap columns (settles driver later (map payload rows) s'.db s''.db sound' ran' k)
      ∙ (rw e (
          settled_twice now later k (last_at driver k (map payload rows))
            (last_actual driver k (map payload rows)) (find k s.db.carbon_intensity)))
