-- ===== src/Examples/Storage.antt =====
-- The upserts and the migrations at concrete inputs.
use gridpulse.Prelude.{
  ℕ, ℤ, is_smallint, inl, Option, ◌+◌, ◌≡◌, refl, true, none, some, String, List, [], ◌∷◌, ◌++◌,
  Result, ok, pos, map, length, All, arith,
}
use gridpulse.Datetime.{day_us}
use gridpulse.Contracts.CarbonIntensity.{CarbonIntensityRow, low}
use gridpulse.Storage.Keyed.{find}
use gridpulse.Storage.Pool.{Process, get_pool}
use gridpulse.Storage.Postgres.{Db, Key, key_eq}
use gridpulse.Storage.Postgres.Write.{write_rows}
use gridpulse.Storage.Postgres.Atomic.{AllOrNothing, write_rows-AllOrNothing}
use gridpulse.Storage.Postgres.Carbon.{
  is_smallint?, payload, has_region, statement, upsert_carbon_intensity_rows,
}
use gridpulse.Storage.Postgres.Carbon.Settled.{last_at, last_actual, settled}
use gridpulse.Storage.Postgres.Carbon.Table.{SameElsewhere, IsSound}
use gridpulse.Storage.Postgres.Carbon.Upsert.{
  IsAcceptable, IsRealised, columns, columns_of, upsert_carbon_accepts, upsert_carbon_settles,
  upsert_carbon-IsSound, upsert_carbon_keeps_actual, upsert_carbon_idempotent,
}
use gridpulse.Storage.Migrate.{Migration, MigrationDb, sorted, bootstrap, apply_migrations}
use gridpulse.Storage.Migrate.Progress.{pending, Progress}
use gridpulse.Storage.Migrate.Outcome.{
  IsReachable, apply_migrations_complete, apply_migrations-Progress,
}
use gridpulse.Examples.Memory.{memory, environ, new_pool, half_hour, empty_process}

-- The realised value comes first, then a later forecast without it.
abbrev pub rows : List CarbonIntensityRow
rows = half_hour 100 120 (some (pos 118)) ∷ half_hour 100 125 none ∷ []

abbrev pub upserted : ℕ → Process (Unit {0}) (Db ℕ) → Process (Unit {0}) (Db ℕ)
upserted now s = (upsert_carbon_intensity_rows memory now environ new_pool rows s).1

pub empty-IsSound : IsSound empty_process.db
empty-IsSound = record { keyed = tt; rows = tt }

pub returns_two :
    upsert_carbon_intensity_rows memory 7 environ new_pool rows empty_process
    ≡ (ok 2, upserted 7 empty_process)
unfolding upsert_carbon_intensity_rows memory write_rows get_pool
returns_two = refl

upsert_carbon_settles_example :
    (2 ≡ length rows)
    × SameElsewhere empty_process.db (upserted 7 empty_process).db
    × ((k : Key)
        → find k (upserted 7 empty_process).db.carbon_intensity
          ≡ settled memory 7 k
              (last_at memory k (map columns_of rows))
              (last_actual memory k (map columns_of rows))
              (find k empty_process.db.carbon_intensity))
upsert_carbon_settles_example =
    upsert_carbon_settles memory environ new_pool 7 rows empty_process (upserted 7 empty_process) 2
      empty-IsSound returns_two

half_hour-IsAcceptable :
    (forecast : ℕ) (actual : Option ℤ)
    → is_smallint? actual ≡ true
    → is_smallint (pos forecast) ≡ true
    → IsAcceptable memory environ new_pool empty_process.db.dno_region
        (half_hour 100 forecast actual)
unfolding memory
half_hour-IsAcceptable forecast actual h small = record {
  known = inl refl;
  small_id = omega arith;
  small_forecast = small;
  small_actual = h;
  ordered = omega arith;
}

acceptable : All (IsAcceptable memory environ new_pool empty_process.db.dno_region) rows
unfolding memory
acceptable = (
  half_hour-IsAcceptable 120 (some (pos 118)) refl refl,
  (half_hour-IsAcceptable 125 none refl refl, tt),
)

always_available : memory.available tt empty_process.db ≡ true
unfolding memory
always_available = refl

upsert_carbon_accepts_example :
    (d : Db ℕ) × (upsert_carbon_intensity_rows memory 7 environ new_pool rows empty_process
      ≡ (ok (length rows), record empty_process { db = d }))
    × SameElsewhere empty_process.db d
    × ((k : Key)
        → find k d.carbon_intensity
          ≡ settled memory 7 k
              (last_at memory k (map columns_of rows))
              (last_actual memory k (map columns_of rows))
              (find k empty_process.db.carbon_intensity))
upsert_carbon_accepts_example =
    upsert_carbon_accepts memory environ new_pool 7 rows empty_process tt empty-IsSound refl
      always_available acceptable

upsert_carbon-IsSound_example : IsSound (upserted 7 empty_process).db
upsert_carbon-IsSound_example =
    upsert_carbon-IsSound memory environ new_pool 7 rows empty_process empty-IsSound

-- A table that has the half-hour with its realised value.
abbrev later_row : List CarbonIntensityRow
later_row = half_hour 100 130 none ∷ []

abbrev stored : Process (Unit {0}) (Db ℕ)
stored = record empty_process {
  db = record empty_process.db {
    carbon_intensity =
        (
          (0, 100 + day_us),
          record {
            region_id = 0;
            period_start_utc = 100 + day_us;
            period_end_utc = 1900 + day_us;
            forecast_gco2_per_kwh = pos 120;
            actual_gco2_per_kwh = some (pos 118);
            intensity_index = low;
            ingested_at_utc = 6;
          },
        )
        ∷ [];
  };
}

stored-IsSound : IsSound stored.db
unfolding has_region
stored-IsSound = record { keyed = (λ m. m, tt); rows = ((refl, refl, omega arith, refl), tt) }

stored-IsRealised : IsRealised (find (0, 100 + day_us) stored.db.carbon_intensity)
unfolding find
stored-IsRealised = (_, refl, λ h. cc)

upsert_carbon_keeps_actual_example : IsRealised (
    find
      (0, 100 + day_us)
      (upsert_carbon_intensity_rows memory 9 environ new_pool later_row
        stored).1.db.carbon_intensity)
upsert_carbon_keeps_actual_example =
    upsert_carbon_keeps_actual memory environ new_pool 9 later_row stored (0, 100 + day_us)
      stored-IsSound stored-IsRealised

returns_again :
    upsert_carbon_intensity_rows memory 8 environ new_pool rows (upserted 7 empty_process)
    ≡ (ok 2, upserted 8 (upserted 7 empty_process))
unfolding upsert_carbon_intensity_rows memory write_rows get_pool
returns_again = refl

upsert_carbon_idempotent_example :
    columns (find (0, 100 + day_us) (upserted 8 (upserted 7 empty_process)).db.carbon_intensity)
    ≡ columns (find (0, 100 + day_us) (upserted 7 empty_process).db.carbon_intensity)
upsert_carbon_idempotent_example =
    upsert_carbon_idempotent memory environ new_pool 7 8 rows empty_process
      (upserted 7 empty_process) (upserted 8 (upserted 7 empty_process)) 2 2 empty-IsSound
      returns_two returns_again (0, 100 + day_us)

write_rows-AllOrNothing_example :
    AllOrNothing memory
      (statement memory 7)
      (map payload rows)
      empty_process.db
      (length (map payload rows))
      (write_rows memory (statement memory 7) environ new_pool (map payload rows) empty_process)
write_rows-AllOrNothing_example =
    write_rows-AllOrNothing memory (statement memory 7) environ new_pool (map payload rows)
      empty_process

-- Two migrations, one of them recorded; a schema is the list of the texts that were run.
abbrev run_sql : String → List String → Result (List String)
run_sql sql schema = ok (schema ++ sql ∷ [])

abbrev first : Migration
first = record { stem = "001_schemas"; read_text = ok "CREATE SCHEMA raw" }

abbrev second : Migration
second = record { stem = "002_dno_region"; read_text = ok "CREATE TABLE ref.dno_region" }

abbrev migrated_once : MigrationDb (List String)
migrated_once = record { schema = "CREATE SCHEMA raw" ∷ []; versions = some ("001_schemas" ∷ []) }

abbrev connect : String → Result (Unit {0})
connect url = ok tt

reachable : IsReachable run_sql environ connect none
reachable = record { address = "set"; named = refl; connects = refl }

abbrev after_run : Result ℕ × MigrationDb (List String)
after_run = apply_migrations run_sql environ connect none (second ∷ first ∷ []) migrated_once

applied_one : after_run ≡ (ok 1, after_run.1)
unfolding apply_migrations
applied_one = refl

apply_migrations_complete_example :
    let todo = pending ("001_schemas" ∷ []) (sorted (second ∷ first ∷ [])) in
    (1 ≡ length todo)
    × (after_run.1.versions ≡ some (("001_schemas" ∷ []) ++ map (λ x. x.stem) todo))
    × (apply_migrations run_sql environ connect none (second ∷ first ∷ []) after_run.1
        ≡ (ok 0, after_run.1))
apply_migrations_complete_example =
    apply_migrations_complete run_sql environ connect none second (first ∷ []) migrated_once
      after_run.1 1 reachable applied_one

apply_migrations-Progress_example :
    Progress run_sql
      (pending ("001_schemas" ∷ []) (sorted (second ∷ first ∷ [])))
      0
      (bootstrap migrated_once)
      after_run.0
      after_run.1
apply_migrations-Progress_example =
    apply_migrations-Progress run_sql environ connect none second (first ∷ []) migrated_once
      reachable
