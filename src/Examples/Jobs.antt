-- ===== src/Examples/Jobs.antt =====
-- The assets at concrete inputs, with pings that never arrive.
use gridpulse.Prelude.{
  ℕ, suc, ◌-◌, ◌*◌, ◌/◌, ◌+◌, ◌≡◌, refl, String, ℤ, pos, some, none, List, [], ◌∷◌, ◌++◌, length,
  ok, Exec, Bool, ltb,
}
use gridpulse.Datetime.{DateTime, day_us}
use gridpulse.Contracts.CarbonIntensity.{NationalResponse, CarbonIntensityRow, low}
use gridpulse.Heartbeat.Transparent.{sends, closing}
use gridpulse.Ingestion.Http.{Httpx}
use gridpulse.Ingestion.Fetch.{fetch_national}
use gridpulse.Dagster.Metadata.{carbon_rows, text, int, materialize_result}
use gridpulse.Dagster.Metadata.Summary.{Figures, materialize_result_summarises}
use gridpulse.Dagster.Ingest.{World, carbon_intensity_national}
use gridpulse.Dagster.Ingest.Settles.{EndsIn, carbon_intensity_national_ends}
use gridpulse.Dagster.Backup.{Date, Machine, backup_postgres}
use gridpulse.Dagster.Backup.Uploads
use gridpulse.Dagster.Dbt.{Completed, dbt_build}
use gridpulse.Dagster.Dbt.Order
use gridpulse.Lake.Iceberg.{Iceberg}
use gridpulse.Lake.Backfill.{Session, backfill}
use gridpulse.Lake.Backfill.Windows.{Filled, window, backfill_fills}
use gridpulse.Examples.Table.{in_memory}
use gridpulse.Examples.Memory.{memory, environ, new_pool, at, half_hour, empty_process}
use gridpulse.Examples.Client.{retrying_at_once, server, recovering}
use gridpulse.Examples.Ingestion.{get_nothing, only_exceptions}

abbrev pub iso : DateTime → String
iso d = "2026-01-01T00:00:00+00:00"

materialize_result_summarises_example :
    (newest : DateTime) × (lowest : ℤ) × (highest : ℤ) × (ids : List ℕ) × (materialize_result iso
        ltb 2
        (carbon_rows (half_hour 100 120 none ∷ half_hour 1900 90 none ∷ []))
        "carbonintensity.org.uk /intensity"
      ≡ ok (
          ("source", text "carbonintensity.org.uk /intensity")
          ∷ ("rows_written", int (pos 2))
          ∷ ("latest_period_utc", text (iso newest))
          ∷ ("forecast_min_gco2_per_kwh", int lowest)
          ∷ ("forecast_max_gco2_per_kwh", int highest)
          ∷ ("regions", int (pos (length ids)))
          ∷ []))
    × Figures (half_hour 100 120 none ∷ half_hour 1900 90 none ∷ []) newest lowest highest ids
materialize_result_summarises_example =
    materialize_result_summarises iso ltb 2 (half_hour 100 120 none) (half_hour 1900 90 none ∷ [])
      "carbonintensity.org.uk /intensity" (refl, (refl, tt))

-- One period, from a server that answers at the third attempt.
abbrev published : NationalResponse
published = record {
  periods =
      record {
        from_ = at 0;
        to = at 1800;
        intensity = record { forecast = pos 120; actual = some (pos 118); index = low };
      }
      ∷ [];
}

abbrev service : Httpx NationalResponse ℕ
service = server recovering published

abbrev pub before : World ℕ (Unit {0}) ℕ
before = record { net = record { world = 0; sent = [] }; process = empty_process; regions = none }

carbon_intensity_national_ends_example :
    let (r, s') =
      carbon_intensity_national service retrying_at_once memory 7 environ
        (λ k. k)
        get_nothing
        new_pool
        iso
        ltb
        ok
        (record { world = before; pings = [] }) in
    EndsIn memory 7 environ new_pool iso ltb
      (fetch_national service retrying_at_once ok)
      "carbonintensity.org.uk /intensity"
      before
      (r, s'.world)
    × (s'.pings
        ≡ []
          ++ (sends environ (λ k. k) "carbon_intensity_national" "/start"
              ++ closing environ (λ k. k) "carbon_intensity_national" r))
carbon_intensity_national_ends_example =
    carbon_intensity_national_ends service retrying_at_once memory 7 environ (λ k. k) get_nothing
      only_exceptions new_pool iso ltb ok (record { world = before; pings = [] })

-- Sixty days, with a service that answers every window with the one period at once.
abbrev carbon_table : Iceberg CarbonIntensityRow
carbon_table = in_memory

abbrev session : Session (List CarbonIntensityRow) ℕ
session = record { table = []; net = record { world = 0; sent = [] } }

backfill_fills_example :
    Filled carbon_table
      (window service retrying_at_once ok (λ t. "2026-01-01T00:00Z") carbon_table)
      (61 * day_us)
      (suc ((61 * day_us - day_us) / (14 * day_us)))
      day_us
      0
      session
      (backfill service retrying_at_once ok
        (λ t. "2026-01-01T00:00Z")
        carbon_table
        day_us
        (61 * day_us)
        session)
backfill_fills_example =
    backfill_fills service retrying_at_once ok (λ t. "2026-01-01T00:00Z") carbon_table day_us
      (61 * day_us) session

-- A machine on which every call returns; a process is the length of what it writes.
abbrev machine : Machine ℕ ℕ (Unit {0})
machine = record {
  gzip_open = λ path w. (ok tt, w);
  popen = λ cmd w. (ok 3, w);
  chunks = λ proc. (proc ∷ []) ∷ (1 ∷ 2 ∷ []) ∷ [];
  gz_write = λ path chunk w. (ok tt, w + length chunk);
  wait = λ proc w. (ok (pos 0), w);
  exits = λ path w. (ok tt, w);
  getsize = λ path w. (ok 1_500_000, w);
  client = λ settings w. (ok tt, w);
  upload = λ r2 path bucket key w. (ok tt, w);
  unlink = λ path w. (ok tt, w);
}

abbrev today : Date
today = record { year = 2026; month = 3; day = 9 }

backup_postgres_uploads_example :
    let (r, s') =
      backup_postgres machine environ ◌+◌ 0 today
        (λ k. k)
        get_nothing
        (record { world = record { world = 0; uploads = [] }; pings = [] }) in
    Uploads.Ends machine today environ [] r s'.world.uploads
backup_postgres_uploads_example =
    Uploads.backup_postgres_uploads machine today environ ◌+◌ 0 (λ k. k) get_nothing
      (record { world = record { world = 0; uploads = [] }; pings = [] }) only_exceptions

-- Every command exits with 0.
abbrev run : List String → Exec ℕ Completed
run cmd w = (ok (record { returncode = pos 0; stdout = "1 of 1 PASS" }), w + 1)

abbrev lines : String → List String
lines out = out ∷ []

abbrev nowhere : String → String → Bool
nowhere part whole = ltb 1 0

dbt_build_order_example :
    let (r, s') =
      dbt_build environ
        (λ t. t)
        run
        lines
        nowhere
        {F = ℕ}
        (λ k. k)
        get_nothing
        (record { world = record { world = 0; commands = [] }; pings = [] }) in
    (more : List (List String)) × (s'.world.commands ≡ [] ++ more)
    × Order.Ends environ (λ t. t) run lines nowhere 0 r s'.world.world more
dbt_build_order_example =
    Order.dbt_build_order environ (λ t. t) run lines nowhere (λ k. k) get_nothing
      (record { world = record { world = 0; commands = [] }; pings = [] }) only_exceptions
