-- ===== src/Examples/Lake.antt =====
-- The archive at concrete tables.
use gridpulse.Prelude.{
  ℕ, ◌+◌, ◌*◌, ◌≡◌, ◌↔◌, refl, List, [], ◌∷◌, Result, ok, raise, os_error, ◌==◌, if◌then◌else◌, In,
  arith,
}
use gridpulse.Datetime.{day_us}
use gridpulse.Lake.Iceberg.{Iceberg}
use gridpulse.Lake.Archive.{
  Row, archive_pg_to_iceberg, archive_each, archive_day, overwrite_day, fetch_partition,
  strip_ingest_metadata, today_utc,
}
use gridpulse.Lake.Archive.Heals.{Mirrors, IsFar, archive_pg_to_iceberg_heals}
use gridpulse.Lake.Archive.Halts.{Outcome, archive_pg_to_iceberg-Outcome}
use gridpulse.Examples.Table.{in_memory}

abbrev archive_table : Iceberg (Row ℕ)
archive_table = in_memory

abbrev row : ℕ → Row ℕ
row start = record {
  period_start_utc = start;
  others = ("forecast_gco2_per_kwh", 120) ∷ ("ingested_at_utc", 9) ∷ [];
}

abbrev willing_rows : List (Row ℕ)
willing_rows = row (9 * day_us) ∷ row (10 * day_us) ∷ []

-- Noon of day 11.
abbrev now : ℕ
now = 11 * day_us + 1800

abbrev before : List (Row ℕ)
before = row 0 ∷ []

-- The read of the second day fails.
abbrev reads_once : ℕ → Result (List (Row ℕ))
reads_once back = if back == 1 then ok willing_rows else raise os_error

archive_pg_to_iceberg-Outcome_example :
    Outcome archive_table
      (today_utc now)
      reads_once
      before
      (archive_pg_to_iceberg archive_table now reads_once before)
archive_pg_to_iceberg-Outcome_example =
    archive_pg_to_iceberg-Outcome archive_table now reads_once before (omega arith)

days_of : Result (List (ℕ × ℕ)) → List (ℕ × ℕ)
days_of (ok days) = days
days_of (raise e) = []

-- The first night fails on its second day; the next night's reads have a late row.
abbrev late_rows : List (Row ℕ)
late_rows = row (10 * day_us) ∷ row (11 * day_us) ∷ []

abbrev first_night : List (Row ℕ)
first_night = (archive_pg_to_iceberg archive_table now reads_once before).1

abbrev next_night : Result (List (ℕ × ℕ)) × List (Row ℕ)
next_night = archive_pg_to_iceberg archive_table (now + day_us) (λ back. ok late_rows) first_night

next_night_returns : next_night ≡ (ok (days_of next_night.0), next_night.1)
unfolding archive_pg_to_iceberg archive_each archive_day overwrite_day fetch_partition
    strip_ingest_metadata days_of
next_night_returns = refl

archive_pg_to_iceberg_heals_example :
    (one : List (Row ℕ)) × (two : List (Row ℕ)) × (ok late_rows ≡ ok one)
    × (ok late_rows ≡ ok two)
    × Mirrors archive_table (today_utc (now + day_us)) one two next_night.1
    × ((x : Row ℕ)
        → IsFar archive_table (today_utc now) x
        → IsFar archive_table (today_utc (now + day_us)) x
        → In x (archive_table.scan next_night.1) ↔ In x before)
archive_pg_to_iceberg_heals_example =
    archive_pg_to_iceberg_heals archive_table now (now + day_us) reads_once (λ back. ok late_rows)
      before next_night.1 (days_of next_night.0) (omega arith) (omega arith) next_night_returns
