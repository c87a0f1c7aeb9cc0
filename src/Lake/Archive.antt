-- ===== src/Lake/Archive.antt =====
-- The nightly archive of gridpulse/dagster_defs/iceberg_assets.py. What each of its transactions on
-- Postgres sees is a parameter, since rows may arrive between two of them.
pub mod Mirror
pub mod Halts
pub mod Heals
use gridpulse.Prelude.{
  ℕ, zero, suc, ◌+◌, ◌-◌, ◌*◌, ◌%◌, String, Bool, true, false, not, List, [], ◌∷◌, ◌++◌, map,
  filter, length, Result, ok, raise, ◌>>=◌, Exec, continue, leb, ltb, ◌&&◌, str_eq, if◌then◌else◌,
}
use gridpulse.Datetime.{day_us}
use gridpulse.Lake.Iceberg.{Iceberg}

-- A row of a raw table as a dict: its `period_start_utc`, and the other keys with their values.
pub record Row (V : Type 0) : Type 0 where
  pub period_start_utc : ℕ
  pub others : List (String × V)

abbrev pub archive_lookback_days : ℕ
archive_lookback_days = 2

-- midnight, as `replace(hour=0, …)` on an instant of the UTC clock
abbrev pub today_utc : ℕ → ℕ
today_utc now = now - now % day_us

module _ {V : Type 0} where
  -- the range [day_start, day_start + 1 day), in SQL and as the overwrite filter
  abbrev pub in_day : ℕ → Row V → Bool
  in_day day_start r =
      leb day_start r.period_start_utc && ltb r.period_start_utc (day_start + day_us)

  unfoldable pub fetch_partition : Result (List (Row V)) → ℕ → Result (List (Row V))
  fetch_partition connection day_start = do rows ← connection; ok (filter (in_day day_start) rows)

  abbrev pub strip_row : Row V → Row V
  strip_row r = record r { others = filter (λ c. not (str_eq c.0 "ingested_at_utc")) r.others }

  unfoldable pub strip_ingest_metadata : List (Row V) → List (Row V)
  strip_ingest_metadata rows = map strip_row rows

  module _ (lib : Iceberg (Row V)) where
    -- a call of the table that changes it, or raises and leaves it
    abbrev pub commit : {A : Type 0} → Result lib.Table → A → Exec lib.Table A
    commit (ok u) a t = (ok a, u)
    commit (raise e) a t = (raise e, t)

    abbrev pub overwrite_day_with : ℕ → List (Row V) → lib.Table → Result lib.Table
    overwrite_day_with day_start [] t = lib.delete (in_day day_start) t
    overwrite_day_with day_start (r ∷ rows) t = lib.overwrite (in_day day_start) (r ∷ rows) t

    unfoldable pub overwrite_day : ℕ → List (Row V) → Exec lib.Table ℕ
    overwrite_day day_start rows t = commit (overwrite_day_with day_start rows t) (length rows) t

    -- one turn of the loop: `connection back` is what the transaction of that turn sees
    unfoldable pub archive_day : ℕ → Result (List (Row V)) → Exec lib.Table ℕ
    unfolding fetch_partition strip_ingest_metadata overwrite_day
    archive_day day_start connection t =
        continue (fetch_partition connection day_start, t)
          λ rows t'. overwrite_day day_start (strip_ingest_metadata rows) t'

    -- the loop over `range(back, back + left)`, with the rows written for each day
    unfoldable pub archive_each :
        ℕ → (ℕ → Result (List (Row V))) → ℕ → ℕ → Exec lib.Table (List (ℕ × ℕ))
    unfolding archive_day
    archive_each today connection zero back t = (ok [], t)
    archive_each today connection (suc left) back t =
        let day_start = today - back * day_us in
        continue (archive_day day_start (connection back) t) λ written t'.
          continue (archive_each today connection left (suc back) t')
            λ rows_per_day t''. (ok ((day_start, written) ∷ rows_per_day), t'')

    unfoldable pub archive_pg_to_iceberg :
        ℕ → (ℕ → Result (List (Row V))) → Exec lib.Table (List (ℕ × ℕ))
    unfolding archive_each
    archive_pg_to_iceberg now connection =
        archive_each (today_utc now) connection archive_lookback_days 1

    -- the asset: the three tables, in order; an exception ends the run
    unfoldable pub archive_to_iceberg :
        ℕ
        → (ci gm ap : ℕ → Result (List (Row V)))
        → Exec (lib.Table × lib.Table × lib.Table) (List (ℕ × ℕ) × List (ℕ × ℕ) × List (ℕ × ℕ))
    unfolding archive_pg_to_iceberg
    archive_to_iceberg now ci gm ap (t, u, v) =
        let (a, t') = archive_pg_to_iceberg now ci t in
        continue (a, (t', u, v))
          λ x s.
            let (b, u') = archive_pg_to_iceberg now gm s.1 in
            continue (b, (s.0, u', s.2))
              λ y s'.
                let (c, v') = archive_pg_to_iceberg now ap s'.2 in
                continue (c, (s'.0, s'.1, v')) λ z s''. (ok (x, y, z), s'')
