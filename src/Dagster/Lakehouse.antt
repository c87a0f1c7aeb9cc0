-- ===== src/Dagster/Lakehouse.antt =====
-- The two assets of gridpulse/dagster_defs/iceberg_assets.py, under their heartbeats: the archive,
-- with its metadata, and the expiry of old snapshots.
pub mod Expiry
use Prim.Native.String.{◌++◌}
use gridpulse.Prelude.{
  ℕ, ◌+◌, ◌-◌, ◌*◌, ◌≤◌, ◌≡◌, String, ℤ, pos, Option, List, [], ◌∷◌, map, length, Result, ok, raise,
  Exec, continue, overflow_error, ltb, In, if◌then◌else◌,
}
use mathlib.Core.List.{◌++◌ as append}
use gridpulse.Datetime.{DateTime, day_us}
use gridpulse.Heartbeat.{Observed, with_heartbeat}
use gridpulse.Lake.Iceberg.{Iceberg}
use gridpulse.Lake.Archive.{Row, archive_lookback_days, archive_to_iceberg}
use gridpulse.Api.Html.{now_utc}
use gridpulse.Dagster.Metadata.{Metadata, text, int, json}

unfoldable pub sum : List ℕ → ℕ
sum [] = 0
sum (n ∷ ns) = n + sum ns

-- `iso_day` is `date().isoformat()` of an instant
unfoldable pub md_for : {F : Type 0} → (ℕ → String) → String → List (ℕ × ℕ) → Metadata F
unfolding sum
md_for iso_day name days =
    (name ++ "_total_rows", int (pos (sum (map (λ d. d.1) days))))
    ∷ (name ++ "_per_day", json (map (λ d. (iso_day d.0, pos d.1)) days))
    ∷ []

module _ (environ : String → Option String) (strip : String → String)
    (get : String → List String → Result (Unit {0})) {F : Type 0} where
  unfoldable pub archive_asset :
      {V : Type 0} (lib : Iceberg (Row V))
      → (ℕ → String)
      → ℕ
      → (ci gm ap : ℕ → Result (List (Row V)))
      → Exec (Observed (lib.Table × lib.Table × lib.Table)) (Metadata F)
  unfolding archive_to_iceberg md_for
  archive_asset lib iso_day now ci gm ap =
      with_heartbeat environ strip get "archive_to_iceberg" λ s.
        continue (archive_to_iceberg lib now ci gm ap s) λ days s'. (
          ok (
              append (md_for iso_day "carbon_intensity" days.0) (
                append (md_for iso_day "generation_mix" days.1) (
                  append (md_for iso_day "agile_price" days.2)
                    (("archive_lookback_days", int (pos archive_lookback_days)) ∷ [])))),
          s',
        )

abbrev pub snapshot_retention_days : ℕ
snapshot_retention_days = 30

-- A table's snapshots, each by its time in milliseconds, and what PyIceberg documents of their
-- expiry: it adds none and spares those that are not older than the bound.
pub record Snapshots (T : Type 0) : Type 0 where
  pub load_table : String → Result (Unit {0})
  pub snapshots : T → List ℕ
  pub expire : ℕ → Exec T (Unit {0})
  pub adds_none :
      (bound : ℕ) (t u : T)
      → expire bound t ≡ (ok tt, u)
      → (n : ℕ) → In n (snapshots u)
      → In n (snapshots t)
  pub spares :
      (bound : ℕ) (t u : T)
      → expire bound t ≡ (ok tt, u)
      → (n : ℕ) → bound ≤ n
      → In n (snapshots t)
      → In n (snapshots u)
  pub no_longer :
      (bound : ℕ) (t u : T)
      → expire bound t ≡ (ok tt, u)
      → length (snapshots u) ≤ length (snapshots t)

-- The rest of the loop follows a table that was expired; where one raises, the later ones stay.
abbrev pub gathered :
    {T : Type 0}
    → String
    → List (String × T)
    → Result ℕ × T
    → Result (List (String × ℕ)) × List (String × T)
    → Result (List (String × ℕ)) × List (String × T)
gathered name rest (raise e, u) y = (raise e, (name, u) ∷ rest)
gathered name rest (ok expired, u) (raise e, rest') = (raise e, (name, u) ∷ rest')
gathered name rest (ok expired, u) (ok more, rest') =
    (ok ((name, expired) ∷ more), (name, u) ∷ rest')

module _ {T : Type 0} (lib : Snapshots T) where
  -- one turn of the loop: how many snapshots went
  unfoldable pub expire_table : ℕ → String → Exec T ℕ
  expire_table cutoff_ms name t =
      continue (lib.load_table name, t)
        λ _ t'.
          continue (lib.expire cutoff_ms t')
            λ _ u. (ok (length (lib.snapshots t') - length (lib.snapshots u)), u)

  -- the loop over the tables, each with its name
  unfoldable pub expire_each : ℕ → Exec (List (String × T)) (List (String × ℕ))
  unfolding expire_table
  expire_each cutoff_ms [] = (ok [], [])
  expire_each cutoff_ms ((name, t) ∷ rest) =
      gathered name rest (expire_table cutoff_ms name t) (expire_each cutoff_ms rest)

  -- `datetime.now(UTC) - timedelta(days=…)`, which Python refuses below year 1
  abbrev pub cutoff : ℕ → Result DateTime
  cutoff now =
      if ltb now (snapshot_retention_days * day_us)
      then raise overflow_error
      else ok (now_utc (now - snapshot_retention_days * day_us))

  -- `timestamp_ms d` is `int(d.timestamp() * 1000)` of a time since 1970, and `isoformat` the method of `datetime`.
  module _ (timestamp_ms : DateTime → ℕ) (isoformat : DateTime → String) {F : Type 0} where
    abbrev pub expiry_metadata : DateTime → List (String × ℕ) → Metadata F
    expiry_metadata bound expired_per_table =
        ("cutoff_utc", text (isoformat bound))
        ∷ ("expired_per_table", json (map (λ x. (x.0, pos x.1)) expired_per_table))
        ∷ ("retention_days", int (pos snapshot_retention_days))
        ∷ []

    -- the body of the asset
    unfoldable pub expire_old : ℕ → Exec (List (String × T)) (Metadata F)
    unfolding expire_each
    expire_old now s =
        continue (cutoff now, s)
          λ bound s'.
            continue (expire_each (timestamp_ms bound) s')
              λ expired s''. (ok (expiry_metadata bound expired), s'')

    unfoldable pub expire_snapshots :
        (String → Option String)
        → (String → String)
        → (String → List String → Result (Unit {0}))
        → ℕ
        → Exec (Observed (List (String × T))) (Metadata F)
    expire_snapshots environ strip get now =
        with_heartbeat environ strip get "expire_snapshots" (expire_old now)
