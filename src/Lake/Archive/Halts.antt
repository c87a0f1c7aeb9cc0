-- ===== src/Lake/Archive/Halts.antt =====
-- What the archive leaves in an Iceberg table when a read of Postgres or a commit fails.
use gridpulse.Prelude.{
  ℕ, ◌-◌, ◌*◌, ◌≤◌, ◌≡◌, ◌⊎◌, ◌↔◌, inl, inr, refl, List, [], ◌∷◌, Result, ok, raise, Exc, In,
  Result-cases, length,
}
use gridpulse.Datetime.{day_us}
use gridpulse.Lake.Iceberg.{Iceberg}
use gridpulse.Lake.Archive.{
  Row, fetch_partition, strip_ingest_metadata, overwrite_day_with, overwrite_day, archive_day,
  archive_each, archive_pg_to_iceberg, today_utc,
}
use gridpulse.Lake.Archive.Mirror.{AfterDay, After, archive_day-scan, both}

module _ {V : Type 0} (lib : Iceberg (Row V)) where
  -- A day is archived by one commit, or the table is as it was.
  archive_day-cases :
      (d : ℕ) (connection : Result (List (Row V))) (t : lib.Table)
      → ((e : Exc) × (archive_day lib d connection t ≡ (raise e, t)))
        ⊎ ((n : ℕ) × (u : lib.Table) × (archive_day lib d connection t ≡ (ok n, u)))
  unfolding archive_day overwrite_day
  archive_day-cases d connection t = elim (Result-cases (fetch_partition connection d)) [
    | inr (e, failed) ↦ inl (e, rw failed refl)
    | inl (picked, read) ↦
        let rows = strip_ingest_metadata picked in
        elim (Result-cases (overwrite_day_with lib d rows t)) [
          | inr (e, failed) ↦ inl (e, rw (read, failed) refl)
          | inl (u, committed) ↦ inr (length rows, u, rw (read, committed) refl)
        ]
  ]

  -- The outcomes of an archive: nothing was done and it raised; the day before today was archived,
  -- as its read saw it, and it raised; or both days were, and it returned.
  abbrev pub Outcome :
      ℕ → (ℕ → Result (List (Row V))) → lib.Table → Result (List (ℕ × ℕ)) × lib.Table → Type 0
  Outcome today connection t r =
      ((e : Exc) × (r ≡ (raise e, t)))
      ⊎ ((e : Exc) × (u : lib.Table) × (one : List (Row V)) × (r ≡ (raise e, u))
          × (connection 1 ≡ ok one)
          × ((x : Row V) → In x (lib.scan u) ↔ AfterDay lib (today - 1 * day_us) one t x))
      ⊎ ((days : List (ℕ × ℕ)) × (u : lib.Table) × (one : List (Row V)) × (two : List (Row V)) × (r
            ≡ (ok days, u))
          × (connection 1 ≡ ok one)
          × (connection 2 ≡ ok two)
          × ((x : Row V) → In x (lib.scan u) ↔ After lib today one two t x))

  -- When the clock is past the second day of the calendar, and whatever reads or commits raise, a
  -- run of the archive ends in one of three ways: it raised and the table is as it was; it raised
  -- and the table has, of yesterday, the rows that their read saw, without `ingested_at_utc`, and of
  -- every other day what it had; or it returned, and so it is with each of the two days before
  -- today.
  pub archive_pg_to_iceberg-Outcome :
      (now : ℕ) (connection : ℕ → Result (List (Row V))) (t : lib.Table)
      → 2 * day_us ≤ today_utc now
      → Outcome (today_utc now) connection t (archive_pg_to_iceberg lib now connection t)
  unfolding archive_pg_to_iceberg archive_each
  archive_pg_to_iceberg-Outcome now connection t old =
      let today = today_utc now in
      elim (archive_day-cases (today - 1 * day_us) (connection 1) t) [
        | inl (e, failed) ↦ inl (e, rw failed refl)
        | inr (n, t', done) ↦
            let (one, read, first) =
              archive_day-scan lib (today - 1 * day_us) n (connection 1) t t' done in
            elim (archive_day-cases (today - 2 * day_us) (connection 2) t') [
              | inl (e, failed) ↦ inr (inl (e, t', one, rw (done, failed) refl, read, first))
              | inr (m, u, done') ↦
                  let (two, read', second) =
                    archive_day-scan lib (today - 2 * day_us) m (connection 2) t' u done' in
                  inr (
                    inr (
                      (today - 1 * day_us, n) ∷ (today - 2 * day_us, m) ∷ [],
                      u,
                      one,
                      two,
                      rw (done, done') refl,
                      read,
                      read',
                      λ x. both lib today one two t t' u x old (first x) (second x),
                    ))
            ]
      ]
