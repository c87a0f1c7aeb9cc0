-- ===== src/Lake/Archive/Mirror.antt =====
-- What the archive leaves in an Iceberg table.
use gridpulse.Prelude.{
  ℕ, ◌+◌, ◌-◌, ◌*◌, ◌≤◌, ◌<◌, ◌≡◌, ◌⊎◌, ◌↔◌, inl, inr, sym, ap, ◌∙◌, true, false, List, [], ◌∷◌,
  map, filter, Result, ok, raise, >>=-eq-ok, In, In-filter, In-filter_of, In-map, In-map_of, arith,
  ok-injective,
}
use mathlib.Core.Path.{subst}
use gridpulse.Datetime.{day_us}
use gridpulse.Lake.Iceberg.{Iceberg}
use gridpulse.Ingestion.Fetch.Rows.{continue-ok}
use gridpulse.Lake.Archive.{
  Row, in_day, fetch_partition, strip_row, commit, overwrite_day_with, archive_day,
}

in_day_iff :
    {V : Type 0} (d : ℕ) (r : Row V)
    → (in_day d r ≡ true) ↔ ((d ≤ r.period_start_utc) × (r.period_start_utc < d + day_us))
in_day_iff d r = ground arith

pub out_of_day :
    {V : Type 0} (d : ℕ) (r : Row V)
    → (in_day d r ≡ false) ↔ ((r.period_start_utc < d) ⊎ (d + day_us ≤ r.period_start_utc))
out_of_day d r = ground arith

-- The row of the raw table that a row of the archive was made of.
pub record IsCopy {V : Type 0} (rows : List (Row V)) (x : Row V) : Type 0 where
  pub original : Row V
  pub in_rows : In original rows
  pub stripped : strip_row original ≡ x

copies :
    {V : Type 0} (d : ℕ) (rows : List (Row V)) (x : Row V)
    → In x (map strip_row (filter (in_day d) rows)) ↔ ((in_day d x ≡ true) × IsCopy rows x)
copies d rows x = (
  λ m.
      let (r, k, e) = In-map strip_row x (filter (in_day d) rows) m in
      let (here, day) = In-filter (in_day d) r rows k in
      (ap (in_day d) e ∙ day, record { original = r; in_rows = here; stripped = sym e }),
  λ h.
      let c = h.1 in
      subst (λ y. In y (map strip_row (filter (in_day d) rows))) c.stripped
        (In-map_of strip_row c.original (filter (in_day d) rows)
          (In-filter_of (in_day d) c.original rows c.in_rows (ap (in_day d) c.stripped ∙ h.0))),
)

outside :
    (today start : ℕ)
    → 2 * day_us ≤ today
    → (start < today - 1 * day_us) ⊎ (today - 1 * day_us + day_us ≤ start)
    → (start < today - 2 * day_us) ⊎ (today - 2 * day_us + day_us ≤ start)
    → (start < today - 2 * day_us) ⊎ (today ≤ start)
outside today start old (inl p) (inl q) = inl q
outside today start old (inl p) (inr q) = absurd (omega (arith, p, q, old))
outside today start old (inr p) q = inr (omega (arith, p, old))

pub far_off :
    (today start : ℕ)
    → 2 * day_us ≤ today
    → (start < today - 2 * day_us) ⊎ (today ≤ start)
    → ((start < today - 1 * day_us) ⊎ (today - 1 * day_us + day_us ≤ start))
      × ((start < today - 2 * day_us) ⊎ (today - 2 * day_us + day_us ≤ start))
far_off today start old (inl p) = (inl (omega (arith, p)), inl p)
far_off today start old (inr p) = (inr (omega (arith, p, old)), inr (omega (arith, p, old)))

module _ {V : Type 0} (lib : Iceberg (Row V)) where
  overwrite_day-scan :
      (d : ℕ) (rows : List (Row V)) (t u : lib.Table)
      → overwrite_day_with lib d rows t ≡ ok u
      → (x : Row V) → In x (lib.scan u) ↔ (In x rows ⊎ (In x (lib.scan t) × (in_day d x ≡ false)))
  overwrite_day-scan d [] t u h x = (
    λ m. inr ((lib.delete_scan (in_day d) t u h x).0 m),
    λ m. elim m [ inl k ↦ absurd k | inr k ↦ (lib.delete_scan (in_day d) t u h x).1 k ],
  )
  overwrite_day-scan d (r ∷ rows) t u h x = lib.overwrite_scan (in_day d) (r ∷ rows) t u h x

  commit-ok :
      {A : Type 0} (m : Result lib.Table) (a b : A) (t u : lib.Table)
      → commit lib m a t ≡ (ok b, u)
      → (m ≡ ok u) × (a ≡ b)
  commit-ok (ok v) a b t u h = (ap (λ y. ok y.1) h, ok-injective (ap (λ y. y.0) h))
  commit-ok (raise e) a b t u h = cc (ap (λ y. y.0) h)

  -- The rows of a table after a day was archived.
  abbrev pub AfterDay : ℕ → List (Row V) → lib.Table → Row V → Type 0
  AfterDay d rows t x =
      ((in_day d x ≡ true) × IsCopy rows x) ⊎ ((in_day d x ≡ false) × In x (lib.scan t))

  pub archive_day-scan :
      (d n : ℕ) (connection : Result (List (Row V))) (t u : lib.Table)
      → archive_day lib d connection t ≡ (ok n, u)
      → (rows : List (Row V)) × (connection ≡ ok rows)
        × ((x : Row V) → In x (lib.scan u) ↔ AfterDay d rows t x)
  unfolding archive_day
  archive_day-scan d n connection t u h =
      let (picked, t', e, f) = continue-ok (fetch_partition connection d, t) _ h in
      let (rows, c, k) =
        >>=-eq-ok connection (λ rows. ok (filter (in_day d) rows)) (ap (λ y. y.0) e) in
      let same = ap (map strip_row) (ok-injective k) in
      let (w, _) = commit-ok (overwrite_day_with lib d (map strip_row picked) t') _ n t' u f in
      let w' =
        ap (λ rs. overwrite_day_with lib d rs t) same
        ∙ (ap (overwrite_day_with lib d (map strip_row picked)) (ap (λ y. y.1) e) ∙ w) in
      (
        rows,
        c,
        λ x.
            let (there, back) =
              overwrite_day-scan d (map strip_row (filter (in_day d) rows)) t u w' x in
            let (copy, uncopy) = copies d rows x in
            (
              λ m. elim (there m) [ inl k ↦ inl (copy k) | inr k ↦ inr (k.1, k.0) ],
              λ a. elim a [ inl k ↦ back (inl (uncopy k)) | inr k ↦ back (inr (k.1, k.0)) ],
            ),
      )

  -- A row of the table after the archive of the days before `today`, which saw the rows `one` of
  -- yesterday and `two` of the day before: a copy of one of those, or a row of another day that was
  -- there before.
  abbrev pub After : ℕ → List (Row V) → List (Row V) → lib.Table → Row V → Type 0
  After today one two t x =
      ((today - day_us ≤ x.period_start_utc) × (x.period_start_utc < today) × IsCopy one x)
      ⊎ ((today - 2 * day_us ≤ x.period_start_utc)
          × (x.period_start_utc < today - day_us)
          × IsCopy two x)
      ⊎ (((x.period_start_utc < today - 2 * day_us) ⊎ (today ≤ x.period_start_utc))
          × In x (lib.scan t))

  pub both :
      (today : ℕ) (one two : List (Row V)) (t t' u : lib.Table) (x : Row V)
      → 2 * day_us ≤ today
      → In x (lib.scan t') ↔ AfterDay (today - 1 * day_us) one t x
      → In x (lib.scan u) ↔ AfterDay (today - 2 * day_us) two t' x
      → In x (lib.scan u) ↔ After today one two t x
  both today one two t t' u x old (a, b) (c, d) =
      let start = x.period_start_utc in
      let (y, y') = in_day_iff (today - 1 * day_us) x in
      let (z, z') = in_day_iff (today - 2 * day_us) x in
      let (v, v') = out_of_day (today - 1 * day_us) x in
      let (w, w') = out_of_day (today - 2 * day_us) x in
      (
        λ m. elim (c m) [
          | inl k ↦ let (lower, upper) = z k.0 in inr (inl (lower, omega (arith, upper, old), k.1))
          | inr k ↦ elim (a k.1) [
            | inl i ↦ let (lower, upper) = y i.0 in inl (lower, omega (arith, upper, old), i.1)
            | inr i ↦ inr (inr (outside today start old (v i.0) (w k.0), i.1))
          ]
        ],
        λ k. elim k [
          | inl (lower, upper, copy) ↦ d (
              inr (
                w' (inr (omega (arith, lower, old))),
                b (inl (y' (lower, omega (arith, upper, old)), copy)),
              ))
          | inr (inl (lower, upper, copy)) ↦ d (inl (z' (lower, omega (arith, upper, old)), copy))
          | inr (inr (far, m)) ↦
              let (p, q) = far_off today start old far in d (inr (w' q, b (inr (v' p, m))))
        ],
      )
