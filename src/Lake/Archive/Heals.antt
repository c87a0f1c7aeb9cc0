-- ===== src/Lake/Archive/Heals.antt =====
-- What a later run of the archive makes of what an earlier one left.
use gridpulse.Prelude.{
  ℕ, ◌-◌, ◌*◌, ◌≤◌, ◌<◌, ◌≡◌, ◌⊎◌, ◌↔◌, inl, inr, sym, ap, ◌∙◌, false, List, Result, ok, raise, Exc,
  In, arith,
}
use mathlib.Core.Path.{subst}
use gridpulse.Datetime.{day_us}
use gridpulse.Lake.Iceberg.{Iceberg}
use gridpulse.Lake.Archive.{Row, in_day, archive_pg_to_iceberg, today_utc}
use gridpulse.Lake.Archive.Mirror.{IsCopy, AfterDay, After, out_of_day, far_off}
use gridpulse.Lake.Archive.Halts.{Outcome, archive_pg_to_iceberg-Outcome}

raised :
    {A S : Type 0} {e : Exc} {a : A} {s t : S} → ¬ (◌≡◌ {A = Result A × S} (raise e, s) (ok a, t))
raised h = cc (ap (λ y. y.0) h)

module _ {V : Type 0} (lib : Iceberg (Row V)) where
  -- The row is of none of the two days before `today`.
  abbrev pub IsFar : ℕ → Row V → Type 0
  IsFar today x = (x.period_start_utc < today - 2 * day_us) ⊎ (today ≤ x.period_start_utc)

  AfterDay-far :
      (d : ℕ) (one : List (Row V)) (t : lib.Table) (x : Row V)
      → in_day d x ≡ false
      → AfterDay lib d one t x ↔ In x (lib.scan t)
  AfterDay-far d one t x out =
      (λ m. elim m [ inl k ↦ absurd (ground (arith, k.0, out)) | inr k ↦ k.1 ], λ m. inr (out, m))

  After-far :
      (today : ℕ) (one two : List (Row V)) (t : lib.Table) (x : Row V)
      → 2 * day_us ≤ today
      → IsFar today x
      → After lib today one two t x ↔ In x (lib.scan t)
  After-far today one two t x old far = (
    λ m. elim m [
      | inl (lower, upper, c) ↦ absurd (near far (omega (arith, lower)) upper)
      | inr (inl (lower, upper, c)) ↦
          absurd (near far (omega (arith, lower)) (omega (arith, upper, old)))
      | inr (inr (f, k)) ↦ k
    ],
    λ m. inr (inr (far, m)),
  )
    where
      near :
          IsFar today x → today - 2 * day_us ≤ x.period_start_utc → x.period_start_utc < today → ⊥
      near (inl f) lower upper = omega (arith, f, lower)
      near (inr f) lower upper = omega (arith, f, upper)

  -- However a run ends, the rows of the other days stay.
  far_stays :
      (today : ℕ) (connection : ℕ → Result (List (Row V))) (t : lib.Table)
      (r : Result (List (ℕ × ℕ)) × lib.Table) (x : Row V)
      → 2 * day_us ≤ today
      → IsFar today x
      → Outcome lib today connection t r
      → In x (lib.scan r.1) ↔ In x (lib.scan t)
  far_stays today connection t r x old far (inl (e, same)) =
      subst (λ u. In x (lib.scan u) ↔ In x (lib.scan t)) (sym (ap (λ y. y.1) same)) (λ m. m, λ m. m)
  far_stays today connection t r x old far (inr (inl (e, u, one, same, read, after))) =
      let (a, b) = after x in
      let out =
        (out_of_day (today - 1 * day_us) x).1 (far_off today x.period_start_utc old far).0 in
      let (c, d) = AfterDay-far (today - 1 * day_us) one t x out in
      subst (λ u. In x (lib.scan u) ↔ In x (lib.scan t)) (sym (ap (λ y. y.1) same))
        (λ m. c (a m), λ m. b (d m))
  far_stays today connection t r x old far
        (inr (inr (days, u, one, two, same, read, read', after))) =
      let (a, b) = after x in
      let (c, d) = After-far today one two t x old far in
      subst (λ u. In x (lib.scan u) ↔ In x (lib.scan t)) (sym (ap (λ y. y.1) same))
        (λ m. c (a m), λ m. b (d m))

  -- The table mirrors, for the two days before `today`, the rows `one` and `two`.
  pub record Mirrors (today : ℕ) (one two : List (Row V)) (u : lib.Table) : Type 0 where
    pub day_before :
        (x : Row V)
        → today - day_us ≤ x.period_start_utc
        → x.period_start_utc < today
        → In x (lib.scan u) ↔ IsCopy one x
    pub two_before :
        (x : Row V)
        → today - 2 * day_us ≤ x.period_start_utc
        → x.period_start_utc < today - day_us
        → In x (lib.scan u) ↔ IsCopy two x

  After-Mirrors :
      (today : ℕ) (one two : List (Row V)) (t u : lib.Table)
      → 2 * day_us ≤ today
      → ((x : Row V) → In x (lib.scan u) ↔ After lib today one two t x)
      → Mirrors today one two u
  After-Mirrors today one two t u old after = record {
    day_before = λ x lower upper. (
      λ m. elim ((after x).0 m) [
        | inl (_, _, c) ↦ c
        | inr (inl (_, early, c)) ↦ absurd (omega (arith, lower, early))
        | inr (inr (far, k)) ↦ absurd (near x far (omega (arith, lower)) upper)
      ],
      λ c. (after x).1 (inl (lower, upper, c)),
    );
    two_before = λ x lower upper. (
      λ m. elim ((after x).0 m) [
        | inl (late, _, c) ↦ absurd (omega (arith, late, upper))
        | inr (inl (_, _, c)) ↦ c
        | inr (inr (far, k)) ↦ absurd (near x far lower (omega (arith, upper, old)))
      ],
      λ c. (after x).1 (inr (inl (lower, upper, c))),
    );
  }
    where
      near :
          (x : Row V)
          → IsFar today x
          → today - 2 * day_us ≤ x.period_start_utc
          → x.period_start_utc < today
          → ⊥
      near x (inl f) lower upper = omega (arith, f, lower)
      near x (inr f) lower upper = omega (arith, f, upper)

  -- When a run of the archive, with a clock past the second day of the calendar, ended in any way,
  -- and a second run on the same day or a later one returns: the table has of the two days before
  -- the second run exactly the rows that its two reads saw, without `ingested_at_utc`, so that rows
  -- that came late are caught and a half-done run is made good; and of the days that neither run is
  -- about it has what it had before both.
  pub archive_pg_to_iceberg_heals :
      (now later : ℕ) (connection connection' : ℕ → Result (List (Row V))) (t u : lib.Table)
      (days : List (ℕ × ℕ))
      → 2 * day_us ≤ today_utc now
      → today_utc now ≤ today_utc later
      → archive_pg_to_iceberg lib later connection' (archive_pg_to_iceberg lib now connection t).1
        ≡ (ok days, u)
      → (one : List (Row V)) × (two : List (Row V)) × (connection' 1 ≡ ok one)
        × (connection' 2 ≡ ok two)
        × Mirrors (today_utc later) one two u
        × ((x : Row V)
            → IsFar (today_utc now) x
            → IsFar (today_utc later) x
            → In x (lib.scan u) ↔ In x (lib.scan t))
  archive_pg_to_iceberg_heals now later connection connection' t u days old order h =
      let today = today_utc later in
      let old' : 2 * day_us ≤ today = omega (arith, old, order) in
      let t₁ = (archive_pg_to_iceberg lib now connection t).1 in
      let first = archive_pg_to_iceberg-Outcome lib now connection t old in
      elim (archive_pg_to_iceberg-Outcome lib later connection' t₁ old') [
        | inl (e, k) ↦ absurd (raised (sym k ∙ h))
        | inr (inl (e, v, one, k, _, _)) ↦ absurd (raised (sym k ∙ h))
        | inr (inr (days', v, one, two, k, read, read', after)) ↦
            let same : v ≡ u = sym (ap (λ y. y.1) k) ∙ ap (λ y. y.1) h in
            let after' =
              subst (λ w. (x : Row V) → In x (lib.scan w) ↔ After lib today one two t₁ x) same
                after in
            (
              one,
              two,
              read,
              read',
              After-Mirrors today one two t₁ u old' after',
              λ x far far'.
                  let (a, b) = after' x in
                  let (c, d) = After-far today one two t₁ x old' far' in
                  let (f, g) = far_stays (today_utc now) connection t _ x old far first in
                  (λ m. f (c (a m)), λ m. b (d (g m))),
            )
      ]
