-- ===== src/Storage/Migrate/Progress.antt =====
-- Migrations are applied one after the other, each in full or not at all.
use gridpulse.Prelude.{
  ℕ, ◌+◌, String, ◌≡◌, refl, not, List, [], ◌∷◌, Result, ok, raise, Exc, ◌>>=◌, ◌⊎◌, inl, inr,
  Bool-cases, Result-cases, filter, arith,
}
use gridpulse.Storage.Migrate.{
  Migration, MigrationDb, Session, member, migrate, apply_one, apply_each, left_behind,
}

-- The files whose version is not recorded.
abbrev pub pending : List String → List Migration → List Migration
pending applied = filter (λ m. not (member m.stem applied))

module _ {S : Type 0} (run_sql : String → S → Result S) where
  -- A migration in full: its file is read, its SQL run, and its version recorded.
  abbrev pub whole : Migration → MigrationDb S → Result (MigrationDb S)
  whole m d = do sql ← m.read_text; migrate run_sql m.stem sql d

  -- From `d`, with `n` applied so far, the migrations lead to the result `r` and the database `d'`:
  -- each in turn is applied in full, until one fails, which leaves the database of those before it.
  abbrev pub Progress : List Migration → ℕ → MigrationDb S → Result ℕ → MigrationDb S → Type 0
  Progress [] n d r d' = (r ≡ ok n) × (d' ≡ d)
  Progress (m ∷ ms) n d r d' =
      ((d₁ : MigrationDb S) × (whole m d ≡ ok d₁) × Progress ms (n + 1) d₁ r d')
      ⊎ ((e : Exc) × (whole m d ≡ raise e) × (r ≡ raise e) × (d' ≡ d))

  abbrev clean : MigrationDb S → Session S
  clean d = record { committed = d; working = d }

  apply_one-ok :
      (m : Migration) (d d₁ : MigrationDb S)
      → whole m d ≡ ok d₁
      → apply_one run_sql m (clean d) ≡ (ok tt, clean d₁)
  unfolding apply_one
  apply_one-ok m d d₁ h = elim (Result-cases m.read_text) [
    | inl (sql, e) ↦ let k : migrate run_sql m.stem sql d ≡ ok d₁ = rw e at h in rw (e, k)
    | inr (x, e) ↦ let k : raise x ≡ ok d₁ = rw e at h in cc
  ]

  -- the `except` rolls back, and so does leaving the connection
  apply_one-raise :
      (m : Migration) (d : MigrationDb S) (x : Exc)
      → whole m d ≡ raise x
      → apply_one run_sql m (clean d) ≡ (raise x, clean d)
  unfolding apply_one
  apply_one-raise m d x h = elim (Result-cases m.read_text) [
    | inl (sql, e) ↦
        let k : migrate run_sql m.stem sql d ≡ raise x = rw e at h in rw (e, k) (ground arith)
    | inr (y, e) ↦ let k : raise y ≡ raise x = rw e at h in rw e (ground arith)
  ]

  abbrev Goal : List Migration → ℕ → MigrationDb S → Result ℕ × MigrationDb S → Type 0
  Goal ms n d x = Progress ms n d x.0 x.1

  pub apply_each-Progress :
      (applied : List String) (files : List Migration) (n : ℕ) (d : MigrationDb S)
      → Goal
          (pending applied files)
          n
          d
          (left_behind run_sql (apply_each run_sql applied files n (clean d)))
  unfolding apply_each
  apply_each-Progress applied [] n d = (refl, refl)
  apply_each-Progress applied (m ∷ ms) n d = elim (Bool-cases (member m.stem applied)) [
    | inl there ↦ rw there (apply_each-Progress applied ms n d)
    | inr new ↦ rw new (elim (Result-cases (whole m d)) [
      | inl (d₁, e) ↦
          rw (apply_one-ok m d d₁ e) (inl (d₁, e, apply_each-Progress applied ms (n + 1) d₁))
      | inr (x, e) ↦ rw (apply_one-raise m d x e) (inr (x, e, refl, refl))
    ])
  ]
