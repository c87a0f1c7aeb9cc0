-- ===== src/Storage/Migrate.antt =====
-- gridpulse/storage/migrate.py. What a migration's SQL does to the schema, and psycopg's `connect`,
-- are parameters. A session has the committed database and the one that its transaction sees.
pub mod Progress
pub mod Outcome
use Prim.Native.Nat.{Ordering}
use Prim.Native.String.{compare, ◌++◌}
use gridpulse.Prelude.{
  ℕ, suc, ◌+◌, String, Bool, true, false, Option, none, some, List, [], ◌∷◌, Result, ok, raise, Exc,
  Exec, continue, is_exception, exit_code, runtime_error, integrity_error, undefined_table, ◌>>=◌,
  ◌||◌, str_eq, if◌then◌else◌,
}
use mathlib.Core.List.{◌++◌ as append}
use gridpulse.Storage.Pool.{truthy}

-- A file of the migrations folder: its name without `.sql`, and what reading it gives.
pub record Migration : Type 0 where
  pub stem : String
  pub read_text : Result String

-- The order of the paths.
abbrev pub path_le : Migration → Migration → Bool
path_le a b = elim (compare (a.stem ++ ".sql") (b.stem ++ ".sql")) [
  | Ordering.gt ↦ false
  | _ ↦ true
]

-- `sorted`
unfoldable pub insert : Migration → List Migration → List Migration
insert m [] = m ∷ []
insert m (x ∷ xs) = if path_le m x then m ∷ x ∷ xs else x ∷ insert m xs

unfoldable pub sorted : List Migration → List Migration
unfolding insert
sorted [] = []
sorted (m ∷ ms) = insert m (sorted ms)

-- `S` is the type of schemas. `versions` is `public._migrations`, once it exists.
pub record MigrationDb (S : Type 0) : Type 0 where
  pub schema : S
  pub versions : Option (List String)

pub record Session (S : Type 0) : Type 0 where
  pub committed : MigrationDb S
  pub working : MigrationDb S

unfoldable pub member : String → List String → Bool
member v [] = false
member v (x ∷ xs) = str_eq x v || member v xs

-- The versions that are there once the table has been created if it did not exist.
abbrev pub or_empty : Option (List String) → List String
or_empty none = []
or_empty (some vs) = vs

-- INSERT INTO public._migrations, whose primary key is the version
abbrev pub inserted : String → Option (List String) → Result (List String)
inserted v none = raise undefined_table
inserted v (some vs) = if member v vs then raise integrity_error else ok (append vs (v ∷ []))

-- `a or b`
abbrev pub or_else : Option String → Option String → Option String
or_else none b = b
or_else (some a) b = some a

module _ {S : Type 0} where
  abbrev pub commit : Session S → Session S
  commit s = record s { committed = s.working }

  abbrev pub rollback : Session S → Session S
  rollback s = record s { working = s.committed }

  -- CREATE TABLE IF NOT EXISTS
  unfoldable pub bootstrap : MigrationDb S → MigrationDb S
  bootstrap d = record d { versions = some (or_empty d.versions) }

  module _ (run_sql : String → S → Result S) where
    -- the two statements of the `try`, on the transaction's database
    unfoldable pub migrate : String → String → MigrationDb S → Result (MigrationDb S)
    unfolding member
    migrate version sql d = do
      schema ← run_sql sql d.schema
      vs ← inserted version d.versions
      ok (record { schema = schema; versions = some vs })

    -- the `try`, its `commit`, and the `except`
    abbrev pub tried : Result (MigrationDb S) → Exec (Session S) (Unit {0})
    tried (ok d) s = (ok tt, commit (record s { working = d }))
    tried (raise e) s = (raise e, if is_exception e then rollback s else s)

    -- one pending file
    unfoldable pub apply_one : Migration → Exec (Session S) (Unit {0})
    unfolding migrate
    apply_one m s = continue (m.read_text, s) λ sql s'. tried (migrate m.stem sql s'.working) s'

    -- the loop
    unfoldable pub apply_each : List String → List Migration → ℕ → Exec (Session S) ℕ
    unfolding apply_one member
    apply_each applied [] count s = (ok count, s)
    apply_each applied (m ∷ ms) count s =
        if member m.stem applied
        then apply_each applied ms count s
        else continue (apply_one m s) (λ _ s'. apply_each applied ms (count + 1) s')

    -- leaving `with psycopg.connect(…)`: a commit, or a rollback after an exception; the database
    -- that is left
    abbrev pub left_behind : Result ℕ × Session S → Result ℕ × MigrationDb S
    left_behind (ok n, s) = (ok n, s.working)
    left_behind (raise e, s) = (raise e, s.committed)

    abbrev pub connected :
        List Migration → Result (Unit {0}) → MigrationDb S → Result ℕ × MigrationDb S
    connected files (raise e) d = (raise e, d)
    connected files (ok _) d =
        let d' = bootstrap d in
        left_behind
          (apply_each (or_empty d.versions) files 0 (record { committed = d'; working = d' }))

    abbrev pub with_files :
        Result (Unit {0}) → List Migration → MigrationDb S → Result ℕ × MigrationDb S
    with_files connection [] d = (ok 0, d)
    with_files connection (m ∷ ms) d = connected (m ∷ ms) connection d

    abbrev pub with_url :
        (String → Result (Unit {0}))
        → Option String
        → List Migration
        → MigrationDb S
        → Result ℕ × MigrationDb S
    with_url connect none files d = (raise runtime_error, d)
    with_url connect (some url) files d = with_files (connect url) files d

    unfoldable pub apply_migrations :
        (String → Option String)
        → (String → Result (Unit {0}))
        → Option String
        → List Migration
        → MigrationDb S
        → Result ℕ × MigrationDb S
    unfolding apply_each bootstrap sorted
    apply_migrations environ connect database_url files d =
        with_url connect (or_else (truthy database_url) (truthy (environ "DATABASE_URL")))
          (sorted files) d

    unfoldable pub main :
        (String → Option String)
        → (String → Result (Unit {0}))
        → List Migration
        → MigrationDb S
        → Result ℕ × MigrationDb S
    unfolding apply_migrations
    main environ connect files d =
        let (r, d') = apply_migrations environ connect none files d in (exit_code r, d')
