-- ===== src/Dagster/Dbt.antt =====
-- gridpulse/dagster_defs/dbt_assets.py: `dbt deps`, then `dbt build`. `subprocess.run` is a
-- parameter; the commands that were run are kept beside the rest of the world.
pub mod Order
use gridpulse.Prelude.{
  ℕ, String, ℤ, pos, Option, none, some, List, [], ◌∷◌, ◌++◌, filter, length, Bool, Result, ok,
  raise, runtime_error, Exec, continue, if◌then◌else◌,
}
use gridpulse.Heartbeat.{Observed, with_heartbeat}
use gridpulse.Dagster.Metadata.{Metadata, text, path, int}
use gridpulse.Dagster.Backup.{is_zero}

pub record Completed : Type 0 where
  pub returncode : ℤ
  pub stdout : String

pub record Shell (W : Type 0) : Type 0 where
  pub world : W
  pub commands : List (List String)

-- `os.environ.get(name, "/app/dbt")`
abbrev or_app : Option String → String
or_app none = "/app/dbt"
or_app (some directory) = directory

abbrev exited : Completed → Result String
exited result = if is_zero result.returncode then ok result.stdout else raise runtime_error

-- `path_text t` is `str(Path(t))`, `splitlines` the method of `str`, and `contains part whole` is `part in whole`.
module _ {W : Type 0} (environ : String → Option String) (path_text : String → String)
    (run : List String → Exec W Completed) where
  abbrev pub project_dir : String
  project_dir = path_text (or_app (environ "DBT_PROJECT_DIR"))

  abbrev pub command : List String → List String
  command args =
      "dbt"
      ∷ (args
          ++ ("--project-dir"
              ∷ project_dir
              ∷ "--profiles-dir"
              ∷ path_text (or_app (environ "DBT_PROFILES_DIR"))
              ∷ []))

  -- `subprocess.run`, noted
  abbrev pub noted : List String → Exec (Shell W) Completed
  noted cmd s =
      let (r, w) = run cmd s.world in (r, record { world = w; commands = s.commands ++ (cmd ∷ []) })

  unfoldable pub run_dbt : List String → Exec (Shell W) String
  run_dbt args s = continue (noted (command args) s) λ result s'. (exited result, s')

  module _ (splitlines : String → List String) (contains : String → String → Bool) where
    abbrev pub count_lines : String → String → ℤ
    count_lines part out = pos (length (filter (contains part) (splitlines out)))

    abbrev pub run_summary : {F : Type 0} → String → Metadata F
    run_summary out =
        ("project_dir", path project_dir)
        ∷ ("pass_steps", int (count_lines " PASS" out))
        ∷ ("error_steps", int (count_lines " ERROR" out))
        ∷ []

    -- the body of the asset
    unfoldable pub build : {F : Type 0} → Exec (Shell W) (Metadata F)
    unfolding run_dbt
    build s =
        continue (run_dbt ("deps" ∷ []) s)
          λ _ s'. continue (run_dbt ("build" ∷ []) s') λ out s''. (ok (run_summary out), s'')

    unfoldable pub dbt_build :
        {F : Type 0}
        → (String → String)
        → (String → List String → Result (Unit {0}))
        → Exec (Observed (Shell W)) (Metadata F)
    dbt_build strip get = with_heartbeat environ strip get "dbt_build" build
