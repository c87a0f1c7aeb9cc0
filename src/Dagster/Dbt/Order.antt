-- ===== src/Dagster/Dbt/Order.antt =====
-- Which commands of dbt are run, and what decides whether the asset succeeds.
use gridpulse.Prelude.{
  String, ◌≡◌, refl, Bool, true, false, Option, List, [], ◌∷◌, ◌++◌, Result, ok, raise, Exc,
  runtime_error, Exec, continue, Bool-cases, inl, inr, is_exception,
}
use mathlib.Core.List.{append_assoc}
use gridpulse.Heartbeat.{Observed}
use gridpulse.Heartbeat.Transparent.{with_heartbeat_transparent}
use gridpulse.Dagster.Metadata.{Metadata}
use gridpulse.Dagster.Backup.{is_zero}
use gridpulse.Dagster.Dbt.{
  Completed, Shell, command, noted, run_dbt, run_summary, build, dbt_build, exited,
}

module _ {W : Type 0} (environ : String → Option String) (path_text : String → String)
    (run : List String → Exec W Completed) where
  abbrev pub deps : List String
  deps = command environ path_text run ("deps" ∷ [])

  abbrev pub then_build : List String
  then_build = command environ path_text run ("build" ∷ [])

module _ {W F : Type 0} (environ : String → Option String) (path_text : String → String)
    (run : List String → Exec W Completed) (splitlines : String → List String)
    (contains : String → String → Bool) where
  -- How a run of the asset ends from the world `w`: one of the two commands could not be run, or
  -- exited with another status than 0, and then no further command is run; or both exited with 0,
  -- `deps` first, and the metadata are of the output of `build`.
  pub data Ends (w : W) : Result (Metadata F) → W → List (List String) → Type 0 where
    deps_not_run :
        (e : Exc) (w' : W)
        → run (deps environ path_text run) w ≡ (raise e, w')
        → Ends w (raise e) w' ((deps environ path_text run) ∷ [])
    deps_failed :
        (c : Completed) (w' : W)
        → run (deps environ path_text run) w ≡ (ok c, w')
        → is_zero c.returncode ≡ false
        → Ends w (raise runtime_error) w' ((deps environ path_text run) ∷ [])
    build_not_run :
        (c : Completed) (e : Exc) (w' w'' : W)
        → run (deps environ path_text run) w ≡ (ok c, w')
        → is_zero c.returncode ≡ true
        → run (then_build environ path_text run) w' ≡ (raise e, w'')
        → Ends w
            (raise e)
            w''
            ((deps environ path_text run) ∷ (then_build environ path_text run) ∷ [])
    build_failed :
        (c d : Completed) (w' w'' : W)
        → run (deps environ path_text run) w ≡ (ok c, w')
        → is_zero c.returncode ≡ true
        → run (then_build environ path_text run) w' ≡ (ok d, w'')
        → is_zero d.returncode ≡ false
        → Ends w
            (raise runtime_error)
            w''
            ((deps environ path_text run) ∷ (then_build environ path_text run) ∷ [])
    built :
        (c d : Completed) (w' w'' : W)
        → run (deps environ path_text run) w ≡ (ok c, w')
        → is_zero c.returncode ≡ true
        → run (then_build environ path_text run) w' ≡ (ok d, w'')
        → is_zero d.returncode ≡ true
        → Ends w
            (ok (run_summary environ path_text run splitlines contains d.stdout))
            w''
            ((deps environ path_text run) ∷ (then_build environ path_text run) ∷ [])

  -- The commands that a run adds, and what it replies.
  abbrev EndsIn : W → List (List String) → Result (Metadata F) × Shell W → Type 0
  EndsIn w past (r, s) =
      (more : List (List String)) × (s.commands ≡ past ++ more) × Ends w r s.world more

  after_build :
      (c : Completed) (w w' : W) (past : List (List String)) (x : Result Completed × W)
      → run (deps environ path_text run) w ≡ (ok c, w')
      → is_zero c.returncode ≡ true
      → run (then_build environ path_text run) w' ≡ x
      → EndsIn w past (
          continue
            (continue
              (
                x.0,
                record {
                  world = x.1;
                  commands =
                      (past ++ ((deps environ path_text run) ∷ []))
                      ++ ((then_build environ path_text run) ∷ []);
                },
              )
              (λ result s'. (exited result, s')))
            λ out s''. (ok (run_summary environ path_text run splitlines contains out), s''))
  after_build c w w' past (raise e, v) ran zero h =
      (_, append_assoc past _ _, build_not_run c e w' v ran zero h)
  after_build c w w' past (ok d, v) ran zero h = elim (Bool-cases (is_zero d.returncode)) [
    | inl z ↦ rw z (_, append_assoc past _ _, built c d w' v ran zero h z)
    | inr z ↦ rw z (_, append_assoc past _ _, build_failed c d w' v ran zero h z)
  ]

  after_deps :
      (w : W) (past : List (List String)) (x : Result Completed × W)
      → run (deps environ path_text run) w ≡ x
      → EndsIn w past (
          continue
            (continue
              (x.0, record { world = x.1; commands = past ++ ((deps environ path_text run) ∷ []) })
              (λ result s'. (exited result, s')))
            λ _ s'.
              continue
                (continue
                  (noted environ path_text run (then_build environ path_text run) s')
                  (λ result s''. (exited result, s'')))
                λ out s''. (ok (run_summary environ path_text run splitlines contains out), s''))
  after_deps w past (raise e, v) h = (_, refl, deps_not_run e v h)
  after_deps w past (ok c, v) h = elim (Bool-cases (is_zero c.returncode)) [
    | inl z ↦ rw z (after_build c w v past (run (then_build environ path_text run) v) h z refl)
    | inr z ↦ rw z (_, refl, deps_failed c v h z)
  ]

  -- Where a ping fails only with a subclass of `Exception`: a run of the asset runs `dbt deps`, and
  -- `dbt build` only if that exited with status 0; it returns if both did, with the figures of the
  -- output of `build`, raises RuntimeError where one exits with another status, and lets through
  -- what running a command raises.
  pub dbt_build_order :
      (strip : String → String) (get : String → List String → Result (Unit {0}))
      (s : Observed (Shell W))
      → ((url : String) (past : List String) (e : Exc)
          → get url past ≡ raise e
          → is_exception e ≡ true)
      → let (r, s') = dbt_build environ path_text run splitlines contains strip get s in
        (more : List (List String)) × (s'.world.commands ≡ s.world.commands ++ more)
        × Ends s.world.world r s'.world.world more
  unfolding dbt_build build
  dbt_build_order strip get s only_exceptions =
      rw
        (with_heartbeat_transparent environ strip get only_exceptions "dbt_build"
          (build environ path_text run splitlines contains) s)
        (unfold run_dbt in
          after_deps s.world.world s.world.commands (run (deps environ path_text run) s.world.world)
            refl)
