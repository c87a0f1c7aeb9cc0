-- ===== src/Lake/Query/Order.antt =====
-- In which order the query script runs its statements, and what it prints.
use gridpulse.Prelude.{
  required, ℕ, String, Bool, true, false, continue, ◌≡◌, ◌≢◌, ◌⊎◌, inl, inr, refl, sym, sym, Option,
  List, [], ◌∷◌, ◌++◌, Result, ok, raise, Exc, Result-cases, exit_code, is_exception, if◌then◌else◌,
}
use mathlib.Core.Path.{subst}
use gridpulse.Lake.Query.{
  Answer, Statement, DuckDb, Shell, install_iceberg, install_httpfs, guess_version,
  secret_statement, shown, query_of, execute, access, wire_duckdb_for_r2, run, main,
}

abbrev pub installs : List Statement
installs = install_iceberg ∷ install_httpfs ∷ guess_version ∷ []

-- A first part of a list.
abbrev pub IsPart : {A : Type 0} → List A → List A → Type 0
IsPart {A} xs ys = (rest : List A) × (xs ++ rest ≡ ys)

exit_code-raise : (e : Exc) → exit_code {A = ℕ} (raise e) ≢ ok 0
exit_code-raise e = go (is_exception e)
  where
    go : (b : Bool) → if◌then◌else◌ {A = Result ℕ} b (ok 1) (raise e) ≢ ok 0
    go true h = cc
    go false h = cc

module _ {W C : Type 0} (duckdb : DuckDb W C) (environ : String → Option String)
    (replace : String → String → String → String) where
  execute-cases :
      (con : C) (statement : Statement) (s : Shell W)
      → ((e : Exc) × (w : W) × (execute duckdb environ con statement s
            ≡ (raise e, record s { world = w; tried = s.tried ++ statement ∷ [] })))
        ⊎ ((a : Answer) × (w : W) × ((duckdb.execute con statement s.world).0 ≡ ok a)
            × (execute duckdb environ con statement s
                ≡ (ok a, record s { world = w; tried = s.tried ++ statement ∷ [] })))
  unfolding execute
  execute-cases con statement s =
      let r = duckdb.execute con statement s.world in
      elim (Result-cases r.0) [
        | inr (e, failed) ↦ inl (e, r.1, rw failed refl)
        | inl (a, done) ↦ inr (a, r.1, done, rw done refl)
      ]

  abbrev pub asked : String → String → Statement
  asked query bucket = (replace query "${R2_BUCKET}" bucket, [])

  -- The four settings of the environment.
  abbrev pub Settings : String × String × String → String → Type 0
  Settings found bucket =
      (access duckdb environ ≡ ok found) × (required (environ "R2_BUCKET") ≡ ok bucket)

  -- Every statement was run, the query last, and its answer printed; or the script did not succeed,
  -- nothing was printed, and the query was run after all others or not at all.
  abbrev pub Ends : String → Result ℕ × Shell W → Type 0
  Ends query r =
      ((found : String × String × String) × (bucket : String) × (con : C) × (w : W)
        × (answer : Answer) × Settings found bucket
        × (r.0 ≡ ok 0)
        × ((duckdb.execute con (asked query bucket) w).0 ≡ ok answer)
        × (r.1.tried ≡ installs ++ secret_statement found ∷ asked query bucket ∷ [])
        × (r.1.printed ≡ shown answer))
      ⊎ ((r.0 ≢ ok 0)
          × (r.1.printed ≡ [])
          × (IsPart r.1.tried installs
              ⊎ ((found : String × String × String) × (access duckdb environ ≡ ok found)
                  × (r.1.tried ≡ installs ++ secret_statement found ∷ []))
              ⊎ ((found : String × String × String) × (bucket : String) × Settings found bucket
                  × (r.1.tried ≡ installs ++ secret_statement found ∷ asked query bucket ∷ []))))

  -- A state after some statements.
  abbrev after_ : W → List Statement → Shell W
  after_ w tried = record { world = w; tried = tried; printed = [] }

  -- The script from the lookup of the bucket on.
  abbrev asking : C → String → W → String × String × String → Result ℕ × Shell W
  asking con query w found =
      let (r, s) =
        continue {B = ℕ}
          (required (environ "R2_BUCKET"), after_ w (installs ++ secret_statement found ∷ []))
          λ bucket s₃.
            continue {B = ℕ}
              (execute duckdb environ con (replace query "${R2_BUCKET}" bucket, []) s₃)
              λ answer s₄. (ok 0, record s₄ { printed = s₄.printed ++ shown answer }) in
      (exit_code r, s)

  asked-Ends :
      (con : C) (query : String) (w : W) (found : String × String × String)
      → access duckdb environ ≡ ok found
      → Ends query (asking con query w found)
  asked-Ends con query w found wired = elim (Result-cases (required (environ "R2_BUCKET"))) [
    | inr (e, missing) ↦ rw missing (inr (exit_code-raise e, refl, inr (inl (found, wired, refl))))
    | inl (bucket, set) ↦
        elim (execute-cases con (asked query bucket)
          (after_ w (installs ++ secret_statement found ∷ []))) [
            | inl (e, w', failed) ↦
                rw (set, failed)
                  (inr (exit_code-raise e, refl, inr (inr (found, bucket, (wired, refl), refl))))
            | inr (answer, w', replied, done) ↦
                rw (set, done)
                  (inl (found, bucket, con, w, answer, (wired, refl), refl, replied, refl, refl))
          ]
  ]

  -- From a state in which nothing was run or printed, the script, given a query or its default one,
  -- ends in one of two ways. It returns 0: DuckDB was set up, the secret registered and the query
  -- run, in this order and with the settings of the environment, and what is printed is the answer
  -- to the query. Or it does not return 0: nothing is printed, and what was run is a first part of
  -- these statements.
  pub main-Ends :
      (query : Option String) (w : W)
      → Ends
          (query_of query)
          (main duckdb environ replace (ok query) (record { world = w; tried = []; printed = [] }))
  unfolding main run wire_duckdb_for_r2
  main-Ends query w = elim (Result-cases (duckdb.connect w).0) [
    | inr (e, refused) ↦ rw refused (inr (exit_code-raise e, refl, inl (installs, refl)))
    | inl (con, open_) ↦ elim (execute-cases con install_iceberg (after_ (duckdb.connect w).1 [])) [
      | inl (e, w₁, f) ↦
          rw (open_, f)
            (inr (exit_code-raise e, refl, inl (install_httpfs ∷ guess_version ∷ [], refl)))
      | inr (_, w₁, _, f) ↦
          elim (execute-cases con install_httpfs (after_ w₁ (install_iceberg ∷ []))) [
            | inl (e, w₂, g) ↦
                rw (open_, f, g) (inr (exit_code-raise e, refl, inl (guess_version ∷ [], refl)))
            | inr (_, w₂, _, g) ↦
                elim (execute-cases con guess_version
                  (after_ w₂ (install_iceberg ∷ install_httpfs ∷ []))) [
                    | inl (e, w₃, h) ↦
                        rw (open_, f, g, h) (inr (exit_code-raise e, refl, inl ([], refl)))
                    | inr (_, w₃, _, h) ↦ elim (Result-cases (access duckdb environ)) [
                      | inr (e, missing) ↦
                          rw (open_, f, g, h, missing)
                            (inr (exit_code-raise e, refl, inl ([], refl)))
                      | inl (found, wired) ↦
                          elim (execute-cases con (secret_statement found) (after_ w₃ installs)) [
                            | inl (e, w₄, i) ↦
                                rw (open_, f, g, h, wired, i)
                                  (inr (exit_code-raise e, refl, inr (inl (found, refl, refl))))
                            | inr (_, w₄, _, i) ↦
                                let script =
                                  main duckdb environ replace (ok query)
                                    (record { world = w; tried = []; printed = [] }) in
                                let same : script ≡ asking con (query_of query) w₄ found =
                                  rw (open_, f, g, h, wired, i) refl in
                                subst (Ends (query_of query)) (sym same)
                                  (asked-Ends con (query_of query) w₄ found wired)
                          ]
                    ]
                  ]
          ]
    ]
  ]
