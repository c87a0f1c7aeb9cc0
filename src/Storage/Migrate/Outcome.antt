-- ===== src/Storage/Migrate/Outcome.antt =====
-- What `apply_migrations` leaves, and that running it again does nothing.
use mathlib.Core.List.{append-nil, append_assoc}
use mathlib.Core.Path.{subst}
use gridpulse.Prelude.{
  ℕ, ◌+◌, String, ◌≡◌, ◌≢◌, refl, ap, ap₂, sym, ◌∙◌, Bool, true, false, Option, some, List, [], ◌∷◌,
  ◌++◌, Result, ok, raise, Exc, ◌>>=◌, >>=-eq-ok, ok-injective, ok-ne-raise, inl, inr, Bool-cases,
  arith, if◌then◌else◌, length, map, ◌||◌, str_eq, eq_iff,
}
use gridpulse.Storage.Pool.{truthy}
use gridpulse.Storage.Migrate.{
  Migration, MigrationDb, member, insert, sorted, migrate, bootstrap, or_empty, inserted,
  apply_migrations, or_else, with_files,
}
use gridpulse.Storage.Migrate.Progress.{pending, whole, Progress, apply_each-Progress}

insert-cons : (m : Migration) (ms : List Migration) → insert m ms ≢ []
unfolding insert
insert-cons m [] h = cc
insert-cons m (x ∷ xs) h = ground arith

member-append_left :
    (v : String) (xs ys : List String) → member v xs ≡ true → member v (xs ++ ys) ≡ true
unfolding member
member-append_left v [] ys h = cc
member-append_left v (x ∷ xs) ys h = elim (Bool-cases (str_eq x v)) [
  | inl e ↦ rw e
  | inr e ↦ rw e (member-append_left v xs ys (rw e at h))
]

member-append_right :
    (v : String) (xs ys : List String) → member v ys ≡ true → member v (xs ++ ys) ≡ true
unfolding member
member-append_right v [] ys h = h
member-append_right v (x ∷ xs) ys h = elim (Bool-cases (str_eq x v)) [
  | inl e ↦ rw e
  | inr e ↦ rw e (member-append_right v xs ys h)
]

-- Once the pending files are recorded too, nothing is pending.
pending_done :
    (before : List String) (files : List Migration) (vs : List String)
    → ((v : String) → member v before ≡ true → member v vs ≡ true)
    → ((v : String)
        → member v (map (λ m. m.stem) (pending before files)) ≡ true
        → member v vs ≡ true)
    → pending vs files ≡ []
unfolding member
pending_done before [] vs old new = refl
pending_done before (m ∷ ms) vs old new = elim (Bool-cases (member m.stem before)) [
  | inl there ↦ rw (old m.stem there) (pending_done before ms vs old (rw there at new))
  | inr fresh ↦
      let new' : (v : String)
          → (str_eq m.stem v || member v (map (λ x. x.stem) (pending before ms))) ≡ true
          → member v vs ≡ true =
        rw fresh at new in
      rw (new' m.stem (rw ((eq_iff m.stem m.stem).1 refl)))
        (pending_done before ms vs old (λ v h. new' v (ground (arith, h))))
]

module _ {S : Type 0} (run_sql : String → S → Result S) where
  whole-versions :
      (m : Migration) (d d₁ : MigrationDb S) (vs : List String)
      → d.versions ≡ some vs
      → whole run_sql m d ≡ ok d₁
      → d₁.versions ≡ some (vs ++ m.stem ∷ [])
  unfolding migrate
  whole-versions m d d₁ vs e h =
      let (sql, _, h₁) = >>=-eq-ok m.read_text (λ x. migrate run_sql m.stem x d) h in
      let (schema, _, h₂) =
        >>=-eq-ok (run_sql sql d.schema)
          (λ x. inserted m.stem d.versions >>= λ v. ok (record { schema = x; versions = some v }))
          h₁ in
      let (v, h₃, h₄) =
        >>=-eq-ok (inserted m.stem d.versions)
          (λ w. ok (record { schema = schema; versions = some w })) h₂ in
      let h₅ : inserted m.stem (some vs) ≡ ok v = subst (λ o. inserted m.stem o ≡ ok v) e h₃ in
      sym (ap (λ (x : MigrationDb S). x.versions) (ok-injective h₄))
      ∙ ap some (new_versions (member m.stem vs) h₅)
    where
      new_versions :
          {v : List String} (b : Bool)
          → (if b then raise Exc.integrity_error else ok (vs ++ m.stem ∷ [])) ≡ ok v
          → v ≡ vs ++ m.stem ∷ []
      new_versions true h = cc
      new_versions false h = sym (ok-injective h)

  -- Progress that returned applied every migration of the list, in its order.
  Progress-ok :
      (ms : List Migration) (n k : ℕ) (d d' : MigrationDb S) (vs : List String)
      → d.versions ≡ some vs
      → Progress run_sql ms n d (ok k) d'
      → (k ≡ n + length ms) × (d'.versions ≡ some (vs ++ map (λ m. m.stem) ms))
  Progress-ok [] n k d d' vs e (h, p) = (ok-injective h ∙ omega arith, rw (p, e, append-nil))
  Progress-ok (m ∷ ms) n k d d' vs e (inl (d₁, h, p)) =
      let (q, r) =
        Progress-ok ms (n + 1) k d₁ d' (vs ++ m.stem ∷ []) (whole-versions m d d₁ vs e h) p in
      (omega arith, r ∙ ap some (append_assoc vs (m.stem ∷ []) (map (λ x. x.stem) ms)))
  Progress-ok (m ∷ ms) n k d d' vs e (inr (x, h, r, p)) = absurd (ok-ne-raise r)

  module _ (environ : String → Option String) (connect : String → Result (Unit {0}))
      (url : Option String) where
    abbrev run_migrations : List Migration → MigrationDb S → Result ℕ × MigrationDb S
    run_migrations = apply_migrations run_sql environ connect url

    -- The database is given, by the argument or by the environment, and it can be reached.
    pub record IsReachable : Type 0 where
      pub address : String
      pub named : or_else (truthy url) (truthy (environ "DATABASE_URL")) ≡ some address
      pub connects : connect address ≡ ok tt

    files-Progress :
        (fs : List Migration) (d : MigrationDb S)
        → fs ≢ []
        → let x = with_files run_sql (ok tt) fs d in
          Progress run_sql (pending (or_empty d.versions) fs) 0 (bootstrap d) x.0 x.1
    files-Progress [] d h = absurd (h refl)
    files-Progress (m ∷ ms) d h =
        apply_each-Progress run_sql (or_empty d.versions) (m ∷ ms) 0 (bootstrap d)

    -- Where the database is named and can be reached, and there is a migration file: the
    -- migrations whose version is not recorded are applied in the order of their paths, each in
    -- full; the first that fails ends the run with its exception, and leaves what those before it
    -- made, with their versions recorded and not its own.
    pub apply_migrations-Progress :
        (m : Migration) (ms : List Migration) (d : MigrationDb S)
        → IsReachable
        → let x = run_migrations (m ∷ ms) d in
          Progress run_sql (pending (or_empty d.versions) (sorted (m ∷ ms))) 0 (bootstrap d) x.0 x.1
    unfolding apply_migrations
    apply_migrations-Progress m ms d r =
        rw (r.named, r.connects) (files-Progress (sorted (m ∷ ms)) d (insert-cons m (sorted ms)))

    bootstrap_done : (d : MigrationDb S) (vs : List String) → d.versions ≡ some vs → bootstrap d ≡ d
    unfolding bootstrap
    bootstrap_done d vs e =
        ap (λ v. record d { versions = v }) (ap (λ o. some (or_empty o)) e ∙ sym e)

    versions-bootstrap : (d : MigrationDb S) → (bootstrap d).versions ≡ some (or_empty d.versions)
    unfolding bootstrap
    versions-bootstrap d = refl

    -- nothing pending, nothing done
    nothing_pending :
        (ms : List Migration) (d : MigrationDb S) (x : Result ℕ × MigrationDb S)
        → ms ≡ []
        → Progress run_sql ms 0 d x.0 x.1
        → x ≡ (ok 0, d)
    nothing_pending [] d (r, d') e (h, p) = ap₂ (λ a b. (a, b)) h p
    nothing_pending (m ∷ ms) d x e h = cc

    -- Where the database is named and can be reached, and there is a migration file: a run that
    -- returns gives the number of migrations that were pending, and has recorded exactly their
    -- versions, after those there were. A second run then finds nothing to do: it returns 0 and
    -- leaves the database as it is.
    pub apply_migrations_complete :
        (m : Migration) (ms : List Migration) (d d' : MigrationDb S) (k : ℕ)
        → IsReachable
        → run_migrations (m ∷ ms) d ≡ (ok k, d')
        → let todo = pending (or_empty d.versions) (sorted (m ∷ ms)) in
          (k ≡ length todo)
          × (d'.versions ≡ some (or_empty d.versions ++ map (λ x. x.stem) todo))
          × (run_migrations (m ∷ ms) d' ≡ (ok 0, d'))
    apply_migrations_complete m ms d d' k r h =
        let fs = sorted (m ∷ ms) in
        let before = or_empty d.versions in
        let todo = pending before fs in
        let after = before ++ map (λ x. x.stem) todo in
        let p =
          subst (λ (x : Result ℕ × MigrationDb S). Progress run_sql todo 0 (bootstrap d) x.0 x.1) h
            (apply_migrations-Progress m ms d r) in
        let (e, v) = Progress-ok todo 0 k (bootstrap d) d' before (versions-bootstrap d) p in
        let none_left : pending (or_empty d'.versions) fs ≡ [] =
          subst (λ o. pending (or_empty o) fs ≡ []) (sym v)
            (pending_done before fs after
              (λ x q. member-append_left x before (map (λ y. y.stem) todo) q)
              (λ x q. member-append_right x before (map (λ y. y.stem) todo) q)) in
        (
          e ∙ omega arith,
          v,
          nothing_pending (pending (or_empty d'.versions) fs) (bootstrap d') _ none_left
                (apply_migrations-Progress m ms d' r)
              ∙ ap (λ x. (ok 0, x)) (bootstrap_done d' after v),
        )
