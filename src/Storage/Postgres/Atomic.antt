-- ===== src/Storage/Postgres/Atomic.antt =====
-- An upsert of rows is all or nothing.
use gridpulse.Prelude.{
  ℕ, String, ◌≡◌, refl, ap, sym, true, Option, some, List, [], ◌∷◌, Result, ok, raise, Exc, Exec,
  continue, length, ok-injective, Result-cases, Bool-cases, inl, inr, arith,
}
use mathlib.Core.Path.{subst}
use gridpulse.Storage.Keyed.Batch.{run, run-keeps}
use gridpulse.Storage.Pool.{Process, get_pool}
use gridpulse.Storage.Postgres.{Db, Driver}
use gridpulse.Storage.Postgres.Write.{executemany-run, block, transact, write_rows}

module _ {P D : Type 0} (environ : String → Option String) (new_pool : String → Result P) where
  -- Asking for the pool never touches the database.
  pub db-get_pool : (s : Process P D) → (get_pool environ new_pool s).1.db ≡ s.db
  unfolding get_pool
  db-get_pool s = ground arith

  pub get_pool_kept :
      (s : Process P D) (p : P) → s.pool ≡ some p → get_pool environ new_pool s ≡ (ok p, s)
  unfolding get_pool
  get_pool_kept s p h = rw h

module _ {P F R : Type 0} (driver : Driver P F R) {V : Type 0}
    (statement : V → Db R → Result (Db R)) where
  open driver use {available, commits, rolls_back, refuses}

  block-ok :
      (vs : List V) (d d' : Db R)
      → run statement vs d ≡ ok d'
      → block driver statement vs d ≡ ok (tt, d')
  block-ok vs d d' h = rw (executemany-run driver statement vs d, h)

  block-raise :
      (vs : List V) (d : Db R) (e : Exc)
      → run statement vs d ≡ raise e
      → block driver statement vs d ≡ raise e
  block-raise vs d e h = rw (executemany-run driver statement vs d, h)

  -- Either all the statements ran and were committed, or the database is as it was.
  abbrev pub AllOrNothing : {A : Type 0} → List V → Db R → A → Result A × Process P (Db R) → Type 0
  AllOrNothing vs d a (ok b, s) = (b ≡ a) × (run statement vs d ≡ ok s.db)
  AllOrNothing vs d a (raise e, s) = s.db ≡ d

  transact_outcome :
      (vs : List V) (p : P) (s : Process P (Db R))
      → AllOrNothing vs s.db tt (transact driver statement vs p s)
  transact_outcome vs p s = elim (Bool-cases (available p s.db)) [
    | inr closed ↦ let (e, h) = refuses p (block driver statement vs) s.db closed in rw h refl
    | inl open_ ↦ elim (Result-cases (run statement vs s.db)) [
      | inl (d, e) ↦
          rw (commits p (block driver statement vs) s.db d tt open_ (block-ok vs s.db d e))
            (refl, e)
      | inr (x, e) ↦
          rw (rolls_back p (block driver statement vs) s.db x open_ (block-raise vs s.db x e)) refl
    ]
  ]

  module _ (environ : String → Option String) (new_pool : String → Result P) where
    abbrev write : List V → Exec (Process P (Db R)) ℕ
    write = write_rows driver statement environ new_pool

    rest_outcome :
        (vs : List V) (d : Db R) (r : Result (Unit {0}) × Process P (Db R))
        → AllOrNothing vs d tt r
        → AllOrNothing vs d (length vs) (continue r λ _ s. (ok (length vs), s))
    rest_outcome vs d (ok u, s) h = (refl, h.1)
    rest_outcome vs d (raise e, s) h = h

    pooled_outcome :
        (vs : List V) (d : Db R) (r : Result P × Process P (Db R))
        → r.1.db ≡ d
        → AllOrNothing vs d (length vs) (
            continue r λ pool s'.
              continue (transact driver statement vs pool s') λ _ s''. (ok (length vs), s''))
    pooled_outcome vs d (raise e, s) h = h
    pooled_outcome vs d (ok p, s) h = rw (← h) (rest_outcome vs s.db _ (transact_outcome vs p s))

    -- An upsert returns the number of its rows, all of them written, or raises and has written
    -- nothing.
    pub write_rows-AllOrNothing :
        (vs : List V) (s : Process P (Db R)) → AllOrNothing vs s.db (length vs) (write vs s)
    unfolding write_rows
    write_rows-AllOrNothing [] s = (refl, unfold run in refl)
    write_rows-AllOrNothing (v ∷ vs) s =
        pooled_outcome (v ∷ vs) s.db (get_pool environ new_pool s) (db-get_pool environ new_pool s)

    -- What an upsert that returned has written.
    pub write_rows-run :
        (vs : List V) (s s' : Process P (Db R)) (n : ℕ)
        → write vs s ≡ (ok n, s')
        → (n ≡ length vs) × (run statement vs s.db ≡ ok s'.db)
    write_rows-run vs s s' n h =
        subst (AllOrNothing vs s.db (length vs)) h (write_rows-AllOrNothing vs s)

    kept :
        (Keeps : Db R → Type 0) (vs : List V) (d : Db R) (n : ℕ) (r : Result ℕ × Process P (Db R))
        → ((v : V) (a b : Db R) → statement v a ≡ ok b → Keeps a → Keeps b)
        → Keeps d
        → AllOrNothing vs d n r
        → Keeps r.1.db
    kept Keeps vs d n (ok m, s) step h q =
        run-keeps (λ a b. Keeps a → Keeps b) statement (λ a k. k) (λ a b c p p' k. p' (p k)) step vs
          d s.db q.1 h
    kept Keeps vs d n (raise e, s) step h q = subst Keeps (sym q) h

    -- What each statement keeps, an upsert keeps, whether it returns or raises.
    pub write_rows-keeps :
        (Keeps : Db R → Type 0) (vs : List V) (s : Process P (Db R))
        → ((v : V) (a b : Db R) → statement v a ≡ ok b → Keeps a → Keeps b)
        → Keeps s.db
        → Keeps (write vs s).1.db
    write_rows-keeps Keeps vs s step h =
        kept Keeps vs s.db (length vs) (write vs s) step h (write_rows-AllOrNothing vs s)

    -- With an open pool that has a connection, a batch whose statements all succeed is written.
    pub write_rows_succeeds :
        (vs : List V) (s : Process P (Db R)) (p : P) (d : Db R)
        → s.pool ≡ some p
        → available p s.db ≡ true
        → run statement vs s.db ≡ ok d
        → write vs s ≡ (ok (length vs), record s { db = d })
    unfolding write_rows run
    write_rows_succeeds [] s p d pooled open_ e =
        ap (λ x. (ok 0, record s { db = x })) (ok-injective e)
    write_rows_succeeds (v ∷ vs) s p d pooled open_ e =
        rw (get_pool_kept environ new_pool s p pooled) (
          rw
            (commits p (block driver statement (v ∷ vs)) s.db d tt open_
              (block-ok (v ∷ vs) s.db d e))
            refl)
