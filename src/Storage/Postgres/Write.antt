-- ===== src/Storage/Postgres/Write.antt =====
-- What the three `upsert_…_rows` functions of gridpulse/storage/postgres.py share: nothing at all
-- for no rows, else one transaction on a connection of the pool, and the number of rows.
use gridpulse.Prelude.{
  ℕ, String, ◌≡◌, ◌∙◌, Option, List, [], ◌∷◌, Result, ok, Exec, continue, length, Result-cases, inl,
  inr, ◌>>=◌,
}
use gridpulse.Storage.Keyed.Batch.{run}
use gridpulse.Storage.Pool.{Process, get_pool}
use gridpulse.Storage.Postgres.{Db, Driver}

module _ {P F R : Type 0} (driver : Driver P F R) where
  open driver use {
    executemany, executemany_none, executemany_step, executemany_stop, connection, available,
    commits, rolls_back, refuses,
  }

  -- psycopg's `executemany` is the loop that its documentation describes.
  pub executemany-run :
      {V : Type 0} (f : V → Db R → Result (Db R)) (vs : List V) (d : Db R)
      → executemany f vs d ≡ run f vs d
  unfolding run
  executemany-run f [] d = executemany_none f d
  executemany-run f (v ∷ vs) d = elim (Result-cases (f v d)) [
    | inl (m, e) ↦ rw e (executemany_step f v vs d m e ∙ executemany-run f vs m)
    | inr (x, e) ↦ rw e (executemany_stop f v vs d x e)
  ]

  module _ {V : Type 0} (statement : V → Db R → Result (Db R)) where
    -- the body of the `with` block
    abbrev pub block : List V → Db R → Result (Unit {0} × Db R)
    block payload d = do d' ← executemany statement payload d; ok (tt, d')

    -- `with pool.connection() as conn, conn.cursor() as cur: cur.executemany(…)`
    abbrev pub transact : List V → P → Exec (Process P (Db R)) (Unit {0})
    transact payload pool s =
        let (r, d) = connection pool (block payload) s.db in (r, record s { db = d })

    module _ (environ : String → Option String) (new_pool : String → Result P) where
      unfoldable pub write_rows : List V → Exec (Process P (Db R)) ℕ
      write_rows [] s = (ok 0, s)
      write_rows (v ∷ vs) s =
          continue (get_pool environ new_pool s)
            λ pool s'. continue (transact (v ∷ vs) pool s') λ _ s''. (ok (length (v ∷ vs)), s'')
