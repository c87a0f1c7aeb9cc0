-- ===== src/Storage/Pool.antt =====
-- `get_pool` and `close_pool` of gridpulse/storage/postgres.py: the process-wide pool. The
-- environment, psycopg's `ConnectionPool` and its `close` are parameters.
use gridpulse.Prelude.{
  String, Option, none, some, Result, ok, raise, runtime_error, Exec, continue, str_eq,
  if◌then◌else◌,
}

-- `P` is the type of pools, `D` that of what the database holds.
pub record Process (P D : Type 0) : Type 0 where
  pub pool : Option P
  pub db : D

-- `os.environ.get(name)`, taken as unset where the text is empty, which is how the code tests it
abbrev pub truthy : Option String → Option String
truthy none = none
truthy (some s) = if str_eq s "" then none else some s

module _ {P D : Type 0} (environ : String → Option String) (new_pool : String → Result P) where
  abbrev open_pool : Option String → Exec (Process P D) P
  open_pool none s = (raise runtime_error, s)
  open_pool (some dsn) s = elim (new_pool dsn) [
    | ok p ↦ (ok p, record s { pool = some p })
    | raise e ↦ (raise e, s)
  ]

  abbrev keep_or_open : Option P → Exec (Process P D) P
  keep_or_open (some p) s = (ok p, s)
  keep_or_open none s = open_pool (truthy (environ "DATABASE_URL")) s

  unfoldable pub get_pool : Exec (Process P D) P
  get_pool s = keep_or_open s.pool s

module _ {P D : Type 0} (close : P → Result (Unit {0})) where
  abbrev close_open : Option P → Exec (Process P D) (Unit {0})
  close_open none s = (ok tt, s)
  close_open (some p) s = continue (close p, s) (λ _ s'. (ok tt, record s' { pool = none }))

  unfoldable pub close_pool : Exec (Process P D) (Unit {0})
  close_pool s = close_open s.pool s
