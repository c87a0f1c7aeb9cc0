-- ===== src/Api/Health/Probe.antt =====
-- What the health endpoint says.
use gridpulse.Prelude.{
  ℕ, ◌≡◌, refl, String, true, false, Option, some, List, Result, ok, raise, is_exception,
}
use gridpulse.Api.Health.{Row, db_ok, healthz, getenv}

-- What `SELECT 1` gives on a connection of psycopg: the one row, made by the factory, or an
-- exception.
abbrev pub select_one : Result (List (String × ℕ)) → (List (String × ℕ) → Row) → Result (Option Row)
select_one (ok columns) factory = ok (some (factory columns))
select_one (raise e) factory = raise e

abbrev Survives : Result (List (String × ℕ)) → Type 0
Survives (ok columns) = Unit
Survives (raise e) = is_exception e ≡ true

db_ok-false :
    (connection : Result (List (String × ℕ)))
    → Survives connection
    → db_ok (select_one connection) ≡ ok false
unfolding db_ok
db_ok-false (ok columns) h = refl
db_ok-false (raise e) h = rw h refl

-- Whether the database answers or the connection raises an `Exception`, the endpoint reports a
-- degraded service and a failing database.
pub healthz_always_degraded :
    (environ : String → Option String) (first second : Result (List (String × ℕ)))
    → Survives first
    → Survives second
    → healthz environ (select_one first) (select_one second)
      ≡ ok (record {
        status = "degraded";
        db = "fail";
        version = getenv (environ "GIT_SHA") "dev";
        environment = getenv (environ "ENVIRONMENT") "local";
      })
unfolding healthz
healthz_always_degraded environ first second h k =
    rw (db_ok-false first h, db_ok-false second k) refl
