-- ===== src/Api/Health.antt =====
-- `db_ok` of gridpulse/api/queries.py and `healthz` of gridpulse/api/main.py. A pool and its
-- connections, whose row factory gives a query's row as a dict or as a tuple, are parameters.
pub mod Probe
use gridpulse.Prelude.{
  ℕ, ◌==◌, ◌&&◌, ◌≡◌, String, Bool, true, false, Option, none, some, List, [], ◌∷◌, Result, ok,
  raise, Exc, ◌>>=◌, is_exception, if◌then◌else◌, str_eq,
}

-- What a row is under `dict_row`, and under psycopg's default, `tuple_row`.
pub data Row : Type 0 where
  dict : List (String × ℕ) → Row
  tuple : List ℕ → Row

unfoldable pub same_values : List ℕ → List ℕ → Bool
same_values [] [] = true
same_values (x ∷ xs) (y ∷ ys) = x == y && same_values xs ys
same_values [] (y ∷ ys) = false
same_values (x ∷ xs) [] = false

-- `row == (1,)`: a dict never equals a tuple, nor does None
abbrev pub is_one : Option Row → Bool
is_one none = false
is_one (some (dict row)) = false
is_one (some (tuple row)) = same_values row (1 ∷ [])

-- `except Exception` gives False
abbrev pub fail_closed : Result Bool → Result Bool
fail_closed (ok b) = ok b
fail_closed (raise e) = if is_exception e then ok false else raise e

-- The parameters that `get_pool` gives the connections of the pool: `row_factory` makes a row of
-- the columns' names and values.
abbrev pub row_factory : List (String × ℕ) → Row
row_factory columns = dict columns

-- `query factory` is what `SELECT 1` and `fetchone` give on a connection of the pool, with its rows
-- made by `factory`.
unfoldable pub db_ok : ((List (String × ℕ) → Row) → Result (Option Row)) → Result Bool
unfolding same_values
db_ok query = fail_closed do row ← query row_factory; ok (is_one row)

pub record Health : Type 0 where
  pub status : String
  pub db : String
  pub version : String
  pub environment : String

abbrev pub getenv : Option String → String → String
getenv none default = default
getenv (some value) default = value

-- `first` and `second` are the outcomes of the two queries that it makes
unfoldable pub healthz :
    (String → Option String)
    → ((List (String × ℕ) → Row) → Result (Option Row))
    → ((List (String × ℕ) → Row) → Result (Option Row))
    → Result Health
unfolding db_ok
healthz environ first second = do
  one ← db_ok first
  two ← db_ok second
  ok (record {
    status = if one then "ok" else "degraded";
    db = if two then "ok" else "fail";
    version = getenv (environ "GIT_SHA") "dev";
    environment = getenv (environ "ENVIRONMENT") "local";
  })
