-- ===== src/Api/App.antt =====
-- gridpulse/api/main.py: the pool at the start and the end of the application, and what is answered
-- to an error.
use gridpulse.Prelude.{
  ℕ, String, Bool, Option, List, [], ◌∷◌, Result, ok, raise, Exec, if◌then◌else◌,
}
use gridpulse.Heartbeat.{swallowed}
use gridpulse.Storage.Pool.{Process, get_pool, close_pool}

abbrev logged : {P : Type 0} → Result P → Result (Unit {0})
logged (ok pool) = ok tt
logged (raise e) = swallowed (raise e)

module _ {P D : Type 0} where
  -- up to the `yield` of `_lifespan`, and from it on
  unfoldable pub start_up :
      (String → Option String) → (String → Result P) → Exec (Process P D) (Unit {0})
  unfolding get_pool
  start_up environ new_pool s = let (r, s') = get_pool environ new_pool s in (logged r, s')

  unfoldable pub shut_down : (P → Result (Unit {0})) → Exec (Process P D) (Unit {0})
  unfolding close_pool
  shut_down close s = let (r, s') = close_pool close s in (swallowed r, s')

-- An answer: a status with a template of the pages, with a JSON body of one detail and headers, or
-- the one that FastAPI gives for the exception.
pub data Answer : Type 0 where
  html : ℕ → (template : String) → Answer
  detail : ℕ → String → (headers : List (String × String)) → Answer
  of_exception : Answer

-- `starts_with prefix text` is `text.startswith(prefix)`
module _ (starts_with : String → String → Bool) (path : String) where
  unfoldable pub not_found : Answer
  not_found = if starts_with "/api/" path then of_exception else html 404 "404.html"

  unfoldable pub server_error : Answer
  server_error =
      if starts_with "/api/" path
      then detail 500 "internal server error" []
      else html 500 "500.html"

unfoldable pub rate_limit_exceeded : Answer
rate_limit_exceeded =
    detail 429 "rate limit exceeded — try again shortly" (("Retry-After", "60") ∷ [])
