-- ===== src/Examples/Query.antt =====
-- The query script at a DuckDB that always answers.
use gridpulse.Prelude.{ℕ, suc, String, none, [], ◌∷◌, ok}
use gridpulse.Lake.Query.{Answer, DuckDb, query_of, main}
use gridpulse.Lake.Query.Order.{Ends, main-Ends}
use gridpulse.Examples.Memory.{environ}

abbrev months : Answer
months = record { columns = "month" ∷ "half_hours" ∷ []; rows = ("2026-10-01" ∷ "1488" ∷ []) ∷ [] }

-- Its world counts the statements.
abbrev counting : DuckDb ℕ (Unit {0})
counting = record { connect = λ n. (ok tt, n); execute = λ con statement n. (ok months, suc n) }

abbrev unchanged : String → String → String → String
unchanged query old new = query

main-Ends_example :
    Ends counting environ unchanged
      (query_of none)
      (main counting environ unchanged (ok none) (record { world = 0; tried = []; printed = [] }))
main-Ends_example = main-Ends counting environ unchanged none 0
