-- ===== src/Prelude/Text.antt =====
-- Decimal numerals, as Python's `str` writes them.
use Prim.Native.Nat.{ℕ, zero, suc, ◌+◌, ◌/◌, ◌%◌}
use Prim.Native.String.{String, slice, ◌++◌}
use gridpulse.Prelude.Tests.{ltb, if◌then◌else◌}

abbrev digit : ℕ → String
digit d = slice "0123456789" d (d + 1)

-- The fuel is one more than the number, which has no more digits than that.
decimal : ℕ → ℕ → String
decimal zero n = ""
decimal (suc fuel) n =
    let rest = decimal fuel (n / 10) in if ltb n 10 then digit n else rest ++ digit (n % 10)

-- `str(n)`
unfoldable pub str : ℕ → String
unfolding decimal
str n = decimal (suc n) n
