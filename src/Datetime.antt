-- ===== src/Datetime.antt =====
-- The part of Python's `datetime` that the program uses. A `datetime` is a wall-clock reading, in
-- microseconds since 0001-01-01, with an optional offset from UTC. A `timedelta` is a number of
-- microseconds.
use gridpulse.Prelude.{
  ℕ, ◌+◌, ◌-◌, ◌*◌, Bool, true, false, Option, none, some, leb, ltb, Result, ok, raise, type_error,
}

-- An offset of a zone: the time that its clocks are ahead of UTC, or behind it.
pub data Offset : Type 0 where
  ahead behind : ℕ → Offset

pub record DateTime : Type 0 where
  pub wall : ℕ
  pub tzinfo : Option Offset

abbrev pub utc : Offset
utc = ahead 0

abbrev pub hour_us : ℕ
hour_us = 3_600_000_000

abbrev pub day_us : ℕ
day_us = 24 * hour_us

-- The instant on the UTC clock, counted from one day before 0001-01-01, so that an offset of less
-- than a day (Python allows no other) never takes it below 0.
abbrev pub shifted : ℕ → Offset → ℕ
shifted w (ahead o) = w + day_us - o
shifted w (behind o) = w + day_us + o

abbrev pub position : ℕ → Option Offset → ℕ
position w none = w + day_us
position w (some o) = shifted w o

abbrev pub instant : DateTime → ℕ
instant d = position d.wall d.tzinfo

abbrev pub is_aware : DateTime → Bool
is_aware d = elim d.tzinfo [ none ↦ false | some _ ↦ true ]

-- `d.replace(tzinfo=UTC)`: the reading stays, its meaning changes.
abbrev pub replace_utc : DateTime → DateTime
replace_utc d = record d { tzinfo = some utc }

-- Python refuses to order or to subtract a naive and an aware `datetime`.
abbrev pub same_kind : {A : Type 0} → Option Offset → Option Offset → A → Result A
same_kind none none a = ok a
same_kind (some _) (some _) a = ok a
same_kind none (some _) a = raise type_error
same_kind (some _) none a = raise type_error

-- `a <= b`
unfoldable pub at_most : DateTime → DateTime → Result Bool
at_most a b = same_kind a.tzinfo b.tzinfo (leb (instant a) (instant b))

-- `b - a > span`
unfoldable pub longer_than : DateTime → DateTime → ℕ → Result Bool
longer_than a b span = same_kind a.tzinfo b.tzinfo (ltb (instant a + span) (instant b))
