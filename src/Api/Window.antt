-- ===== src/Api/Window.antt =====
-- `_parse_window` of gridpulse/api/routes/json_api.py.
use gridpulse.Prelude.{
  ℕ, ◌+◌, ◌≤◌, ◌<◌, ◌≡◌, refl, ◌⊎◌, inl, inr, true, not, ◌||◌, Option, none, some, leb→le, ltb→lt,
  leb-false, ltb-false, Result, ok, raise, http_exception, ◌>>=◌, arith, leb, ltb, if◌then◌else◌,
  Bool-cases,
}
use gridpulse.Datetime.{DateTime, instant, is_aware, at_most, longer_than, Offset, shifted}
use gridpulse.Api.Queries.{max_range_us}

unfoldable pub parse_window : DateTime → DateTime → Result (DateTime × DateTime)
unfolding at_most longer_than
parse_window from_ to =
    if not (is_aware from_) || not (is_aware to) then raise (http_exception 400) else do
      empty ← at_most to from_
      if empty then raise (http_exception 400) else do
        long ← longer_than from_ to max_range_us
        if long then raise (http_exception 400) else ok (from_, to)

-- Both ends are aware, and the window is not empty and at most 14 days long.
pub record IsWindow (from_ to : DateTime) : Type 0 where
  pub from_aware : is_aware from_ ≡ true
  pub to_aware : is_aware to ≡ true
  pub ordered : instant from_ < instant to
  pub short : instant to ≤ instant from_ + max_range_us

abbrev Decides : DateTime → DateTime → Type 0
Decides from_ to =
    (IsWindow from_ to × (parse_window from_ to ≡ ok (from_, to)))
    ⊎ ((¬ IsWindow from_ to) × (parse_window from_ to ≡ raise (http_exception 400)))

decides :
    (w v : ℕ) (o p : Option Offset)
    → Decides (record { wall = w; tzinfo = o }) (record { wall = v; tzinfo = p })
unfolding parse_window
decides w v none p = inr (λ h. cc (h.from_aware), refl)
decides w v (some o) none = inr (λ h. cc (h.to_aware), refl)
decides w v (some o) (some p) = elim (Bool-cases (leb (shifted v p) (shifted w o))) [
  | inl empty ↦ inr (λ h. absurd (omega (arith, leb→le _ _ empty, h.ordered)), rw empty)
  | inr ordered ↦ elim (Bool-cases (ltb (shifted w o + max_range_us) (shifted v p))) [
    | inl long ↦ inr (λ h. absurd (omega (arith, ltb→lt _ _ long, h.short)), rw (ordered, long))
    | inr short ↦ inl (
      record {
        from_aware = refl;
        to_aware = refl;
        ordered = leb-false _ _ ordered;
        short = ltb-false _ _ short;
      },
      rw (ordered, short),
    )
  ]
]

-- A window is passed on as it is, and whatever is no window is answered with status 400; comparing
-- and subtracting the two times never raises TypeError.
pub parse_window_decides :
    (from_ to : DateTime)
    → (IsWindow from_ to × (parse_window from_ to ≡ ok (from_, to)))
      ⊎ ((¬ IsWindow from_ to) × (parse_window from_ to ≡ raise (http_exception 400)))
parse_window_decides from_ to = decides from_.wall to.wall from_.tzinfo to.tzinfo
