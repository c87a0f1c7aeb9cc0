-- ===== src/Contracts/Neso/Rows.antt =====
-- Times in the NESO contract: what the validator makes of a date.
use gridpulse.Prelude.{
  ℕ, ◌+◌, ◌<◌, ◌≡◌, refl, ap, ◌∙◌, sym, Bool, if◌then◌else◌, true, false, String, some, Result, ok,
  >>=-eq-ok, arith, ◌⊎◌, inl, inr, ok-injective,
}
use mathlib.Core.Path.{subst}
use gridpulse.Datetime.{DateTime, ahead, instant, is_aware, replace_utc, day_us, utc}
use gridpulse.Contracts.Neso.{Value, datetime, text, other_value, parse_neso_datetime}

module _ (fromisoformat : String → Result DateTime) where
  -- How the validated time `d` relates to the value that came in.
  abbrev pub ReadAsUtc : Value → DateTime → Type 0
  ReadAsUtc (datetime v) d =
      ((is_aware v ≡ true) × (d ≡ v))
      ⊎ ((is_aware v ≡ false) × (d.wall ≡ v.wall) × (instant d ≡ v.wall + day_us))
  ReadAsUtc (text t) d =
      (v : DateTime) × (fromisoformat t ≡ ok v) × (d.wall ≡ v.wall) × (instant d ≡ v.wall + day_us)
  ReadAsUtc other_value d = ⊥

  datetime_reads :
      (v d : DateTime) (aware : Bool)
      → is_aware v ≡ aware
      → (if aware then v else replace_utc v) ≡ d
      → (is_aware d ≡ true) × ReadAsUtc (datetime v) d
  datetime_reads v d true e same = (ap (λ x. is_aware x) (sym same) ∙ e, inl (e, sym same))
  datetime_reads v d false e same =
      subst (λ x. (is_aware x ≡ true) × ReadAsUtc (datetime v) x) same
        (refl, inr (e, refl, omega arith))

  -- Whatever the validator accepts is aware. An aware `datetime` is kept; of a naive one and of a
  -- text the wall clock is read as UTC. Nothing but a `datetime` or a text is accepted.
  pub parse_neso_datetime_reads :
      (v : Value) (d : DateTime)
      → parse_neso_datetime fromisoformat v ≡ ok d
      → (is_aware d ≡ true) × ReadAsUtc v d
  unfolding parse_neso_datetime
  parse_neso_datetime_reads (datetime v) d h = datetime_reads v d (is_aware v) refl (ok-injective h)
  parse_neso_datetime_reads (text t) d h =
      let (v, e, k) = >>=-eq-ok (fromisoformat t) (λ x. ok (replace_utc x)) h in ground arith
  parse_neso_datetime_reads other_value d h = cc

  -- A text that `fromisoformat` reads with an offset ahead of UTC, of less than a day, is
  -- accepted, and the time is later than the one that the text names, by the offset.
  pub parse_neso_datetime_drops_offset :
      (t : String) (v : DateTime) (o : ℕ)
      → fromisoformat t ≡ ok v
      → v.tzinfo ≡ some (ahead o)
      → 0 < o
      → o < day_us
      → (d : DateTime) × (parse_neso_datetime fromisoformat (text t) ≡ ok d)
        × (instant d ≡ instant v + o)
  unfolding parse_neso_datetime
  parse_neso_datetime_drops_offset t v o e z p q =
      (record { wall = v.wall; tzinfo = some utc }, rw e, ground arith)
