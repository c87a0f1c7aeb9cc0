-- ===== src/Dagster/Lakehouse/Expiry.antt =====
-- Which snapshots the weekly expiry drops.
use gridpulse.Prelude.{ℕ, ◌+◌, ◌-◌, ◌*◌, ◌≤◌, pos, ◌∷◌, map, ◌≡◌, String, List, [], length, In}
use gridpulse.Datetime.{DateTime, day_us}
use gridpulse.Dagster.Metadata.{Metadata, text, int, json}
use gridpulse.Api.Html.{now_utc}
use gridpulse.Dagster.Lakehouse.{Snapshots}

-- 1970-01-01, the zero of Unix time.
abbrev pub unix_epoch : ℕ
unix_epoch = 719_162 * day_us

module _ {T : Type 0} (lib : Snapshots T) where
  open lib use {snapshots}

  -- A table after an expiry that spares the snapshots of a kind, and the number that is reported.
  pub record Expired (Recent : ℕ → Type 0) (t u : T) (expired : ℕ) : Type 0 where
    pub counted : expired + length (snapshots u) ≡ length (snapshots t)
    pub none_added : (n : ℕ) → In n (snapshots u) → In n (snapshots t)
    pub spared : (n : ℕ) → Recent n → In n (snapshots t) → In n (snapshots u)

  -- Table by table, with their names.
  abbrev pub AllExpired :
      (ℕ → Type 0) → List (String × T) → List (String × T) → List (String × ℕ) → Type 0
  AllExpired Recent [] [] [] = Unit
  AllExpired Recent ((name, t) ∷ ts) ((name', u) ∷ us) ((name'', expired) ∷ ns) =
      (name' ≡ name) × (name'' ≡ name) × Expired Recent t u expired × AllExpired Recent ts us ns
  AllExpired Recent ts us ns = ⊥

  -- A snapshot of this time, in milliseconds since 1970, is 30 days old or less.
  abbrev pub IsRecent : ℕ → ℕ → Type 0
  IsRecent now ms = now ≤ unix_epoch + 1000 * ms + 30 * day_us

  -- `timestamp_ms d` is `int(d.timestamp() * 1000)` of a `datetime` that is not before 1970; as
  -- `int` cuts off, it is not later than `d`.
  module _ (timestamp_ms : DateTime → ℕ) (isoformat : DateTime → String) {F : Type 0}
      (cuts_off : (wall : ℕ)
        → unix_epoch ≤ wall
        → unix_epoch + 1000 * timestamp_ms (now_utc wall) ≤ wall) where
    -- What a run at `now` replies and leaves of the tables.
    abbrev pub Kept : ℕ → Metadata F → List (String × T) → List (String × T) → Type 0
    Kept now md s s' =
        (ns : List (String × ℕ)) × (md
          ≡ ("cutoff_utc", text (isoformat (now_utc (now - 30 * day_us))))
            ∷ ("expired_per_table", json (map (λ x. (x.0, pos x.1)) ns))
            ∷ ("retention_days", int (pos 30))
            ∷ [])
        × AllExpired (IsRecent now) s s' ns
