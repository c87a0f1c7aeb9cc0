-- ===== src/Lake/Backfill.antt =====
-- scripts/backfill_carbon_intensity.py. Dates are the instants of their midnights in UTC; the
-- loop runs on fuel, one turn for each 14 days begun.
pub mod Windows
use Prim.Native.String.{◌++◌}
use gridpulse.Prelude.{
  ℕ, zero, suc, ◌+◌, ◌-◌, ◌*◌, ◌/◌, String, Bool, true, false, List, [], ◌∷◌, length, Result, ok,
  raise, ◌>>=◌, Exec, exit_code, continue, leb, ltb, if◌then◌else◌, Option, none, some,
}
use gridpulse.Datetime.{day_us}
use gridpulse.Contracts.CarbonIntensity.{NationalResponse, CarbonIntensityRow, national_to_rows}
use gridpulse.Ingestion.Http.{Net, Httpx, Tenacity}
use gridpulse.Ingestion.Fetch.{fetch, get, carbon_url}
use gridpulse.Lake.Iceberg.{Iceberg}

abbrev pub chunk_days : ℕ
chunk_days = 14

abbrev pub chunk_us : ℕ
chunk_us = chunk_days * day_us

abbrev pub min : ℕ → ℕ → ℕ
min a b = if leb a b then a else b

-- the table, and the network
pub record Session (T W : Type 0) : Type 0 where
  pub table : T
  pub net : Net W

module _ (lib : Iceberg CarbonIntensityRow) where
  -- `if rows: table.append(…)`
  abbrev pub append_rows : List CarbonIntensityRow → lib.Table → Result lib.Table
  append_rows [] t = ok t
  append_rows (r ∷ rows) t = lib.append (r ∷ rows) t

module _ {W : Type 0} (lib : Iceberg CarbonIntensityRow)
    (fetch_range : ℕ → ℕ → Exec (Net W) (List CarbonIntensityRow)) where
  abbrev pub appended : {A : Type 0} → Result lib.Table → A → Exec (Session lib.Table W) A
  appended (ok u) a s = (ok a, record s { table = u })
  appended (raise e) a s = (raise e, s)

  -- one turn: the rows of a window go into the table, and are counted
  unfoldable pub chunk : ℕ → ℕ → ℕ → Exec (Session lib.Table W) ℕ
  chunk cursor chunk_end total s =
      let (rows, net) = fetch_range cursor chunk_end s.net in
      continue (rows, record s { net = net })
        λ rows s'. appended (append_rows lib rows s'.table) (total + length rows) s'

  -- `while cursor < end`; None when the fuel ends first
  unfoldable pub turns : ℕ → ℕ → ℕ → ℕ → Exec (Session lib.Table W) (Option ℕ)
  unfolding chunk
  turns zero cursor end total s = if ltb cursor end then (ok none, s) else (ok (some total), s)
  turns (suc fuel) cursor end total s =
      if ltb cursor end
      then continue (chunk cursor (min (cursor + chunk_us) end) total s)
          (turns fuel (min (cursor + chunk_us) end) end)
      else (ok (some total), s)

-- `iso t` is `t.strftime("%Y-%m-%dT%H:%MZ")`
module _ {J W : Type 0} (httpx : Httpx J W) (tenacity : Tenacity W)
    (validate : J → Result NationalResponse) (iso : ℕ → String) where
  unfoldable pub fetch_range : ℕ → ℕ → Exec (Net W) (List CarbonIntensityRow)
  unfolding fetch
  fetch_range start end =
      fetch httpx tenacity (get carbon_url ("/intensity/" ++ (iso start ++ ("/" ++ iso end))) [])
        λ payload. do parsed ← validate payload; ok (national_to_rows parsed)

  unfoldable pub backfill :
      (lib : Iceberg CarbonIntensityRow) → ℕ → ℕ → Exec (Session lib.Table W) (Option ℕ)
  unfolding turns fetch_range
  backfill lib start end = turns lib fetch_range (suc ((end - start) / chunk_us)) start end 0

  -- `args` is what argparse makes of the command line, or its SystemExit
  unfoldable pub main :
      (lib : Iceberg CarbonIntensityRow) → Result (ℕ × ℕ) → Exec (Session lib.Table W) ℕ
  unfolding backfill
  main lib args s =
      continue (args, s)
        λ range s'. let (r, s'') = backfill lib range.0 range.1 s' in (exit_code r, s'')
