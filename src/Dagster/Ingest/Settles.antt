-- ===== src/Dagster/Ingest/Settles.antt =====
-- What a run of the national asset leaves: from the request to the service to the table and the
-- pings.
use gridpulse.Prelude.{
  ℕ, String, Bool, ◌≡◌, refl, ap, sym, ◌∙◌, true, Option, List, map, length, length-map, Result, ok,
  raise, Exc, Exec, continue, is_exception, ◌++◌,
}
use mathlib.Core.Path.{subst}
use gridpulse.Datetime.{DateTime}
use gridpulse.Contracts.CarbonIntensity.{CarbonIntensityRow, NationalResponse}
use gridpulse.Ingestion.Http.{Net, Httpx, Tenacity}
use gridpulse.Ingestion.Fetch.{fetch_national}
use gridpulse.Storage.Pool.{Process}
use gridpulse.Storage.Keyed.Batch.{run}
use gridpulse.Storage.Postgres.{Db, Driver}
use gridpulse.Storage.Postgres.Atomic.{AllOrNothing, write_rows-AllOrNothing}
use gridpulse.Storage.Postgres.Carbon.{payload, statement, upsert_carbon_intensity_rows}
use gridpulse.Heartbeat.{Observed}
use gridpulse.Heartbeat.Transparent.{sends, closing, with_heartbeat_transparent}
use gridpulse.Dagster.Metadata.{Metadata, carbon_rows, materialize_result}
use gridpulse.Dagster.Ingest.{World, on_process, ingest, carbon_asset, carbon_intensity_national}

-- A run of an asset on carbon intensity, with its fetch.
module _ {W P F R : Type 0} (driver : Driver P F R) (now : ℕ) (environ : String → Option String)
    (new_pool : String → Result P) (isoformat : DateTime → String) (float_lt : F → F → Bool)
    (fetch : Exec (Net W) (List CarbonIntensityRow)) (source : String) where
  abbrev upsert_rows : List CarbonIntensityRow → Exec (Process P (Db R)) ℕ
  upsert_rows = upsert_carbon_intensity_rows driver now environ new_pool

  abbrev report : ℕ → List CarbonIntensityRow → Result (Metadata F)
  report n rows = materialize_result isoformat float_lt n (carbon_rows rows) source

  -- The ends of a run from the network `n` and the process `p`: the fetch raised, or else the
  -- upsert did, and the database is as it was; or all the fetched rows are written, and the reply
  -- is the report on them.
  pub data Ends (n : Net W) (p : Process P (Db R))
      : Result (Metadata F) → Net W → Db R → Type 0 where
    fetch_raised : (e : Exc) (n' : Net W) → fetch n ≡ (raise e, n') → Ends n p (raise e) n' p.db
    upsert_raised :
        (rows : List CarbonIntensityRow) (e : Exc) (n' : Net W)
        → fetch n ≡ (ok rows, n')
        → (upsert_rows rows p).0 ≡ raise e
        → Ends n p (raise e) n' p.db
    written :
        (rows : List CarbonIntensityRow) (n' : Net W) (d' : Db R)
        → fetch n ≡ (ok rows, n')
        → run (statement driver now) (map payload rows) p.db ≡ ok d'
        → Ends n p (report (length rows) rows) n' d'

  -- How a run ends that left the world `w`.
  abbrev pub EndsIn : World W P R → Result (Metadata F) × World W P R → Type 0
  EndsIn s (r, w) = Ends s.net s.process r w.net w.process.db

  reported :
      (s : World W P R) (n : Net W) (rows : List CarbonIntensityRow)
      (r : Result ℕ × Process P (Db R))
      → fetch s.net ≡ (ok rows, n)
      → upsert_rows rows s.process ≡ r
      → AllOrNothing driver
          (statement driver now)
          (map payload rows)
          s.process.db
          (length (map payload rows))
          r
      → EndsIn s (continue (r.0, record s { net = n; process = r.1 }) λ k w. (report k rows, w))
  reported s n rows (ok k, p) h u q =
      subst (λ m. Ends s.net s.process (report m rows) n p.db) (sym (q.0 ∙ length-map rows payload))
        (written rows n p.db h q.1)
  reported s n rows (raise e, p) h u q =
      subst (Ends s.net s.process (raise e) n) (sym q)
        (upsert_raised rows e n h (ap (λ (x : Result ℕ × Process P (Db R)). x.0) u))

  fetched :
      (s : World W P R) (r : Result (List CarbonIntensityRow) × Net W)
      → fetch s.net ≡ r
      → EndsIn s (
          continue
            (r.0, record s { net = r.1 })
            λ rows w. continue (on_process (upsert_rows rows) w) λ k w'. (report k rows, w'))
  fetched s (raise e, n) h = fetch_raised e n h
  fetched s (ok rows, n) h = reported s n rows (upsert_rows rows s.process) h refl (
      unfold upsert_carbon_intensity_rows in
      write_rows-AllOrNothing driver (statement driver now) environ new_pool (map payload rows)
        s.process)

  pub carbon_asset-Ends :
      (s : World W P R)
      → EndsIn s (carbon_asset driver now environ new_pool isoformat float_lt fetch source s)
  unfolding ingest
  carbon_asset-Ends s = fetched s (fetch s.net) refl

module _ {J W P F R : Type 0} (httpx : Httpx J W) (tenacity : Tenacity W) (driver : Driver P F R)
    (now : ℕ) (environ : String → Option String) (strip : String → String)
    (get : String → List String → Result (Unit {0}))
    (only_exceptions : (url : String) (past : List String) (e : Exc)
      → get url past ≡ raise e
      → is_exception e ≡ true)
    (new_pool : String → Result P) (isoformat : DateTime → String) (float_lt : F → F → Bool) where
  -- Where a ping fails only with a subclass of `Exception`, a run of the national asset ends in one
  -- of three ways: the fetch raised, or it returned and the upsert raised, and the exception comes
  -- through and the database is as it was; or every row that the fetch returned is written, in one
  -- batch of statements, and the reply is the report with their number. In each, the pings are
  -- `/start` and then the one for the reply: the bare slug for metadata, `/fail` for a subclass of
  -- `Exception`, none for any other exception.
  pub carbon_intensity_national_ends :
      (validate : J → Result NationalResponse) (s : Observed (World W P R))
      → let (r, s') =
          carbon_intensity_national httpx tenacity driver now environ strip get new_pool isoformat
            float_lt validate s in
        EndsIn driver now environ new_pool isoformat float_lt
          (fetch_national httpx tenacity validate)
          "carbonintensity.org.uk /intensity"
          s.world
          (r, s'.world)
        × (s'.pings
            ≡ s.pings
              ++ (sends environ strip "carbon_intensity_national" "/start"
                  ++ closing environ strip "carbon_intensity_national" r))
  unfolding carbon_intensity_national
  carbon_intensity_national_ends validate s =
      rw
        (with_heartbeat_transparent environ strip get only_exceptions "carbon_intensity_national"
          (carbon_asset driver now environ new_pool isoformat float_lt
            (fetch_national httpx tenacity validate) "carbonintensity.org.uk /intensity")
          s)
        (
          carbon_asset-Ends driver now environ new_pool isoformat float_lt
              (fetch_national httpx tenacity validate) "carbonintensity.org.uk /intensity" s.world,
          refl,
        )
