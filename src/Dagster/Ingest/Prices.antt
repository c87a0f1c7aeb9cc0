-- ===== src/Dagster/Ingest/Prices.antt =====
-- What a run of the asset of the Agile prices leaves.
use gridpulse.Prelude.{
  ℕ, ◌≡◌, ap, sym, ◌∙◌, true, Bool, String, Option, List, map, length, Result, ok, raise, Exc,
  is_exception,
}
use mathlib.Core.Path.{subst}
use gridpulse.Datetime.{DateTime}
use gridpulse.Contracts.Octopus.{AgileRatesResponse, AgilePriceRow}
use gridpulse.Ingestion.Http.{Httpx, Tenacity}
use gridpulse.Ingestion.Fetch.{fetch_agile_rates_all_regions}
use gridpulse.Ingestion.Fetch.Rows.{continue-ok, Answered, fetch_agile_rates_all_regions-Answered}
use gridpulse.Storage.Keyed.{find}
use gridpulse.Storage.Keyed.Latest.{last_for, replaced}
use gridpulse.Storage.Postgres.{Key, key_eq, Db, Driver}
use gridpulse.Storage.Postgres.Price.{payload, key, fresh, upsert_agile_price_rows}
use gridpulse.Storage.Postgres.Price.Upsert.{PricesAreSound, SameButPrices, upsert_agile_settles}
use gridpulse.Heartbeat.{Observed}
use gridpulse.Heartbeat.Transparent.{with_heartbeat_transparent}
use gridpulse.Dagster.Metadata.{Metadata, price_rows, materialize_result}
use gridpulse.Dagster.Ingest.{World, ingest, region_codes, agile_price}
use gridpulse.Dagster.Ingest.Codes.{ingest-Ingested, AreCodes, region_codes-ok}

module _ {J W P F R : Type 0} (httpx : Httpx J W) (tenacity : Tenacity W) (driver : Driver P F R)
    (now : ℕ) (environ : String → Option String) (strip : String → String)
    (get : String → List String → Result (Unit {0}))
    (only_exceptions : (url : String) (past : List String) (e : Exc)
      → get url past ≡ raise e
      → is_exception e ≡ true)
    (new_pool : String → Result P) (isoformat : DateTime → String) (float_lt : F → F → Bool)
    (validate : J → Result (AgileRatesResponse F)) where
  -- What a run left that returned the metadata `md`: it went through the codes of the regions, one
  -- answer for each, and an upsert of all their rows.
  pub record Left (s s' : World W P R) (md : Metadata F) : Type 0 where
    pub codes : List (ℕ × String)
    pub are_codes : AreCodes driver environ new_pool s codes
    pub rows : List (AgilePriceRow F)
    pub answered : Answered httpx tenacity validate codes rows s.net s'.net
    pub same_elsewhere : SameButPrices s.process.db s'.process.db
    pub sound : PricesAreSound s'.process.db
    pub stored :
        (k : Key)
        → find k s'.process.db.agile_price
          ≡ replaced
              (fresh driver now)
              (last_for (key driver now) k (map payload rows))
              (find k s.process.db.agile_price)
    pub reported :
        materialize_result isoformat float_lt
          (length rows)
          (price_rows rows)
          "api.octopus.energy AGILE-24-10-01"
        ≡ ok md

  run-Left :
      (s s₁ s' : World W P R) (codes : List (ℕ × String)) (md : Metadata F)
      → PricesAreSound s.process.db
      → AreCodes driver environ new_pool s codes
      → s₁.process.db ≡ s.process.db
      → s₁.net ≡ s.net
      → ingest
          (fetch_agile_rates_all_regions httpx tenacity validate codes 96)
          (upsert_agile_price_rows driver now environ new_pool)
          (λ written rows.
            materialize_result isoformat float_lt written
              (price_rows rows)
              "api.octopus.energy AGILE-24-10-01")
          s₁
        ≡ (ok md, s')
      → Left s s' md
  run-Left s s₁ s' codes md sound are db net h =
      let (g, _) = ingest-Ingested _ _ _ s₁ s' md h in
      let (n, same, kept, stored) =
        upsert_agile_settles driver now environ new_pool g.rows s₁.process s'.process g.written
          (subst PricesAreSound (sym db) sound) g.upserted in
      record {
        codes = codes;
        are_codes = are;
        rows = g.rows;
        answered =
            subst (λ n. Answered httpx tenacity validate codes g.rows n s'.net) net
              (fetch_agile_rates_all_regions-Answered httpx tenacity validate codes g.rows s₁.net
                s'.net g.fetched);
        same_elsewhere = subst (λ d. SameButPrices d s'.process.db) db same;
        sound = kept;
        stored = λ k.
            stored k
            ∙ ap
                (λ (d : Db R).
                  replaced (fresh driver now) (last_for (key driver now) k (map payload g.rows))
                    (find k d.agile_price))
                db;
        reported =
            ap
              (λ m.
                materialize_result isoformat float_lt m (price_rows g.rows)
                  "api.octopus.energy AGILE-24-10-01")
              (sym n)
            ∙ g.reported;
      }

  -- Where a ping fails only with a subclass of `Exception`, and from a table of prices that meets
  -- its key and constraints: a run of the Agile asset that returns used the regions' codes that the
  -- process keeps, or else those of the table of regions; for every region, in turn, the request
  -- with its code was sent, one to three times and no other, and answered with a payload that was
  -- validated; the rows are those of these answers, each with the id of its region; all these rows
  -- are written, the last for each key standing, nothing else changed in the database, and the
  -- table still meets its key and constraints; and the reply is the report on these rows with their
  -- number.
  pub agile_price_covers :
      (s s' : Observed (World W P R)) (md : Metadata F)
      → PricesAreSound s.world.process.db
      → agile_price httpx tenacity driver now environ strip get new_pool isoformat float_lt validate
          s
        ≡ (ok md, s')
      → Left s.world s'.world md
  unfolding agile_price
  agile_price_covers s s' md sound h =
      let ran =
        sym (with_heartbeat_transparent environ strip get only_exceptions "agile_price" _ s) ∙ h in
      let (codes, s₁, looked, e) =
        continue-ok (region_codes driver environ new_pool s.world) _
          (ap (λ (x : Result (Metadata F) × Observed (World W P R)). (x.0, x.1.world)) ran) in
      let (are, db, net) = region_codes-ok driver environ new_pool s.world s₁ codes looked in
      run-Left s.world s₁ s'.world codes md sound are db net e
