-- ===== src/Examples/Runs.antt =====
-- Runs of the Agile asset and of the expiry of snapshots at concrete inputs.
use gridpulse.Prelude.{
  ℕ, ◌+◌, ◌-◌, ◌*◌, ◌/◌, ◌∷◌, ◌≤◌, ◌≡◌, refl, ap, sym, inl, inr, String, List, [], length, Result,
  ok, raise, In, arith, ltb, Bool-cases, if◌then◌else◌,
}
use mathlib.Core.Path.{subst}
use gridpulse.Datetime.{DateTime, day_us}
use gridpulse.Contracts.Octopus.{AgileRatesResponse, agile_to_rows}
use gridpulse.Heartbeat.{Observed, with_heartbeat, ping}
use gridpulse.Ingestion.Http.{Httpx, attempt, get_with_retry, is_retried}
use gridpulse.Ingestion.Fetch.{fetch_agile_rates_for_region, fetch_agile_rates_all_regions}
use gridpulse.Storage.Pool.{get_pool}
use gridpulse.Storage.Postgres.Write.{write_rows}
use gridpulse.Storage.Postgres.Price.{upsert_agile_price_rows}
use gridpulse.Storage.Postgres.Price.Upsert.{PricesAreSound}
use gridpulse.Storage.Keyed.Batch.{run}
use gridpulse.Api.Sql.{order_by, put}
use gridpulse.Api.Marts.{octopus_codes, dno_regions_with_octopus_code}
use gridpulse.Dagster.Metadata.{Metadata, materialize_result}
use gridpulse.Dagster.Ingest.{World, ingest, read_regions, agile_price}
use gridpulse.Dagster.Ingest.Prices.{Left, agile_price_covers}
use gridpulse.Dagster.Lakehouse.{Snapshots, expire_snapshots}
use gridpulse.Dagster.Lakehouse.Expiry.{unix_epoch}
use gridpulse.Examples.Memory.{memory, environ, new_pool, empty_process}
use gridpulse.Examples.Client.{retrying_at_once, server, recovering, rates, rounds}
use gridpulse.Examples.Ingestion.{get_nothing, only_exceptions}
use gridpulse.Examples.Jobs.{iso, before}

-- The prices of one region, with a server that answers at the third attempt.
abbrev octopus : Httpx (AgileRatesResponse ℕ) ℕ
octopus = server recovering rates

abbrev price_run : Result (Metadata ℕ) × Observed (World ℕ (Unit {0}) ℕ)
price_run =
    agile_price octopus retrying_at_once memory 7 environ (λ k. k) get_nothing new_pool iso ltb ok
      (record { world = before; pings = [] })

metadata_of : {A : Type 0} → A → Result A → A
metadata_of a (ok b) = b
metadata_of a (raise e) = a

price_run_returns : price_run ≡ (ok (metadata_of [] price_run.0), price_run.1)
unfolding agile_price read_regions octopus_codes order_by put dno_regions_with_octopus_code get_pool
    memory fetch_agile_rates_all_regions fetch_agile_rates_for_region get_with_retry attempt server
    rounds retrying_at_once is_retried agile_to_rows upsert_agile_price_rows write_rows ingest
    materialize_result with_heartbeat ping run metadata_of
price_run_returns = refl

no_prices : PricesAreSound empty_process.db
no_prices = record { keyed = tt; rows = tt }

agile_price_covers_example :
    Left octopus retrying_at_once memory 7 environ
      (λ k. k)
      get_nothing
      only_exceptions
      new_pool
      iso
      ltb
      ok
      before
      price_run.1.world
      (metadata_of [] price_run.0)
agile_price_covers_example =
    agile_price_covers octopus retrying_at_once memory 7 environ (λ k. k) get_nothing
      only_exceptions new_pool iso ltb ok (record { world = before; pings = [] }) price_run.1
      (metadata_of [] price_run.0) no_prices price_run_returns

-- A table is the list of its snapshots.
unfoldable drop_older : ℕ → List ℕ → List ℕ
drop_older bound [] = []
drop_older bound (n ∷ ns) = let rest = drop_older bound ns in if ltb n bound then rest else n ∷ rest

drop_older-In : (bound n : ℕ) (ns : List ℕ) → In n (drop_older bound ns) → In n ns
unfolding drop_older
drop_older-In bound n [] = λ m. m
drop_older-In bound n (x ∷ xs) = elim (Bool-cases (ltb x bound)) [
  | inl e ↦ rw e λ m. inr (drop_older-In bound n xs m)
  | inr e ↦ rw e λ m. elim m [ inl q ↦ inl q | inr k ↦ inr (drop_older-In bound n xs k) ]
]

In-drop_older : (bound n : ℕ) (ns : List ℕ) → bound ≤ n → In n ns → In n (drop_older bound ns)
unfolding drop_older
In-drop_older bound n [] h m = m
In-drop_older bound n (x ∷ xs) h m = elim (Bool-cases (ltb x bound)) [
  | inl e ↦
      rw e
        (elim m [ inl q ↦ absurd (ground (arith, e, q, h)) | inr k ↦ In-drop_older bound n xs h k ])
  | inr e ↦ rw e (elim m [ inl q ↦ inl q | inr k ↦ inr (In-drop_older bound n xs h k) ])
]

drop_older-length : (bound : ℕ) (ns : List ℕ) → length (drop_older bound ns) ≤ length ns
unfolding drop_older
drop_older-length bound [] = omega arith
drop_older-length bound (x ∷ xs) = elim (Bool-cases (ltb x bound)) [
  | inl e ↦ rw e (omega (arith, drop_older-length bound xs))
  | inr e ↦ rw e (omega (arith, drop_older-length bound xs))
]

unfoldable expiring : Snapshots (List ℕ)
unfolding drop_older
expiring = record {
  load_table = λ name. ok tt;
  snapshots = λ t. t;
  expire = λ bound t. (ok tt, drop_older bound t);
  adds_none = λ bound t u h n m. drop_older-In bound n t (subst (In n) (sym (ap (λ x. x.1) h)) m);
  spares = λ bound t u h n le m. subst (In n) (ap (λ x. x.1) h) (In-drop_older bound n t le m);
  no_longer = λ bound t u h.
      subst (λ (x : List ℕ). length x ≤ length t) (ap (λ x. x.1) h) (drop_older-length bound t);
}

abbrev lake_tables : Observed (List (String × List ℕ))
lake_tables = record {
  world = ("carbon_intensity", 10 ∷ 60 ∷ []) ∷ ("generation_mix", 70 ∷ []) ∷ [];
  pings = [];
}

abbrev expiring_at : ℕ
expiring_at = unix_epoch + 30 * day_us + 50_000

-- `int(d.timestamp() * 1000)`: microseconds since 1970, in milliseconds.
abbrev in_ms : DateTime → ℕ
in_ms d = (d.wall - unix_epoch) / 1000

abbrev expiry : Result (Metadata ℕ) × Observed (List (String × List ℕ))
expiry = expire_snapshots expiring in_ms iso environ (λ k. k) get_nothing expiring_at lake_tables
