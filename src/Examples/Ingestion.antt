-- ===== src/Examples/Ingestion.antt =====
-- The retries, the fetches and the heartbeat at concrete inputs.
use gridpulse.Prelude.{
  ℕ, suc, ◌≡◌, refl, true, String, List, [], ◌++◌, Result, raise, Exc, Exec, transport_error,
  value_error, is_exception,
}
use gridpulse.Contracts.Octopus.{AgileRatesResponse}
use gridpulse.Heartbeat.{with_heartbeat}
use gridpulse.Heartbeat.Transparent.{sends, closing, with_heartbeat_transparent}
use gridpulse.Ingestion.Http.{Request, Net, get_with_retry, Httpx}
use gridpulse.Ingestion.Retry.{Asked, get_with_retry-Asked}
use gridpulse.Examples.Client.{retrying_at_once, server, recovering, rates}
use gridpulse.Examples.Memory.{environ}

abbrev request : Request
request = record { base_url = "https://api.octopus.energy"; path = "/v1"; params = [] }

abbrev start : Net ℕ
start = record { world = 0; sent = [] }

abbrev failing : Httpx (AgileRatesResponse ℕ) ℕ
failing = server recovering rates

get_with_retry-Asked_example :
    Asked failing request 3 [] (get_with_retry failing retrying_at_once request start)
get_with_retry-Asked_example = get_with_retry-Asked failing retrying_at_once request start

-- Pings never arrive.
abbrev pub get_nothing : String → List String → Result (Unit {0})
get_nothing url past = raise transport_error

pub only_exceptions :
    (url : String) (past : List String) (e : Exc)
    → get_nothing url past ≡ raise e
    → is_exception e ≡ true
only_exceptions url past transport_error h = refl
only_exceptions url past e h = cc

abbrev job : Exec ℕ ℕ
job w = (raise value_error, suc w)

with_heartbeat_transparent_example :
    with_heartbeat environ (λ k. k) get_nothing "archive" job (record { world = 4; pings = [] }) ≡ (
      raise value_error,
      record {
        world = 5;
        pings =
            []
            ++ (sends environ (λ k. k) "archive" "/start"
                ++ closing environ (λ k. k) {A = ℕ} "archive" (raise value_error));
      },
    )
with_heartbeat_transparent_example =
    with_heartbeat_transparent environ (λ k. k) get_nothing only_exceptions "archive" job
      (record { world = 4; pings = [] })
