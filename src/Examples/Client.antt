-- ===== src/Examples/Client.antt =====
-- tenacity and httpx at work on a server with canned answers.
use gridpulse.Prelude.{
  ℕ, zero, suc, ◌≤◌, ◌<◌, ◌≡◌, refl, Bool, false, none, [], ◌∷◌, Result, ok, raise, Exc, Exec,
  runtime_error, http_status_error, if◌then◌else◌, ltb, arith,
}
use gridpulse.Contracts.Octopus.{AgileRatesResponse}
use gridpulse.Ingestion.Http.{Net, Httpx, Tenacity}
use gridpulse.Examples.Memory.{at}

module _ {W A : Type 0} where
  -- after an attempt, with what is left of the attempts, and the next round
  abbrev pub after_attempt :
      (Exc → Bool) → ℕ → (Net W → Result A × Net W) → Result A × Net W → Result A × Net W
  after_attempt retry left again (ok a, s) = (ok a, s)
  after_attempt retry zero again (raise e, s) = (raise e, s)
  after_attempt retry (suc left) again (raise e, s) = if retry e then again s else (raise e, s)

  unfoldable pub rounds : (Exc → Bool) → ℕ → Exec (Net W) A → Exec (Net W) A
  rounds retry zero body s = (raise runtime_error, s)
  rounds retry (suc left) body s = after_attempt retry left (rounds retry left body) (body s)

  pub gives_up_lem :
      (retry : Exc → Bool) (left : ℕ) (again : Net W → Result A × Net W) (s : Net W) (e : Exc)
      → retry e ≡ false
      → after_attempt retry left again (raise e, s) ≡ (raise e, s)
  gives_up_lem retry zero again s e h = refl
  gives_up_lem retry (suc left) again s e h = rw h refl

-- retries at once
unfoldable pub retrying_at_once : {W : Type 0} → Tenacity W
unfolding rounds
retrying_at_once = record {
  sleep = λ n w. w;
  retrying = λ retry left n body s. rounds retry left body s;
  returns = λ retry left n body s s' a h. rw h refl;
  gives_up = λ retry left n body s s' e h k. rw h (gives_up_lem retry left _ s' e k);
  stops = λ retry n body s s' e h. rw h refl;
  tries_again = λ retry left n body s s' e h k. rw (h, k) refl;
}

abbrev pub raise_for_status : ℕ → Result (Unit {0})
raise_for_status status = if ltb status 300 then ok tt else raise http_status_error

pub success : (status : ℕ) → 200 ≤ status → status < 300 → raise_for_status status ≡ ok tt
success status h k = ground arith

pub client_error :
    (status : ℕ) → 400 ≤ status → status < 500 → raise_for_status status ≡ raise http_status_error
client_error status h k = ground arith

-- A server whose answer number `n` has the status `statuses n`; its world is how many it gave.
unfoldable pub server : {J : Type 0} → (ℕ → ℕ) → J → Httpx J ℕ
server statuses payload = record {
  get = λ q n. (ok (record { status_code = statuses n; json = ok payload }), suc n);
  raise_for_status = raise_for_status;
  status_success = success;
  status_client_error = client_error;
}

-- unavailable twice, then well
abbrev pub recovering : ℕ → ℕ
recovering zero = 503
recovering (suc zero) = 429
recovering (suc (suc n)) = 200

abbrev pub missing : ℕ → ℕ
missing n = 404

abbrev pub rates : AgileRatesResponse ℕ
rates = record {
  count = 1;
  next = none;
  previous = none;
  results =
      record {
        value_exc_vat = 20;
        value_inc_vat = 21;
        valid_from = at 0;
        valid_to = at 1800;
        payment_method = none;
      }
      ∷ [];
}
