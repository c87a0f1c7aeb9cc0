-- ===== src/Ingestion/Http.antt =====
-- gridpulse/ingestion/http.py. httpx and tenacity are parameters, with what their documentation
-- says; the request log is kept beside the rest of the world, so that requests can be counted.
use gridpulse.Prelude.{
  ℕ, suc, String, ◌≡◌, Bool, true, false, List, [], ◌∷◌, ◌++◌, Result, ok, raise, Exc, Exec,
  continue, transient_http_error, transport_error, http_status_error, ◌||◌, ◌==◌, leb,
  if◌then◌else◌, ◌≤◌, ◌<◌,
}

pub record Request : Type 0 where
  pub base_url : String
  pub path : String
  pub params : List (String × String)

-- `J` is the type of decoded payloads.
pub record Response (J : Type 0) : Type 0 where
  pub status_code : ℕ
  pub json : Result J

-- `W` is the world that the network, the clock and the servers are.
pub record Net (W : Type 0) : Type 0 where
  pub world : W
  pub sent : List Request

abbrev pub default_max_attempts : ℕ
default_max_attempts = 3

module _ {J : Type 0} (raise_for_status : ℕ → Result (Unit {0})) where
  unfoldable pub raise_for_transient_status : Response J → Result (Unit {0})
  raise_for_transient_status r =
      if leb 500 r.status_code || r.status_code == 429
      then raise transient_http_error
      else raise_for_status r.status_code

-- `retry_if_exception_type((TransientHttpError, httpx.TransportError))`
unfoldable pub is_retried : Exc → Bool
is_retried transient_http_error = true
is_retried transport_error = true
is_retried e = false

-- `Retrying` of tenacity with `reraise=True`: what `for attempt in …: with attempt: body` does. The
-- attempts are numbered from `n`, and `left` of them may still be made. `sleep n` is the wait after
-- attempt `n`, with its log line.
pub record Tenacity (W : Type 0) : Type 1 where
  pub sleep : ℕ → W → W
  pub retrying : {A : Type 0} → (Exc → Bool) → ℕ → ℕ → Exec (Net W) A → Exec (Net W) A
  pub returns :
      {A : Type 0} (retry : Exc → Bool) (left n : ℕ) (body : Exec (Net W) A) (s s' : Net W) (a : A)
      → body s ≡ (ok a, s')
      → retrying retry (suc left) n body s ≡ (ok a, s')
  pub gives_up :
      {A : Type 0} (retry : Exc → Bool) (left n : ℕ) (body : Exec (Net W) A) (s s' : Net W)
      (e : Exc)
      → body s ≡ (raise e, s')
      → retry e ≡ false
      → retrying retry (suc left) n body s ≡ (raise e, s')
  pub stops :
      {A : Type 0} (retry : Exc → Bool) (n : ℕ) (body : Exec (Net W) A) (s s' : Net W) (e : Exc)
      → body s ≡ (raise e, s')
      → retrying retry 1 n body s ≡ (raise e, s')
  pub tries_again :
      {A : Type 0} (retry : Exc → Bool) (left n : ℕ) (body : Exec (Net W) A) (s s' : Net W)
      (e : Exc)
      → body s ≡ (raise e, s')
      → retry e ≡ true
      → retrying retry (suc (suc left)) n body s
        ≡ retrying retry (suc left) (suc n) body (record s' { world = sleep n s'.world })

-- httpx: `get` sends one request, and `raise_for_status` raises on 4xx and returns on 2xx.
pub record Httpx (J W : Type 0) : Type 0 where
  pub get : Request → W → Result (Response J) × W
  pub raise_for_status : ℕ → Result (Unit {0})
  pub status_success : (status : ℕ) → 200 ≤ status → status < 300 → raise_for_status status ≡ ok tt
  pub status_client_error :
      (status : ℕ) → 400 ≤ status → status < 500 → raise_for_status status ≡ raise http_status_error

module _ {J W : Type 0} (httpx : Httpx J W) where
  -- `client.get(…)`: the request goes out, whatever comes back
  unfoldable pub client_get : Request → Exec (Net W) (Response J)
  client_get q s =
      let (r, w) = httpx.get q s.world in (r, record { world = w; sent = s.sent ++ q ∷ [] })

  abbrev pub decoded : Result (Unit {0}) → Response J → Result J
  decoded (ok _) r = r.json
  decoded (raise e) r = raise e

  -- the block under `with attempt:` that all the fetch functions have
  unfoldable pub attempt : Request → Exec (Net W) J
  unfolding client_get raise_for_transient_status
  attempt q s =
      continue (client_get q s)
        λ r s'. (decoded (raise_for_transient_status httpx.raise_for_status r) r, s')

  -- `for attempt in http_retry(): with attempt: …`
  unfoldable pub get_with_retry : Tenacity W → Request → Exec (Net W) J
  get_with_retry tenacity q = tenacity.retrying is_retried default_max_attempts 1 (attempt q)
