-- ===== src/Examples/Memory.antt =====
-- Concrete instances of what the program gets from libraries and from its environment.
use gridpulse.Prelude.{
  ℕ, ◌+◌, String, ℤ, pos, ◌≡◌, refl, true, false, Option, none, some, [], ◌∷◌, Result, ok, raise,
}
use gridpulse.Datetime.{DateTime, ahead, instant}
use gridpulse.Contracts.CarbonIntensity.{CarbonIntensityRow, low}
use gridpulse.Storage.Keyed.Batch.{run}
use gridpulse.Storage.Pool.{Process}
use gridpulse.Storage.Postgres.{Db, Driver, DnoRegion}

abbrev pub settled_by : {A D : Type 0} → Result (A × D) → D → Result A × D
settled_by (ok (a, d')) d = (ok a, d')
settled_by (raise e) d = (raise e, d)

pub never_closed : true ≡ false → ⊥
never_closed h = cc

-- A database in memory, always to be reached, with numbers for floats.
unfoldable pub memory : Driver (Unit {0}) ℕ ℕ
unfolding run
memory = record {
  available = λ p d. true;
  connection = λ p body d. settled_by (body d) d;
  executemany = λ f vs d. run f vs d;
  timestamptz = λ d. instant d;
  to_real = λ x. x;
  real_range = λ x. true;
  commits = λ p body d d' a open_ h. rw h refl;
  rolls_back = λ p body d e open_ h. rw h refl;
  refuses = λ p body d closed. absurd (never_closed closed);
  executemany_none = λ f d. refl;
  executemany_step = λ f v vs d d' h. rw h refl;
  executemany_stop = λ f v vs d e h. rw h refl;
  timestamptz_aware = λ d h. refl;
}

abbrev pub environ : String → Option String
environ name = some "set"

abbrev pub new_pool : String → Result (Unit {0})
new_pool dsn = ok tt

abbrev pub at : ℕ → DateTime
at n = record { wall = n; tzinfo = some (ahead 0) }

abbrev pub london : DnoRegion
london = record {
  region_id = 13;
  canonical_code = "LONDON";
  slug = "london";
  name = "London";
  octopus_code = some "C";
}

abbrev pub national : DnoRegion
national = record {
  region_id = 0;
  canonical_code = "NATIONAL";
  slug = "national";
  name = "National";
  octopus_code = none;
}

-- A half-hour of the national series, with or without its realised value.
abbrev pub half_hour : ℕ → ℕ → Option ℤ → CarbonIntensityRow
half_hour start forecast actual = record {
  region_id = 0;
  period_start_utc = at start;
  period_end_utc = at (start + 1800);
  forecast_gco2_per_kwh = pos forecast;
  actual_gco2_per_kwh = actual;
  intensity_index = low;
}

abbrev pub empty_process : Process (Unit {0}) (Db ℕ)
empty_process = record {
  pool = some tt;
  db = record {
    dno_region = national ∷ london ∷ [];
    carbon_intensity = [];
    generation_mix = [];
    agile_price = [];
  };
}
