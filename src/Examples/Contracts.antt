-- ===== src/Examples/Contracts.antt =====
-- The contracts at concrete responses.
use gridpulse.Prelude.{
  ℕ, ◌+◌, ◌*◌, ◌≡◌, ◌↔◌, refl, none, some, String, [], ◌∷◌, map, Result, ok, pos, In, arith,
}
use gridpulse.Datetime.{DateTime, ahead, instant, hour_us}
use gridpulse.Contracts.CarbonIntensity.{
  Region, RegionalPeriod, RegionalResponse, CarbonIntensityRow, moderate, regional_to_rows,
}
use gridpulse.Contracts.CarbonIntensity.Rows.{ComesFrom, all_ids, regional_to_rows-In}
use gridpulse.Contracts.Neso.{text, parse_neso_datetime}
use gridpulse.Contracts.Neso.Rows.{parse_neso_datetime_drops_offset}
use gridpulse.Examples.Memory.{at}

abbrev half_hour_us : ℕ
half_hour_us = 1_800_000_000

abbrev region : ℕ → Region ℕ
region i = record {
  regionid = i;
  dnoregion = "dno";
  shortname = "short";
  intensity = record { forecast = pos 100; index = moderate };
  generationmix = [];
}

abbrev period : ℕ → RegionalPeriod ℕ
period start = record {
  from_ = at start;
  to = at (start + half_hour_us);
  regions = map region all_ids;
}

abbrev regional : RegionalResponse ℕ
regional = record { periods = period 0 ∷ period half_hour_us ∷ [] }

abbrev london_row : CarbonIntensityRow
london_row = record {
  region_id = 13;
  period_start_utc = at 0;
  period_end_utc = at half_hour_us;
  forecast_gco2_per_kwh = pos 100;
  actual_gco2_per_kwh = none;
  intensity_index = moderate;
}

regional_to_rows-In_example :
    In london_row (regional_to_rows regional) ↔ ComesFrom regional.periods london_row
regional_to_rows-In_example = regional_to_rows-In regional london_row

-- 05:00 on some day, one hour ahead of UTC
abbrev summer_time : DateTime
summer_time = record { wall = 5 * hour_us; tzinfo = some (ahead hour_us) }

abbrev fromisoformat : String → Result DateTime
fromisoformat t = ok summer_time

parse_neso_datetime_drops_offset_example :
    (d : DateTime) × (parse_neso_datetime fromisoformat (text "05:00+01:00") ≡ ok d)
    × (instant d ≡ instant summer_time + hour_us)
parse_neso_datetime_drops_offset_example =
    parse_neso_datetime_drops_offset fromisoformat "05:00+01:00" summer_time hour_us refl refl
      (omega arith) (omega arith)
