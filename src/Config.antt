-- ===== src/Config.antt =====
-- orchestrator/config.py: the settings, a parameter of every operation that reads them. Instants
-- and durations that the program holds as floats are whole microseconds; a setting in seconds is
-- scaled by `second`. Rates and scores are whole millionths.
use fleet_lm.Base.{ℕ, ◌+◌, ◌*◌, String}

abbrev pub second : ℕ
second = 1_000_000

-- The number 1 as a rate or a score.
abbrev pub one : ℕ
one = 1_000_000

pub record Settings : Type 0 where
  pub heartbeat_timeout_sec : ℕ
  pub generation_timeout_sec : ℕ
  pub chunk_timeout_sec : ℕ
  pub lease_duration_sec : ℕ
  pub lease_reaper_interval_sec : ℕ
  pub max_unit_attempts : ℕ
  pub max_batch_requests : ℕ
  pub join_token : String
  pub canary_file : String
  pub canary_rate : ℕ
  pub canary_agreement_threshold : ℕ
  pub default_model : String

-- The values that the class declares.
abbrev pub default_settings : Settings
default_settings = record {
  heartbeat_timeout_sec = 15;
  generation_timeout_sec = 300;
  chunk_timeout_sec = 120;
  lease_duration_sec = 600;
  lease_reaper_interval_sec = 30;
  max_unit_attempts = 3;
  max_batch_requests = 10_000;
  join_token = "";
  canary_file = "";
  canary_rate = 20_000;
  canary_agreement_threshold = 850_000;
  default_model = "mlx-community/Llama-3.2-1B-Instruct-4bit";
}

-- When a lease taken at `now` runs out.
abbrev pub lease_end : Settings → ℕ → ℕ
lease_end settings now = now + second * settings.lease_duration_sec
