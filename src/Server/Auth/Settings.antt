-- ===== src/Server/Auth/Settings.antt =====
-- The settings of server/app/core/config.py that the accounts read.
use silentguard_xdr.Prelude.{ℕ}

pub record Settings : Type 0 where
  pub access_token_ttl_seconds : ℕ
  pub refresh_token_ttl_seconds : ℕ
  pub password_min_length : ℕ
  pub login_max_attempts : ℕ
  pub login_lockout_seconds : ℕ
  pub login_rate_limit : ℕ
  pub login_rate_window_seconds : ℕ
  pub reset_token_ttl_seconds : ℕ
  pub verify_token_ttl_seconds : ℕ

-- the values that hold where the environment sets none
abbrev pub default_settings : Settings
default_settings = record {
  access_token_ttl_seconds = 900;
  refresh_token_ttl_seconds = 1209600;
  password_min_length = 12;
  login_max_attempts = 5;
  login_lockout_seconds = 900;
  login_rate_limit = 10;
  login_rate_window_seconds = 60;
  reset_token_ttl_seconds = 3600;
  verify_token_ttl_seconds = 86400;
}
