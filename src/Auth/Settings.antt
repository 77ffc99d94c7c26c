-- ===== src/Auth/Settings.antt =====
-- apps/api/src/modules/auth/auth.email-settings.ts, and the delay of a login in auth.service.ts.
-- A remaining time is only compared with 0 and rounded up when positive: the code's negative values
-- are 0 here.
use legaltech_colombia.Prelude.{
  ℕ, ◌+◌, ◌-◌, ◌*◌, ◌/◌, ◌^◌, min, max, Option, none, some, ltb, if◌then◌else◌,
}

abbrev pub minute_ms : ℕ
minute_ms = 60 * 1000

abbrev pub hour_ms : ℕ
hour_ms = 60 * minute_ms

abbrev pub day_ms : ℕ
day_ms = 24 * hour_ms

abbrev pub email_verification_token_ttl_ms : ℕ
email_verification_token_ttl_ms = 24 * hour_ms

abbrev pub password_reset_token_ttl_ms : ℕ
password_reset_token_ttl_ms = 30 * minute_ms

pub record DelayLimit : Type 0 where
  pub free : ℕ
  pub window_ms : ℕ
  pub base_delay_ms : ℕ
  pub cap_delay_ms : ℕ

abbrev pub resend_account_limit : DelayLimit
resend_account_limit = record {
  free = 3;
  window_ms = 24 * hour_ms;
  base_delay_ms = 30 * 1000;
  cap_delay_ms = 15 * minute_ms;
}

abbrev pub forgot_email_limit : DelayLimit
forgot_email_limit = record {
  free = 3;
  window_ms = 24 * hour_ms;
  base_delay_ms = 30 * 1000;
  cap_delay_ms = 15 * minute_ms;
}

abbrev pub progressive_delay : DelayLimit → ℕ → ℕ
progressive_delay l count = min (l.base_delay_ms * 2 ^ (count - l.free)) l.cap_delay_ms

abbrev pub remaining_progressive_delay_ms : ℕ → Option ℕ → ℕ → DelayLimit → ℕ
remaining_progressive_delay_ms count none now l = 0
remaining_progressive_delay_ms count (some last) now l =
    if ltb count l.free then 0 else last + progressive_delay l count - now

-- `LOGIN_DELAY_BASE_MS` and `LOGIN_DELAY_CAP_MS`
abbrev pub login_delay_base_ms : ℕ
login_delay_base_ms = 30000

abbrev pub login_delay_cap_ms : ℕ
login_delay_cap_ms = 900000

abbrev pub login_delay : ℕ → ℕ → ℕ
login_delay limit failures = min (login_delay_base_ms * 2 ^ (failures - limit)) login_delay_cap_ms

-- `remainingLoginDelayMs`, with `accountLoginAttemptLimit`
abbrev pub remaining_login_delay_ms : ℕ → ℕ → Option ℕ → ℕ → ℕ
remaining_login_delay_ms limit failures none now = 0
remaining_login_delay_ms limit failures (some last) now =
    if ltb failures limit then 0 else last + login_delay limit failures - now

-- `Math.max(1, Math.ceil(remainingMs / 1000))`
abbrev pub retry_after_seconds : ℕ → ℕ
retry_after_seconds remaining = max 1 ((remaining + 999) / 1000)
