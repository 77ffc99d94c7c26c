-- ===== src/Auth/Service/Delays.antt =====
-- `resendEmailVerification` and `forgotPassword` of `AuthService`: under a progressive delay.
use legaltech_colombia.Prelude.{ℕ, Option, none, some, ltb, if◌then◌else◌}
use legaltech_colombia.Common.{Action, pure, throw, modify, try_catch, ◌>>=◌, ◌>>◌, RequestContext}
use legaltech_colombia.Auth.Tables.{
  UserRecord, AuthDb, AuthEntry, auth_password_reset_requested, email_metadata, enqueue_email,
  email_verification, password_reset,
}
use legaltech_colombia.Auth.Settings.{
  DelayLimit, resend_account_limit, forgot_email_limit, remaining_progressive_delay_ms,
  retry_after_seconds,
}
use legaltech_colombia.Auth.Repository.{
  PrismaError, AttemptScope, run_password_reset_request, run_email_verification_resend,
  find_user_by_email, write_audit_log,
}
use legaltech_colombia.Auth.Session.{Security}
use legaltech_colombia.Auth.Service.Types.{
  CurrentUserResult, user_event, rate_limited_error, on_attempt_error,
}

pub data DelayOutcome : Type 0 where
  delayed : ℕ → DelayOutcome
  done : DelayOutcome

-- The attempt refused under the delay, or done.
abbrev pub under_delay :
    DelayLimit → Action AuthDb DelayOutcome → AttemptScope → Action AuthDb DelayOutcome
under_delay limit action scope =
    let remaining = remaining_progressive_delay_ms scope.recent scope.last_at scope.now limit in
    if ltb 0 remaining then pure (delayed (retry_after_seconds remaining)) else action

abbrev pub answer : DelayOutcome → Action AuthDb (Unit {0})
answer (delayed seconds) = throw (rate_limited_error seconds)
answer done = pure tt

-- Whether the lock is had, the clock of PostgreSQL, and the id of the email.
pub record DelayRun : Type 0 where
  pub start : Option PrismaError
  pub now : ℕ
  pub email_id : ℕ

abbrev pub enqueue_verification_email : DelayRun → ℕ → Action AuthDb DelayOutcome
enqueue_verification_email run user_id =
    modify (enqueue_email run.email_id run.now email_verification user_id) >> pure done

unfoldable pub resend_email_verification : DelayRun → CurrentUserResult → Action AuthDb (Unit {0})
resend_email_verification run current =
    if current.public_user.email_verified
    then pure tt
    else try_catch
        (run_email_verification_resend run.start run.now current.public_user.id
          resend_account_limit.window_ms
          (under_delay resend_account_limit
            (enqueue_verification_email run current.public_user.id)))
        on_attempt_error
      >>= answer

abbrev pub request_event : Option UserRecord → ℕ → RequestContext → AuthEntry
request_event none hash context = record {
  actor_user_id = none;
  actor_role = none;
  action = auth_password_reset_requested;
  entity_type = none;
  entity_id = none;
  metadata = email_metadata hash none;
  request_id = some context.request_id;
  ip = context.ip;
  user_agent = context.user_agent;
}
request_event (some u) hash context = record (user_event auth_password_reset_requested context u) {
  metadata = email_metadata hash none;
}

abbrev pub enqueue_reset_email : DelayRun → Option UserRecord → Action AuthDb (Unit {0})
enqueue_reset_email run none = pure tt
enqueue_reset_email run (some u) = modify (enqueue_email run.email_id run.now password_reset u.id)

module _ (security : Security) (run : DelayRun) (context : RequestContext) (email : ℕ) where
  abbrev pub request_reset : Action AuthDb DelayOutcome
  request_reset = do
    u ← find_user_by_email (security.normalize_email email)
    write_audit_log run.now
        (request_event u (security.sha256_hex (security.normalize_email email)) context)
    enqueue_reset_email run u
    pure done

  unfoldable pub forgot_password : Action AuthDb (Unit {0})
  forgot_password =
      try_catch
        (run_password_reset_request run.start run.now
          (security.sha256_hex (security.normalize_email email)) forgot_email_limit.window_ms
          (under_delay forgot_email_limit request_reset))
        on_attempt_error
      >>= answer
