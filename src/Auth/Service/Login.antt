-- ===== src/Auth/Service/Login.antt =====
-- `login` of `AuthService`.
use Prim.Native.String.{String}
use legaltech_colombia.Prelude.{ℕ, Bool, not, Option, none, some, ◌&&◌, ◌||◌, ltb, if◌then◌else◌}
use legaltech_colombia.Common.{
  Action, pure, throw, try_catch, ◌>>=◌, ◌>>◌, RequestContext, is_active, is_admin, is_super_admin,
}
use legaltech_colombia.Auth.Tables.{
  UserRecord, SessionRecord, AuthDb, AuthEntry, auth_login_failed, auth_login_rate_limited,
  auth_login_success, email_metadata, retry_metadata, rotated_reason,
}
use legaltech_colombia.Auth.Settings.{remaining_login_delay_ms, retry_after_seconds}
use legaltech_colombia.Auth.Repository.{
  PrismaError, AttemptScope, run_login_attempt, find_user_by_email, write_audit_log,
  find_session_by_token_hash, revoke_session,
}
use legaltech_colombia.Auth.Session.{Security, SessionSeed, create_session_for_user}
use legaltech_colombia.Auth.Service.Types.{
  AuthServiceOptions, User, to_public_user, user_event, rate_limited_error, credentials_error,
  mfa_error, on_attempt_error,
}

pub data LoginOutcome : Type 0 where
  throttled : ℕ → LoginOutcome
  invalid_password mfa_required : LoginOutcome
  granted : UserRecord → LoginOutcome

-- The `auth.login.failed` event, by whether the email has a user.
abbrev pub login_failure : Option UserRecord → ℕ → RequestContext → Option String → AuthEntry
login_failure none hash context reason = record {
  actor_user_id = none;
  actor_role = none;
  action = auth_login_failed;
  entity_type = none;
  entity_id = none;
  metadata = email_metadata hash reason;
  request_id = some context.request_id;
  ip = context.ip;
  user_agent = context.user_agent;
}
login_failure (some u) hash context reason = record (user_event auth_login_failed context u) {
  metadata = email_metadata hash reason;
}

abbrev pub login_rate_limited : ℕ → ℕ → RequestContext → AuthEntry
login_rate_limited hash seconds context = record {
  actor_user_id = none;
  actor_role = none;
  action = auth_login_rate_limited;
  entity_type = none;
  entity_id = none;
  metadata = retry_metadata hash seconds;
  request_id = some context.request_id;
  ip = context.ip;
  user_agent = context.user_agent;
}

pub record LoginInput : Type 0 where
  pub email : ℕ
  pub password : ℕ

-- Whether the lock is had, the clock of PostgreSQL in the attempt, the new session's seed, and the
-- instants of what follows.
pub record LoginRun : Type 0 where
  pub start : Option PrismaError
  pub attempted_at : ℕ
  pub seed : SessionSeed
  pub revoked_at : ℕ
  pub audited_at : ℕ

pub record LoginResult : Type 0 where
  pub public_user : User
  pub session_raw : ℕ
  pub csrf_raw : ℕ

-- `ADMIN` or `SUPER_ADMIN`
abbrev pub needs_mfa : UserRecord → Bool
needs_mfa u = is_admin u.role || is_super_admin u.role

abbrev pub login_email : Security → LoginInput → ℕ
login_email security input = security.normalize_email input.email

abbrev pub login_email_hash : Security → LoginInput → ℕ
login_email_hash security input = security.sha256_hex (login_email security input)

abbrev pub stored_hash : Security → Option UserRecord → ℕ
stored_hash security none = security.dummy_password_hash
stored_hash security (some u) = u.password_hash

module _ (security : Security) (options : AuthServiceOptions) (run : LoginRun)
    (context : RequestContext) (input : LoginInput) where
  -- A refusal, with its `auth.login.failed` event.
  abbrev pub refuse : Option UserRecord → Option String → LoginOutcome → Action AuthDb LoginOutcome
  refuse u reason outcome =
      write_audit_log run.attempted_at
        (login_failure u (login_email_hash security input) context reason)
      >> pure outcome

  abbrev pub decide : Bool → Option UserRecord → Action AuthDb LoginOutcome
  decide password_ok none = refuse none none invalid_password
  decide password_ok (some u) =
      if not password_ok || not (is_active u.status)
      then refuse (some u) none invalid_password
      else if options.is_production && needs_mfa u
      then refuse (some u) (some "mfa_required_production") mfa_required
      else pure (granted u)

  -- One verification in every case: of the dummy hash when there is no such user.
  abbrev pub judge : Option UserRecord → Action AuthDb LoginOutcome
  judge found = decide (security.verify_password (stored_hash security found) input.password) found

  abbrev pub login_attempt : AttemptScope → Action AuthDb LoginOutcome
  login_attempt scope =
      let remaining =
        remaining_login_delay_ms options.account_login_attempt_limit scope.recent scope.last_at
          scope.now in
      if ltb 0 remaining
      then write_audit_log scope.now (
          login_rate_limited (login_email_hash security input) (retry_after_seconds remaining)
            context)
        >> pure (throttled (retry_after_seconds remaining))
      else find_user_by_email (login_email security input) >>= judge

  abbrev pub attempt_outcome : Action AuthDb LoginOutcome
  attempt_outcome =
      try_catch
        (run_login_attempt run.start run.attempted_at (login_email_hash security input)
          options.account_login_window_ms login_attempt)
        on_attempt_error

  abbrev pub revoke_previous : Option SessionRecord → Action AuthDb (Unit {0})
  revoke_previous none = pure tt
  revoke_previous (some previous) = do
    ignored ← revoke_session run.revoked_at previous.id rotated_reason none
    pure tt

  abbrev pub rotate_previous : Option ℕ → Action AuthDb (Unit {0})
  rotate_previous none = pure tt
  rotate_previous (some raw) = do
    previous ← find_session_by_token_hash (security.sha256_hex raw)
    revoke_previous previous

  abbrev pub grant : Option ℕ → UserRecord → Action AuthDb LoginResult
  grant previous_raw u = do
    created ← create_session_for_user security run.seed u
    rotate_previous previous_raw
    write_audit_log run.audited_at (user_event auth_login_success context u)
    pure (record {
      public_user = to_public_user u;
      session_raw = created.session_raw;
      csrf_raw = created.csrf_raw;
    })

  abbrev pub act_on : Option ℕ → LoginOutcome → Action AuthDb LoginResult
  act_on previous_raw (throttled seconds) = throw (rate_limited_error seconds)
  act_on previous_raw invalid_password = throw credentials_error
  act_on previous_raw mfa_required = throw mfa_error
  act_on previous_raw (granted u) = grant previous_raw u

  unfoldable pub login : Option ℕ → Action AuthDb LoginResult
  login previous_raw = attempt_outcome >>= act_on previous_raw
