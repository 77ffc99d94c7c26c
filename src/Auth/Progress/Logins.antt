-- ===== src/Auth/Progress/Logins.antt =====
-- `register` and `login` of `AuthService`, and the sessions.
use legaltech_colombia.Prelude.{ℕ, Option, none, some, arith, refl, find_where}
use legaltech_colombia.Common.{Error, RequestContext, pure}
use legaltech_colombia.Auth.Tables.{SessionRecord, AuthDb, UserRecord, rotated_reason}
use legaltech_colombia.Auth.Repository.{
  has_token_hash, revoke_session, create_user_with_email_verification,
}
use legaltech_colombia.Auth.Session.{Security, create_session_for_user}
use legaltech_colombia.Auth.Service.{
  user_input, AuthServiceOptions, LoginRun, LoginInput, LoginOutcome, throttled, invalid_password,
  mfa_required, granted, login, act_on, attempt_outcome, rotate_previous, revoke_previous,
  RegisterRun, RegisterInput, register, insert_and_audit, on_insert_error, register_found,
}
use legaltech_colombia.Auth.Sound.{Progresses, Progresses-refl, Progresses-trans, Progresses-same}
use legaltech_colombia.Auth.Progress.Statements.{
  Keeps, Keeps-bind, Keeps-try_catch, revoke_session-Keeps, create_user-Keeps,
}
use legaltech_colombia.Auth.Progress.Operations.{create_session_for_user-Keeps}

module _ (security : Security) (options : AuthServiceOptions) (run : LoginRun)
    (context : RequestContext) (input : LoginInput) where
  attempt_outcome-Keeps : Keeps (attempt_outcome security options run context input)
  attempt_outcome-Keeps db = Progresses-same _ _ (ground arith)

  revoke_previous-Keeps :
      (s : Option SessionRecord) → Keeps (revoke_previous security options run context input s)
  revoke_previous-Keeps none db = Progresses-refl db
  revoke_previous-Keeps (some s) db =
      Keeps-bind (revoke_session run.revoked_at s.id rotated_reason none) (λ _. pure tt)
        (revoke_session-Keeps run.revoked_at s.id rotated_reason none) (λ _ db. Progresses-refl db)
        db

  pub rotate_previous-Keeps :
      (raw : Option ℕ) → Keeps (rotate_previous security options run context input raw)
  rotate_previous-Keeps none db = Progresses-refl db
  rotate_previous-Keeps (some raw) db =
      revoke_previous-Keeps (find_where (has_token_hash (security.sha256_hex raw)) db.sessions) db

  act_on-Keeps :
      (raw : Option ℕ) (o : LoginOutcome) → Keeps (act_on security options run context input raw o)
  act_on-Keeps raw (throttled n) db = Progresses-refl db
  act_on-Keeps raw invalid_password db = Progresses-refl db
  act_on-Keeps raw mfa_required db = Progresses-refl db
  act_on-Keeps raw (granted u) db =
      Keeps-bind (create_session_for_user security run.seed u) _
        (create_session_for_user-Keeps security run.seed u)
        (λ created.
          Keeps-bind (rotate_previous security options run context input raw) _
            (rotate_previous-Keeps raw) (λ _ db. Progresses-same _ _ refl))
        db

  pub login-Keeps : (raw : Option ℕ) → Keeps (login security options run context input raw)
  unfolding login
  login-Keeps raw =
      Keeps-bind (attempt_outcome security options run context input)
        (act_on security options run context input raw) attempt_outcome-Keeps (act_on-Keeps raw)

module _ (security : Security) (run : RegisterRun) (context : RequestContext)
    (input : RegisterInput) where
  insert_and_audit-Keeps : Keeps (insert_and_audit security run context input)
  insert_and_audit-Keeps =
      Keeps-bind
        (create_user_with_email_verification run.user_id run.email_id run.now
          (user_input security run context input))
        _
        (create_user-Keeps run.user_id run.email_id run.now (user_input security run context input))
        (λ u db. Progresses-same _ _ refl)

  on_insert_error-Keeps : (e : Error) → Keeps (on_insert_error security run context input e)
  on_insert_error-Keeps e db = Progresses-same _ _ (ground arith)

  -- Given what the other requests do between the check and the insert.
  pub register-Keeps :
      ((db : AuthDb) → Progresses db (run.meanwhile db))
      → Keeps (register security run context input)
  unfolding register
  register-Keeps meanwhile db = found (find_where _ db.users)
    where
      found :
          (u : Option UserRecord) → Progresses db (register_found security run context input u db).1
      found (some u) = Progresses-same _ _ refl
      found none = Progresses-trans _ _ _ (meanwhile db) (
          Keeps-try_catch (insert_and_audit security run context input)
            (on_insert_error security run context input) insert_and_audit-Keeps
            on_insert_error-Keeps (run.meanwhile db))
