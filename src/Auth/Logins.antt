-- ===== src/Auth/Logins.antt =====
-- `login`: when a session is granted.
use legaltech_colombia.Prelude.{
  ◌∙◌, ap, sym, subst, [], ◌∷◌, ◌++◌, Option, refl, ℕ, true, false, some, ◌≡◌, inl, inr, arith,
  find_where, Option-cases, ◌&&◌,
}
use legaltech_colombia.Common.Runs.{bind-ok, ok-same}
use legaltech_colombia.Common.{ok, RequestContext, active}
use legaltech_colombia.Auth.Tables.{auth_login_success, add_log, AuthDb, UserRecord}
use legaltech_colombia.Auth.Evolution.{Extends}
use legaltech_colombia.Auth.Settings.{remaining_login_delay_ms}
use legaltech_colombia.Auth.Repository.{
  add_session, create_session, new_session, has_email, login_scope,
}
use legaltech_colombia.Auth.Progress.Logins.{rotate_previous-Keeps}
use legaltech_colombia.Auth.Session.{
  create_session_for_user, CreatedSession, first_session_input, Security,
}
use legaltech_colombia.Auth.Service.{
  user_event, rotate_previous, throttled, act_on, grant, to_public_user, LoginResult, login,
  mfa_required, invalid_password, LoginOutcome, AuthServiceOptions, LoginRun, LoginInput, granted,
  attempt_outcome, needs_mfa, login_email, login_email_hash,
}

module _ (security : Security) (options : AuthServiceOptions) (run : LoginRun)
    (context : RequestContext) (input : LoginInput) where
  -- The milliseconds that an attempt must still wait.
  abbrev pub wait_of : AuthDb → ℕ
  wait_of db =
      let scope =
        login_scope run.attempted_at (login_email_hash security input)
          options.account_login_window_ms db in
      remaining_login_delay_ms options.account_login_attempt_limit scope.recent scope.last_at
        scope.now

  -- The user may have a session: right password, active, and no role that needs MFA in production.
  pub record MayEnter (db : AuthDb) (u : UserRecord) : Type 0 where
    pub found : find_where (has_email (login_email security input)) db.users ≡ some u
    pub password_right : security.verify_password u.password_hash input.password ≡ true
    pub is_active : u.status ≡ active
    pub without_mfa : (options.is_production && needs_mfa u) ≡ false
    pub waited : wait_of db ≡ 0

  granted-MayEnter :
      (db db' : AuthDb) {u : UserRecord}
      → attempt_outcome security options run context input db ≡ (ok (granted u), db')
      → MayEnter db u × (db' ≡ db)
  granted-MayEnter db db' {u} h =
      elim (Option-cases (find_where (has_email (login_email security input)) db.users)) [
        | inl e ↦ ground arith
        | inr (v, e) ↦ ground arith
      ]

  created_session :
      (u : UserRecord) (db db' : AuthDb) {c : CreatedSession}
      → create_session_for_user security run.seed u db ≡ (ok c, db')
      → (c.session_raw ≡ run.seed.session_raw)
        × (c.csrf_raw ≡ run.seed.csrf_raw)
        × (db' ≡ add_session (new_session run.seed.id (first_session_input security run.seed u)) db)
  unfolding create_session
  created_session u db db' {c} h = ground arith

  grant-Extends :
      (raw : Option ℕ) (u : UserRecord) (result : LoginResult) (db db' : AuthDb)
      → grant security options run context input raw u db ≡ (ok result, db')
      → (result ≡ record {
        public_user = to_public_user u;
        session_raw = run.seed.session_raw;
        csrf_raw = run.seed.csrf_raw;
      })
        × Extends
            (db.sessions ++ new_session run.seed.id (first_session_input security run.seed u) ∷ [])
            db'.sessions
  grant-Extends raw u result db db' h =
      let ((c, db1), e, k) = bind-ok (create_session_for_user security run.seed u) _ db db' h in
      let (same_raw, same_csrf, made) = created_session u db db1 {c = c} e in
      let ((_, db2), f, l) =
        bind-ok (rotate_previous security options run context input raw) _ db1 db' k in
      let kept = (rotate_previous-Keeps security options run context input raw db1).extends in
      let (same, left) =
        ok-same _
          (record {
            public_user = to_public_user u;
            session_raw = c.session_raw;
            csrf_raw = c.csrf_raw;
          })
          result (add_log (user_event auth_login_success context u) run.audited_at db2) db' refl
          l in
      let ends : db'.sessions
          ≡ (rotate_previous security options run context input raw db1).1.sessions =
        sym (ap (λ (d : AuthDb). d.sessions) left) ∙ sym (ap (λ p. p.1.sessions) f) in
      (
        rw (same_raw, same_csrf) at (sym same),
        rw ends (
            subst
              (λ d.
                Extends d.sessions
                  (rotate_previous security options run context input raw db1).1.sessions)
              made kept),
      )

  -- A login that answers has found an active user by the email, with the right password, outside the
  -- roles that need MFA in production and with no delay left; the answer is this user with the new
  -- tokens. The new session of this user follows those that were there.
  pub login_granted :
      (raw : Option ℕ) (result : LoginResult) (db db' : AuthDb)
      → login security options run context input raw db ≡ (ok result, db')
      → (u : UserRecord) × MayEnter db u
        × (result ≡ record {
          public_user = to_public_user u;
          session_raw = run.seed.session_raw;
          csrf_raw = run.seed.csrf_raw;
        })
        × Extends
            (db.sessions ++ new_session run.seed.id (first_session_input security run.seed u) ∷ [])
            db'.sessions
  unfolding login
  login_granted raw result db db' h =
      let ((o, db1), e, k) =
        bind-ok (attempt_outcome security options run context input)
          (act_on security options run context input raw) db db' h in
      acted o db1 e k
    where
      acted :
          (o : LoginOutcome) (db1 : AuthDb)
          → attempt_outcome security options run context input db ≡ (ok o, db1)
          → act_on security options run context input raw o db1 ≡ (ok result, db')
          → (u : UserRecord) × MayEnter db u
            × (result ≡ record {
              public_user = to_public_user u;
              session_raw = run.seed.session_raw;
              csrf_raw = run.seed.csrf_raw;
            })
            × Extends
                (db.sessions
                  ++ new_session run.seed.id (first_session_input security run.seed u) ∷ [])
                db'.sessions
      acted (throttled n) db1 e k = cc
      acted invalid_password db1 e k = cc
      acted mfa_required db1 e k = cc
      acted (granted u) db1 e k =
          let (enters, same) = granted-MayEnter db db1 {u = u} e in
          let (answer, extends) = grant-Extends raw u result db1 db' k in
          (
            u,
            enters,
            answer,
            subst
                (λ d.
                  Extends
                    (d.sessions
                      ++ new_session run.seed.id (first_session_input security run.seed u) ∷ [])
                    db'.sessions)
                same extends,
          )
