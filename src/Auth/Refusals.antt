-- ===== src/Auth/Refusals.antt =====
-- `login`: what a refusal leaves behind.
use legaltech_colombia.Prelude.{
  suc, ◌+◌, ◌<◌, Option, count_where-append_one, lt→ltb, refl, ◌||◌, not, Bool-cases, ==_refl, ◌⊎◌,
  none, ℕ, true, some, ◌≡◌, inl, inr, arith, find_where, Option-cases, ◌&&◌,
}
use legaltech_colombia.Common.{err, is_active, ok, RequestContext}
use legaltech_colombia.Auth.Tables.{audit_log_data, add_log, AuthEntry, AuthDb, UserRecord}
use legaltech_colombia.Auth.Settings.{retry_after_seconds}
use legaltech_colombia.Auth.Repository.{
  counts_as_failure, has_email_hash, is_login_failed, has_email, login_scope,
}
use legaltech_colombia.Auth.Session.{Security}
use legaltech_colombia.Auth.Service.{
  mfa_error, login_rate_limited, credentials_error, rate_limited_error, login, login_failure,
  mfa_required, invalid_password, LoginOutcome, AuthServiceOptions, LoginRun, LoginInput,
  attempt_outcome, needs_mfa, login_email, login_email_hash,
}
use legaltech_colombia.Auth.Logins.{wait_of, MayEnter}

module _ (security : Security) (options : AuthServiceOptions) (run : LoginRun)
    (context : RequestContext) (input : LoginInput) where
  -- What one refusal writes.
  refused-event :
      (db : AuthDb)
      → run.start ≡ none
      → wait_of security options run context input db ≡ 0
      → ((u : UserRecord) → ¬ MayEnter security options run context input db u)
      → (o : LoginOutcome) × (e : AuthEntry) × ((o ≡ invalid_password) ⊎ (o ≡ mfa_required))
        × (is_login_failed e.action ≡ true)
        × (has_email_hash (login_email_hash security input) e.metadata ≡ true)
        × (attempt_outcome security options run context input db
            ≡ (ok o, add_log e run.attempted_at db))
  refused-event db free waited barred =
      let found = find_where (has_email (login_email security input)) db.users in
      let hash = login_email_hash security input in
      elim (Option-cases found) [
        | inl e ↦ (
          invalid_password,
          login_failure none hash context none,
          inl refl,
          refl,
          ==_refl hash,
          ground arith,
        )
        | inr (u, e) ↦
            elim (Bool-cases (
              not (security.verify_password u.password_hash input.password)
              || not (is_active u.status))) [
                | inl bad ↦ (
                  invalid_password,
                  login_failure (some u) hash context none,
                  inl refl,
                  refl,
                  ==_refl hash,
                  ground arith,
                )
                | inr good ↦ elim (Bool-cases (options.is_production && needs_mfa u)) [
                  | inl mfa ↦ (
                    mfa_required,
                    login_failure (some u) hash context (some "mfa_required_production"),
                    inr refl,
                    refl,
                    ==_refl hash,
                    ground arith,
                  )
                  | inr plain ↦ absurd (barred u (ground arith))
                ]
              ]
      ]

  -- How many failures count at an instant, towards the limit of the account of this email.
  abbrev pub failures_at : ℕ → AuthDb → ℕ
  failures_at later db =
      (login_scope later (login_email_hash security input) options.account_login_window_ms
        db).recent

  -- When a login takes the lock of its attempt, nobody may enter by its email and password and no delay
  -- is left, it answers 401 or 403, leaves users and sessions as they were, and adds exactly one failure to those that count for the
  -- email during the window.
  pub login_failure_counted :
      (raw : Option ℕ) (later : ℕ) (db : AuthDb)
      → run.start ≡ none
      → wait_of security options run context input db ≡ 0
      → ((u : UserRecord) → ¬ MayEnter security options run context input db u)
      → later < run.attempted_at + options.account_login_window_ms
      → let (answer, db') = login security options run context input raw db in
        ((answer ≡ err credentials_error) ⊎ (answer ≡ err mfa_error))
        × (db'.users ≡ db.users)
        × (db'.sessions ≡ db.sessions)
        × (failures_at later db' ≡ suc (failures_at later db))
  unfolding login
  login_failure_counted raw later db free waited barred recent =
      let (o, e, which, failed, hashed, r) = refused-event db free waited barred in
      let counted =
        count_where-append_one
          (counts_as_failure later options.account_login_window_ms
            (login_email_hash security input))
          db.audit_logs (audit_log_data e run.attempted_at) in
      elim which [
        | inl k ↦ rw (r, k) (inl refl, refl, refl, ground (arith, counted))
        | inr k ↦ rw (r, k) (inr refl, refl, refl, ground (arith, counted))
      ]

  -- While a delay is left, every login for the email that takes the lock of its attempt answers 429 with
  -- the seconds to wait, whatever the password, and changes neither users, sessions nor the failures that count at any instant.
  pub login_throttled :
      (raw : Option ℕ) (later : ℕ) (db : AuthDb)
      → run.start ≡ none
      → 0 < wait_of security options run context input db
      → let (answer, db') = login security options run context input raw db in
        (answer
          ≡ err (
              rate_limited_error
                (retry_after_seconds (wait_of security options run context input db))))
        × (db'.users ≡ db.users)
        × (db'.sessions ≡ db.sessions)
        × (failures_at later db' ≡ failures_at later db)
  unfolding login
  login_throttled raw later db free waits =
      let hash = login_email_hash security input in
      let e =
        login_rate_limited hash
          (retry_after_seconds (wait_of security options run context input db)) context in
      let counted =
        count_where-append_one (counts_as_failure later options.account_login_window_ms hash)
          db.audit_logs (audit_log_data e run.attempted_at) in
      rw (free, lt→ltb 0 (wait_of security options run context input db) waits)
        (refl, refl, refl, ground (arith, counted))
