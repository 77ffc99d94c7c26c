-- ===== src/Auth/Progress/Operations.antt =====
-- The operations of `AuthService`, from the statements that they are made of.
use legaltech_colombia.Auth.Repository.{
  revoke_all_own_sessions, revoke_own_session, reset_password, revoke_session, is_user_id,
  consume_email_verification_token, ResetPasswordInput,
}
use legaltech_colombia.Prelude.{
  ◌==◌, find_where, ℕ, ◌+◌, ◌≤◌, Bool, true, false, not, Option, none, some, arith, if◌then◌else◌,
}
use legaltech_colombia.Common.{
  Action, RequestContext, Role, user, professional, admin, super_admin, allowed, pure, throw_if,
  ◌>>=◌, ◌>>◌,
}
use legaltech_colombia.Common.Writes.{Writes-throw_if}
use legaltech_colombia.Auth.Tables.{
  logout_all_reason, logout_reason, user_entity, auth_password_reset_completed, session_entity,
  auth_email_verified, auth_session_revoked, auth_logout_all, SessionRecord, AuthDb, UserRecord,
}
use legaltech_colombia.Auth.Policy.{can, session_revoke}
use legaltech_colombia.Auth.Session.{
  is_rotation_due, CreatedSession, Security, SessionSeed, load_valid_session, session_durations,
  first_session_input, next_session_input, create_session_for_user, rotate_session_for_user,
  session_rotation_grace_ms,
}
use legaltech_colombia.Auth.Service.{
  logout_event, rotate_if_due, user_event, or_token_error, resource_not_found_error, authorize,
  rotate_csrf_token, user_of_session, own_event, verify_email, reset_own_password,
  CurrentUserResult, current_user, logout, end_session, rotate_own_session, revoke_session_of,
  logout_all, DelayRun, resend_email_verification, forgot_password,
}
use legaltech_colombia.Auth.Sound.{Progresses, Progresses-refl, Progresses-trans, Progresses-same}
use legaltech_colombia.Auth.Validity.{load_valid_session-Keeps}
use legaltech_colombia.Auth.Progress.Statements.{
  Keeps, Keeps-bind, revoke_session-Keeps, revoke_own_session-Keeps, revoke_all_own_sessions-Keeps,
  create_session-Keeps, rotate_session-Keeps, rotate_session_csrf-Keeps, consume-Keeps,
  reset_password-Keeps,
}

first_session-within :
    (now : ℕ) (role : Role)
    → now + (session_durations role).idle_ms ≤ now + (session_durations role).absolute_ms
first_session-within now user = omega arith
first_session-within now professional = omega arith
first_session-within now admin = omega arith
first_session-within now super_admin = omega arith

pub create_session_for_user-Keeps :
    (security : Security) (seed : SessionSeed) (u : UserRecord)
    → Keeps (create_session_for_user security seed u)
create_session_for_user-Keeps security seed u =
    Keeps-bind _ _
      (create_session-Keeps seed.id (first_session_input security seed u)
        (first_session-within seed.now u.role))
      (λ s db. Progresses-refl db)

rotate_session_for_user-Keeps :
    (security : Security) (seed : SessionSeed) (previous : SessionRecord) (user_id : ℕ)
    (role : Role)
    → Keeps (rotate_session_for_user security seed previous user_id role)
unfolding rotate_session_for_user
rotate_session_for_user-Keeps security seed previous user_id role =
    Keeps-bind _ _
      (rotate_session-Keeps seed.id
        (record {
          previous_session_id = previous.id;
          user_id = user_id;
          now = seed.now;
          grace_ms = session_rotation_grace_ms;
          new_session = next_session_input security seed previous user_id role;
        })
        (omega arith))
      (λ s db. Progresses-refl db)

or_token_error-Keeps : {A : Type 0} (o : Option A) → Keeps (or_token_error o)
or_token_error-Keeps none db = Progresses-refl db
or_token_error-Keeps (some a) db = Progresses-refl db

pub current_user-Keeps :
    (security : Security) (now : ℕ) (raw : Option ℕ) → Keeps (current_user security now raw)
unfolding current_user
current_user-Keeps security now raw =
    Keeps-bind (load_valid_session security now raw) user_of_session
      (load_valid_session-Keeps security now raw) reads
  where
    reads : (s : Option SessionRecord) → Keeps (user_of_session s)
    reads none db = Progresses-refl db
    reads (some s) db = Progresses-refl db

pub logout-Keeps :
    (security : Security) (now at : ℕ) (raw : Option ℕ) (context : RequestContext)
    → Keeps (logout security now at raw context)
unfolding logout
logout-Keeps security now at raw context =
    Keeps-bind (load_valid_session security now raw) (end_session at context)
      (load_valid_session-Keeps security now raw) ends
  where
    ends : (s : Option SessionRecord) → Keeps (end_session at context s)
    ends none db = Progresses-refl db
    ends (some s) db =
        let u = find_where (is_user_id s.user_id) db.users in
        Keeps-bind (revoke_session at s.id logout_reason (some (logout_event s u context)))
          (λ _. pure tt)
          (revoke_session-Keeps at s.id logout_reason (some (logout_event s u context)))
          (λ _ db. Progresses-refl db) db

Keeps-authorized :
    {A : Type 0} (current : CurrentUserResult) (m : Action AuthDb A)
    → Keeps m
    → Keeps (authorize current session_revoke >> m)
Keeps-authorized current m h =
    Writes-throw_if Progresses Progresses-refl Progresses-trans
      (not (allowed (can current.actor session_revoke current.public_user.id)))
      resource_not_found_error m h

module _ (at now : ℕ) (current : CurrentUserResult) (id : ℕ) (context : RequestContext) where
  answers :
      (gone : Bool)
      → Keeps (throw_if (not gone) resource_not_found_error >> pure (id == current.session.id))
  answers true db = Progresses-refl db
  answers false db = Progresses-refl db

  pub revoke_session_of-Keeps : Keeps (revoke_session_of at now current id context)
  unfolding revoke_session_of
  revoke_session_of-Keeps =
      let audit = some (own_event auth_session_revoked session_entity id current context) in
      Keeps-authorized current
        (revoke_own_session at id current.public_user.id now logout_reason audit >>= λ gone.
          throw_if (not gone) resource_not_found_error >> pure (id == current.session.id))
        (Keeps-bind (revoke_own_session at id current.public_user.id now logout_reason audit)
          (λ gone. throw_if (not gone) resource_not_found_error >> pure (id == current.session.id))
          (revoke_own_session-Keeps at id current.public_user.id now logout_reason audit) answers)

pub logout_all-Keeps :
    (at : ℕ) (current : CurrentUserResult) (context : RequestContext)
    → Keeps (logout_all at current context)
unfolding logout_all
logout_all-Keeps at current context =
    let audit =
      some (own_event auth_logout_all user_entity current.public_user.id current context) in
    let m = revoke_all_own_sessions at current.public_user.id logout_all_reason audit in
    Keeps-authorized current (m >>= λ _. pure tt) (
      Keeps-bind m (λ _. pure tt)
        (revoke_all_own_sessions-Keeps at current.public_user.id logout_all_reason audit)
        (λ _ db. Progresses-refl db))

pub rotate_own_session-Keeps :
    (security : Security) (now : ℕ) (seed : SessionSeed) (current : CurrentUserResult)
    → Keeps (rotate_own_session security now seed current)
unfolding rotate_own_session
rotate_own_session-Keeps security now seed current =
    Keeps-authorized current (rotate_if_due security now seed current)
      (branch (is_rotation_due current.session current.actor.role now))
  where
    branch :
        (b : Bool)
        → Keeps {A = Option CreatedSession} (
            if b
            then rotate_session_for_user security seed current.session current.public_user.id
                current.actor.role
            else pure none)
    branch true db =
        rotate_session_for_user-Keeps security seed current.session current.public_user.id
          current.actor.role db
    branch false db = Progresses-refl db

pub rotate_csrf_token-Keeps : (id hash : ℕ) → Keeps (rotate_csrf_token id hash)
rotate_csrf_token-Keeps id hash = rotate_session_csrf-Keeps id hash

-- The operations that leave the table of sessions.
pub verify_email-Keeps :
    (security : Security) (now token : ℕ) (context : RequestContext)
    → Keeps (verify_email security now token context)
unfolding verify_email
verify_email-Keeps security now token context =
    Keeps-bind
      (consume_email_verification_token now (security.sha256_hex token)
        (user_event auth_email_verified context))
      or_token_error
      (consume-Keeps now (security.sha256_hex token) (user_event auth_email_verified context))
      or_token_error-Keeps

pub reset_own_password-Keeps :
    (security : Security) (email_id now token password : ℕ) (context : RequestContext)
    → Keeps (reset_own_password security email_id now token password context)
unfolding reset_own_password
reset_own_password-Keeps security email_id now token password context =
    let input : ResetPasswordInput = record {
      token_hash = security.sha256_hex token;
      password_hash = security.hash_password password;
      audit = user_event auth_password_reset_completed context;
    } in
    Keeps-bind (reset_password email_id now input) or_token_error
      (reset_password-Keeps email_id now input) or_token_error-Keeps

pub resend-Keeps :
    (run : DelayRun) (current : CurrentUserResult) → Keeps (resend_email_verification run current)
unfolding resend_email_verification
resend-Keeps run current db = Progresses-same _ _ (ground arith)

pub forgot_password-Keeps :
    (security : Security) (run : DelayRun) (context : RequestContext) (email : ℕ)
    → Keeps (forgot_password security run context email)
unfolding forgot_password
forgot_password-Keeps security run context email db = Progresses-same _ _ (ground arith)
