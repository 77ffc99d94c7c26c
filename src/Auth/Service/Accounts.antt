-- ===== src/Auth/Service/Accounts.antt =====
-- `register`, `verifyEmail` and `resetPassword` of `AuthService`.
use Prim.Native.String.{String}
use legaltech_colombia.Prelude.{ℕ, Option, none, some}
use legaltech_colombia.Common.{
  Action, pure, throw, modify, try_catch, ◌>>=◌, ◌>>◌, RequestContext, Error, failure,
  duplicate_email,
}
use legaltech_colombia.Auth.Tables.{
  UserRecord, AuthDb, AuthEntry, auth_register, auth_email_verified, auth_password_reset_completed,
  user_entity, created, duplicate, outcome_metadata,
}
use legaltech_colombia.Auth.Repository.{
  find_user_by_email, create_user_with_email_verification, CreateUserInput, write_audit_log,
  consume_email_verification_token, reset_password,
}
use legaltech_colombia.Auth.Session.{Security}
use legaltech_colombia.Auth.Service.Types.{user_event, token_error}

pub record RegisterInput : Type 0 where
  pub email : ℕ
  pub password : ℕ
  pub full_name : String

-- The generated ids and the instants of one registration, and what other requests write between its
-- check and its insert.
pub record RegisterRun : Type 0 where
  pub user_id : ℕ
  pub email_id : ℕ
  pub now : ℕ
  pub audited_at : ℕ
  pub meanwhile : AuthDb → AuthDb

abbrev pub duplicate_event : RequestContext → Option ℕ → AuthEntry
duplicate_event context existing = record {
  actor_user_id = none;
  actor_role = none;
  action = auth_register;
  entity_type = some user_entity;
  entity_id = existing;
  metadata = outcome_metadata duplicate;
  request_id = some context.request_id;
  ip = context.ip;
  user_agent = context.user_agent;
}

abbrev pub created_event : RequestContext → UserRecord → AuthEntry
created_event context u = record (user_event auth_register context u) {
  metadata = outcome_metadata created;
}

abbrev pub id_of_found : Option UserRecord → Option ℕ
id_of_found none = none
id_of_found (some u) = some u.id

module _ (security : Security) (run : RegisterRun) (context : RequestContext) where
  abbrev pub audit_duplicate_registration : Option ℕ → Action AuthDb (Unit {0})
  audit_duplicate_registration existing =
      write_audit_log run.audited_at (duplicate_event context existing)

  abbrev pub user_input : RegisterInput → CreateUserInput
  user_input input = record {
    email = security.normalize_email input.email;
    password_hash = security.hash_password input.password;
    full_name = security.trim input.full_name;
  }

  abbrev pub insert_and_audit : RegisterInput → Action AuthDb (Unit {0})
  insert_and_audit input = do
    u ← create_user_with_email_verification run.user_id run.email_id run.now (user_input input)
    write_audit_log run.audited_at (created_event context u)

  -- Only the insert throws `DuplicateEmailError`, so its handler can span the event after it.
  abbrev pub on_insert_error : RegisterInput → Error → Action AuthDb (Unit {0})
  on_insert_error input (failure duplicate_email) = do
    winner ← find_user_by_email (security.normalize_email input.email)
    audit_duplicate_registration (id_of_found winner)
  on_insert_error input e = throw e

  abbrev pub register_found : RegisterInput → Option UserRecord → Action AuthDb (Unit {0})
  register_found input (some existing) = audit_duplicate_registration (some existing.id)
  register_found input none = do
    modify run.meanwhile
    try_catch (insert_and_audit input) (on_insert_error input)

  unfoldable pub register : RegisterInput → Action AuthDb (Unit {0})
  register input = do
    existing ← find_user_by_email (security.normalize_email input.email)
    register_found input existing

abbrev pub or_token_error : {A : Type 0} → Option A → Action AuthDb (Unit {0})
or_token_error none = throw token_error
or_token_error (some _) = pure tt

module _ (security : Security) where
  unfoldable pub verify_email : ℕ → ℕ → RequestContext → Action AuthDb (Unit {0})
  verify_email now token context = do
    user_id ←
        consume_email_verification_token now (security.sha256_hex token)
          (user_event auth_email_verified context)
    or_token_error user_id

  -- `resetPassword`, with the id of the notice email and the clock of PostgreSQL
  unfoldable pub reset_own_password : ℕ → ℕ → ℕ → ℕ → RequestContext → Action AuthDb (Unit {0})
  reset_own_password email_id now token new_password context = do
    u ← reset_password email_id now (record {
      token_hash = security.sha256_hex token;
      password_hash = security.hash_password new_password;
      audit = user_event auth_password_reset_completed context;
    })
    or_token_error u
