-- ===== src/Auth/Repository/Tokens.antt =====
-- The tokens of the emails in `PrismaAuthRepository`: each is used once, in one transaction.
use legaltech_colombia.Prelude.{
  ℕ, Bool, Option, none, some, ◌==◌, ◌&&◌, ltb, is_none, find_where, update_where,
}
use legaltech_colombia.Common.{
  Action, pure, throw, gets, modify, transaction, ◌>>=◌, ◌>>◌, failure, database_error,
}
use legaltech_colombia.Auth.Tables.{
  UserRecord, SessionRecord, TokenRecord, AuthDb, AuthEntry, add_log, enqueue_email,
  password_reset_completed, SessionRevokedReason, password_reset_reason,
}
use legaltech_colombia.Auth.Repository.Accounts.{is_user_id}

-- `token_hash = … AND used_at IS NULL AND expires_at > clock_timestamp()`
abbrev pub usable : ℕ → ℕ → TokenRecord → Bool
usable now hash t = t.token_hash == hash && is_none t.used_at && ltb now t.expires_at

abbrev pub used : ℕ → TokenRecord → TokenRecord
used now t = record t { used_at = some now }

abbrev pub is_unverified : ℕ → UserRecord → Bool
is_unverified id u = u.id == id && is_none u.email_verified_at

abbrev pub verified : ℕ → UserRecord → UserRecord
verified now u = record u { email_verified_at = some now }

-- A row that `findUniqueOrThrow` or `update` does not find is P2025.
abbrev pub or_throw : {A : Type 0} → Option A → Action AuthDb A
or_throw none = throw (failure database_error)
or_throw (some a) = pure a

abbrev pub use_verification_token : ℕ → ℕ → AuthDb → AuthDb
use_verification_token now hash db = record db {
  email_verification_tokens =
      update_where (usable now hash) (used now) db.email_verification_tokens;
}

abbrev pub verify_user : ℕ → ℕ → AuthDb → AuthDb
verify_user now id db = record db {
  users = update_where (is_unverified id) (verified now) db.users;
}

abbrev pub consume :
    ℕ → ℕ → (UserRecord → AuthEntry) → Option TokenRecord → Action AuthDb (Option ℕ)
consume now hash audit none = pure none
consume now hash audit (some t) = do
  modify (use_verification_token now hash)
  modify (verify_user now t.user_id)
  found ← gets (λ db. find_where (is_user_id t.user_id) db.users)
  u ← or_throw found
  modify (add_log (audit u) now)
  pure (some t.user_id)

unfoldable pub consume_email_verification_token :
    ℕ → ℕ → (UserRecord → AuthEntry) → Action AuthDb (Option ℕ)
consume_email_verification_token now hash audit = transaction do
  t ← gets (λ db. find_where (usable now hash) db.email_verification_tokens)
  consume now hash audit t

abbrev pub with_password : ℕ → UserRecord → UserRecord
with_password hash u = record u { password_hash = hash }

abbrev pub is_unused : ℕ → TokenRecord → Bool
is_unused user_id t = t.user_id == user_id && is_none t.used_at

abbrev pub is_unrevoked_of : ℕ → SessionRecord → Bool
is_unrevoked_of user_id s = s.user_id == user_id && is_none s.revoked_at

abbrev pub revoked : ℕ → SessionRevokedReason → SessionRecord → SessionRecord
revoked now reason s = record s { revoked_at = some now; revoked_reason = some reason }

abbrev pub use_reset_token : ℕ → ℕ → AuthDb → AuthDb
use_reset_token now hash db = record db {
  password_reset_tokens = update_where (usable now hash) (used now) db.password_reset_tokens;
}

abbrev pub set_password : ℕ → ℕ → AuthDb → AuthDb
set_password id hash db = record db {
  users = update_where (is_user_id id) (with_password hash) db.users;
}

abbrev pub use_reset_tokens_of : ℕ → ℕ → AuthDb → AuthDb
use_reset_tokens_of now user_id db = record db {
  password_reset_tokens = update_where (is_unused user_id) (used now) db.password_reset_tokens;
}

abbrev pub revoke_where : ℕ → SessionRevokedReason → (SessionRecord → Bool) → AuthDb → AuthDb
revoke_where now reason p db = record db {
  sessions = update_where p (revoked now reason) db.sessions;
}

pub record ResetPasswordInput : Type 0 where
  pub token_hash : ℕ
  pub password_hash : ℕ
  pub audit : UserRecord → AuthEntry

abbrev pub reset :
    ℕ → ℕ → ResetPasswordInput → Option TokenRecord → Action AuthDb (Option UserRecord)
reset email_id now input none = pure none
reset email_id now input (some t) = do
  modify (use_reset_token now input.token_hash)
  modify (set_password t.user_id input.password_hash)
  found ← gets (λ db. find_where (is_user_id t.user_id) db.users)
  u ← or_throw found
  modify (use_reset_tokens_of now u.id)
  modify (revoke_where now password_reset_reason (is_unrevoked_of u.id))
  modify (enqueue_email email_id now password_reset_completed u.id)
  modify (add_log (input.audit u) now)
  pure (some u)

unfoldable pub reset_password : ℕ → ℕ → ResetPasswordInput → Action AuthDb (Option UserRecord)
reset_password email_id now input = transaction do
  t ← gets (λ db. find_where (usable now input.token_hash) db.password_reset_tokens)
  reset email_id now input t
