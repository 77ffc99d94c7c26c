-- ===== src/Notifications/Composers.antt =====
-- notifications.types.ts and composers.ts. Of a message's subject and text only the kind, the token and
-- the announced duration are kept: the Spanish words and the link's origin are left out.
use legaltech_colombia.Prelude.{
  ℕ, ◌+◌, ◌/◌, ◌++◌, Option, none, some, [], ◌∷◌, find_where, update_where,
}
use legaltech_colombia.Common.{
  Action, pure, throw, gets, modify, ◌>>=◌, ◌>>◌, failure, recipient_not_found,
}
use legaltech_colombia.Auth.Tables.{
  AuthDb, UserRecord, TokenRecord, EmailOutboxKind, email_verification, password_reset,
  password_reset_completed,
}
use legaltech_colombia.Auth.Repository.{is_user_id, is_unused, used}
use legaltech_colombia.Auth.Session.{Security}

pub record OutboxEntry : Type 0 where
  pub id : ℕ
  pub kind : EmailOutboxKind
  pub user_id : ℕ
  pub created_at : ℕ

pub data EmailText : Type 0 where
  verification_text password_reset_text : ℕ → ℕ → EmailText
  password_changed_text : EmailText

pub record EmailMessage : Type 0 where
  pub to : ℕ
  pub text : EmailText

-- `scope.now` and the random token of a dispatch
pub record DispatchScope : Type 0 where
  pub now : ℕ
  pub raw : ℕ

abbrev pub EmailComposer : Type 0
EmailComposer = OutboxEntry → DispatchScope → Action AuthDb EmailMessage

pub record EmailComposerOptions : Type 0 where
  pub email_verification_token_ttl_ms : ℕ
  pub password_reset_token_ttl_ms : ℕ

-- `Math.round` of a duration
abbrev pub hours : ℕ → ℕ
hours ms = (ms + 1800000) / 3600000

abbrev pub minutes : ℕ → ℕ
minutes ms = (ms + 30000) / 60000

abbrev pub email_or_throw : Option UserRecord → Action AuthDb ℕ
email_or_throw none = throw (failure recipient_not_found)
email_or_throw (some u) = pure u.email

abbrev pub find_user_email : ℕ → Action AuthDb ℕ
find_user_email user_id = do
  found ← gets (λ db. find_where (is_user_id user_id) db.users)
  email_or_throw found

abbrev pub new_token : ℕ → ℕ → ℕ → TokenRecord
new_token user_id hash expires_at = record {
  user_id = user_id;
  token_hash = hash;
  expires_at = expires_at;
  used_at = none;
}

abbrev pub replace_email_verification_token : ℕ → ℕ → ℕ → ℕ → Action AuthDb (Unit {0})
replace_email_verification_token now user_id hash expires_at = modify λ db. record db {
  email_verification_tokens =
      update_where (is_unused user_id) (used now) db.email_verification_tokens
      ++ new_token user_id hash expires_at ∷ [];
}

abbrev pub replace_password_reset_token : ℕ → ℕ → ℕ → ℕ → Action AuthDb (Unit {0})
replace_password_reset_token now user_id hash expires_at = modify λ db. record db {
  password_reset_tokens =
      update_where (is_unused user_id) (used now) db.password_reset_tokens
      ++ new_token user_id hash expires_at ∷ [];
}

module _ (security : Security) (options : EmailComposerOptions) where
  abbrev pub compose_verification : EmailComposer
  compose_verification entry scope = do
    to ← find_user_email entry.user_id
    replace_email_verification_token scope.now entry.user_id (security.sha256_hex scope.raw)
        (scope.now + options.email_verification_token_ttl_ms)
    pure (record {
      to = to;
      text = verification_text scope.raw (hours options.email_verification_token_ttl_ms);
    })

  abbrev pub compose_password_reset : EmailComposer
  compose_password_reset entry scope = do
    to ← find_user_email entry.user_id
    replace_password_reset_token scope.now entry.user_id (security.sha256_hex scope.raw)
        (scope.now + options.password_reset_token_ttl_ms)
    pure (record {
      to = to;
      text = password_reset_text scope.raw (minutes options.password_reset_token_ttl_ms);
    })

  abbrev pub compose_password_changed : EmailComposer
  compose_password_changed entry scope = do
    to ← find_user_email entry.user_id
    pure (record { to = to; text = password_changed_text })

  -- `createEmailComposers`
  abbrev pub create_email_composers : EmailOutboxKind → Option EmailComposer
  create_email_composers email_verification = some compose_verification
  create_email_composers password_reset = some compose_password_reset
  create_email_composers password_reset_completed = some compose_password_changed
