-- ===== src/Auth/Tables.antt =====
-- apps/api/src/modules/auth/auth.types.ts and the models of packages/database/prisma/schema.prisma:
-- the tables that authentication reads and writes. Rows are never deleted.
use Prim.Native.String.{String}
use legaltech_colombia.Prelude.{ℕ, Option, none, some, List, [], ◌∷◌, ◌++◌}
use legaltech_colombia.Common.{Role, UserStatus}

pub record UserRecord : Type 0 where
  pub id : ℕ
  pub email : ℕ
  pub password_hash : ℕ
  pub full_name : String
  pub role : Role
  pub status : UserStatus
  pub email_verified_at : Option ℕ
  pub created_at : ℕ

-- `enum SessionRevokedReason`
pub data SessionRevokedReason : Type 0 where
  logout_reason logout_all_reason password_reset_reason password_change_reason :
      SessionRevokedReason
  rotated_reason role_change_reason admin_revoke_reason expired_reason : SessionRevokedReason

pub record SessionRecord : Type 0 where
  pub id : ℕ
  pub user_id : ℕ
  pub token_hash : ℕ
  pub csrf_token_hash : ℕ
  pub created_at : ℕ
  pub last_seen_at : ℕ
  pub idle_expires_at : ℕ
  pub absolute_expires_at : ℕ
  pub revoked_at : Option ℕ
  pub revoked_reason : Option SessionRevokedReason
  pub rotated_at : Option ℕ
  pub ip : Option String
  pub user_agent : Option String

-- A row of `email_verification_tokens` or of `password_reset_tokens`.
pub record TokenRecord : Type 0 where
  pub user_id : ℕ
  pub token_hash : ℕ
  pub expires_at : ℕ
  pub used_at : Option ℕ

-- `enum EmailOutboxKind`
pub data EmailOutboxKind : Type 0 where
  email_verification password_reset password_reset_completed : EmailOutboxKind

pub record EmailOutboxRow : Type 0 where
  pub id : ℕ
  pub kind : EmailOutboxKind
  pub user_id : ℕ
  pub created_at : ℕ
  pub sent_at : Option ℕ

pub data AuthAction : Type 0 where
  auth_register auth_email_verified auth_logout auth_logout_all auth_session_revoked : AuthAction
  auth_login_success auth_login_failed auth_login_rate_limited : AuthAction
  auth_password_reset_requested auth_password_reset_completed : AuthAction

pub data AuthEntity : Type 0 where
  user_entity session_entity : AuthEntity

pub data RegisterOutcome : Type 0 where
  created duplicate : RegisterOutcome

-- The metadata of the events, by the fields that they hold.
pub data Metadata : Type 0 where
  no_metadata : Metadata
  outcome_metadata : RegisterOutcome → Metadata
  email_metadata : ℕ → Option String → Metadata
  retry_metadata : ℕ → ℕ → Metadata

-- The fields of an `AuditLogEntry` that authentication fills.
pub record AuthEntry : Type 0 where
  pub actor_user_id : Option ℕ
  pub actor_role : Option Role
  pub action : AuthAction
  pub entity_type : Option AuthEntity
  pub entity_id : Option ℕ
  pub metadata : Metadata
  pub request_id : Option String
  pub ip : Option String
  pub user_agent : Option String

-- `{ ...auditLogData(entry), occurredAt }`
pub record AuthLog : Type 0 where
  pub entry : AuthEntry
  pub open entry use *
  pub occurred_at : ℕ

pub record AuthDb : Type 0 where
  pub users : List UserRecord
  pub sessions : List SessionRecord
  pub email_verification_tokens : List TokenRecord
  pub password_reset_tokens : List TokenRecord
  pub email_outbox : List EmailOutboxRow
  pub audit_logs : List AuthLog

abbrev pub audit_log_data : AuthEntry → ℕ → AuthLog
audit_log_data e now = record { entry = e; occurred_at = now }

abbrev pub add_log : AuthEntry → ℕ → AuthDb → AuthDb
add_log e now db = record db { audit_logs = db.audit_logs ++ audit_log_data e now ∷ [] }

-- `auditLog.create`, when the caller gave an event
abbrev pub add_optional_log : Option AuthEntry → ℕ → AuthDb → AuthDb
add_optional_log none now db = db
add_optional_log (some e) now db = add_log e now db

abbrev pub enqueue_email : ℕ → ℕ → EmailOutboxKind → ℕ → AuthDb → AuthDb
enqueue_email id now kind user_id db = record db {
  email_outbox =
      db.email_outbox
      ++ record { id = id; kind = kind; user_id = user_id; created_at = now; sent_at = none } ∷ [];
}
