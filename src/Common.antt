-- ===== src/Common.antt =====
-- What the modules of the API share: apps/api/src/common/policy.ts, common/http-error.ts,
-- packages/contracts/src/error.ts and role.ts, the audit entries of
-- apps/api/src/modules/auth/auth.types.ts, and calls that may fail.
-- Ids are UUIDs, which the program only compares: they are naturals. Instants are microseconds.
-- The Spanish texts of the errors are left out.
mod Calls
pub mod Runs
pub mod Writes
pub use Calls.*
use Prim.Native.String.{String}
use legaltech_colombia.Prelude.{ℕ, Option, none, Bool, true, false}

-- packages/contracts/src/role.ts
pub data Role : Type 0 where
  user professional admin super_admin : Role

pub data UserStatus : Type 0 where
  active suspended : UserStatus

abbrev pub is_active : UserStatus → Bool
is_active active = true
is_active suspended = false

abbrev pub is_user : Role → Bool
is_user user = true
is_user professional = false
is_user admin = false
is_user super_admin = false

abbrev pub is_admin : Role → Bool
is_admin user = false
is_admin professional = false
is_admin admin = true
is_admin super_admin = false

abbrev pub is_super_admin : Role → Bool
is_super_admin user = false
is_super_admin professional = false
is_super_admin admin = false
is_super_admin super_admin = true

-- The authenticated user a policy decides for.
pub record Actor : Type 0 where
  pub id : ℕ
  pub role : Role
  pub status : UserStatus

pub data DenyReason : Type 0 where
  inactive_actor role_not_allowed not_owner unknown_action : DenyReason

pub data Decision : Type 0 where
  allow : Decision
  deny : DenyReason → Decision

abbrev pub allowed : Decision → Bool
allowed allow = true
allowed (deny _) = false

pub record RequestContext : Type 0 where
  pub ip : Option String
  pub user_agent : Option String
  pub request_id : String
