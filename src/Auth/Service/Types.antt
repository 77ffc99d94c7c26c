-- ===== src/Auth/Service/Types.antt =====
-- The options, the public shapes and the errors of `AuthService`.
use Prim.Native.String.{String}
use legaltech_colombia.Prelude.{ℕ, Bool, Option, none, some, ◌==◌, is_some}
use legaltech_colombia.Common.{
  Action, throw, failure, attempt_unavailable, Role, Actor, RequestContext, Error, http, not_found,
  unauthenticated, rate_limited, service_unavailable, invalid_or_expired_token, invalid_credentials,
  forbidden,
}
use legaltech_colombia.Auth.Tables.{
  AuthDb, UserRecord, SessionRecord, AuthEntry, AuthAction, user_entity, no_metadata,
}

pub record AuthServiceOptions : Type 0 where
  pub is_production : Bool
  pub account_login_attempt_limit : ℕ
  pub account_login_window_ms : ℕ

pub record User : Type 0 where
  pub id : ℕ
  pub email : ℕ
  pub full_name : String
  pub role : Role
  pub email_verified : Bool
  pub created_at : ℕ

abbrev pub to_public_user : UserRecord → User
to_public_user u = record {
  id = u.id;
  email = u.email;
  full_name = u.full_name;
  role = u.role;
  email_verified = is_some u.email_verified_at;
  created_at = u.created_at;
}

pub record Session : Type 0 where
  pub id : ℕ
  pub created_at : ℕ
  pub last_seen_at : ℕ
  pub ip : Option String
  pub user_agent : Option String
  pub current : Bool

abbrev pub to_public_session : ℕ → SessionRecord → Session
to_public_session current_id s = record {
  id = s.id;
  created_at = s.created_at;
  last_seen_at = s.last_seen_at;
  ip = s.ip;
  user_agent = s.user_agent;
  current = s.id == current_id;
}

pub record CurrentUserResult : Type 0 where
  pub public_user : User
  pub session : SessionRecord
  pub actor : Actor

abbrev pub actor_of : UserRecord → Actor
actor_of u = record { id = u.id; role = u.role; status = u.status }

abbrev pub unauthenticated_error : Error
unauthenticated_error = http 401 unauthenticated none

abbrev pub resource_not_found_error : Error
resource_not_found_error = http 404 not_found none

abbrev pub unavailable_error : Error
unavailable_error = http 503 service_unavailable (some 1)

abbrev pub rate_limited_error : ℕ → Error
rate_limited_error seconds = http 429 rate_limited (some seconds)

abbrev pub token_error : Error
token_error = http 400 invalid_or_expired_token none

abbrev pub credentials_error : Error
credentials_error = http 401 invalid_credentials none

abbrev pub mfa_error : Error
mfa_error = http 403 forbidden none

-- An event of a user on their own account.
abbrev pub user_event : AuthAction → RequestContext → UserRecord → AuthEntry
user_event action context u = record {
  actor_user_id = some u.id;
  actor_role = some u.role;
  action = action;
  entity_type = some user_entity;
  entity_id = some u.id;
  metadata = no_metadata;
  request_id = some context.request_id;
  ip = context.ip;
  user_agent = context.user_agent;
}

-- `LoginAttemptUnavailableError` answers 503.
abbrev pub on_attempt_error : {A : Type 0} → Error → Action AuthDb A
on_attempt_error (failure attempt_unavailable) = throw unavailable_error
on_attempt_error e = throw e
