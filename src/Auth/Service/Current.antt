-- ===== src/Auth/Service/Current.antt =====
-- The current user and their sessions in `AuthService`.
use legaltech_colombia.Prelude.{
  ℕ, Bool, false, not, Option, none, some, List, map, ◌==◌, if◌then◌else◌,
}
use legaltech_colombia.Common.{
  Action, pure, throw, throw_if, ◌>>=◌, ◌>>◌, RequestContext, Role, allowed, is_active,
}
use legaltech_colombia.Auth.Tables.{
  UserRecord, SessionRecord, AuthDb, AuthEntry, AuthAction, AuthEntity, auth_logout,
  auth_logout_all, auth_session_revoked, user_entity, session_entity, no_metadata, logout_reason,
  logout_all_reason,
}
use legaltech_colombia.Auth.Policy.{can, AuthPolicyAction, user_read, session_list, session_revoke}
use legaltech_colombia.Auth.Repository.{
  find_user_by_id, list_active_sessions, revoke_session, revoke_own_session,
  revoke_all_own_sessions, rotate_session_csrf,
}
use legaltech_colombia.Auth.Session.{
  Security, SessionSeed, CreatedSession, load_valid_session, is_rotation_due,
  rotate_session_for_user, csrf_token_matches_session,
}
use legaltech_colombia.Auth.Service.Types.{
  User, to_public_user, Session, to_public_session, CurrentUserResult, actor_of,
  unauthenticated_error, resource_not_found_error,
}

abbrev pub current_of : SessionRecord → Option UserRecord → Option CurrentUserResult
current_of s none = none
current_of s (some u) =
    if is_active u.status
    then some (record { public_user = to_public_user u; session = s; actor = actor_of u })
    else none

abbrev pub user_of_session : Option SessionRecord → Action AuthDb (Option CurrentUserResult)
user_of_session none = pure none
user_of_session (some s) = do u ← find_user_by_id s.user_id; pure (current_of s u)

abbrev pub or_unauthenticated : Option CurrentUserResult → Action AuthDb CurrentUserResult
or_unauthenticated none = throw unauthenticated_error
or_unauthenticated (some current) = pure current

-- A denied action answers 404.
abbrev pub authorize : CurrentUserResult → AuthPolicyAction → Action AuthDb (Unit {0})
authorize current action =
    throw_if (not (allowed (can current.actor action current.public_user.id)))
      resource_not_found_error

abbrev pub own_event : AuthAction → AuthEntity → ℕ → CurrentUserResult → RequestContext → AuthEntry
own_event action entity id current context = record {
  actor_user_id = some current.public_user.id;
  actor_role = some current.public_user.role;
  action = action;
  entity_type = some entity;
  entity_id = some id;
  metadata = no_metadata;
  request_id = some context.request_id;
  ip = context.ip;
  user_agent = context.user_agent;
}

abbrev pub role_of_found : Option UserRecord → Option Role
role_of_found none = none
role_of_found (some u) = some u.role

abbrev pub logout_event : SessionRecord → Option UserRecord → RequestContext → AuthEntry
logout_event s u context = record {
  actor_user_id = some s.user_id;
  actor_role = role_of_found u;
  action = auth_logout;
  entity_type = some session_entity;
  entity_id = some s.id;
  metadata = no_metadata;
  request_id = some context.request_id;
  ip = context.ip;
  user_agent = context.user_agent;
}

abbrev pub end_session : ℕ → RequestContext → Option SessionRecord → Action AuthDb (Unit {0})
end_session at context none = pure tt
end_session at context (some s) = do
  u ← find_user_by_id s.user_id
  ignored ← revoke_session at s.id logout_reason (some (logout_event s u context))
  pure tt

module _ (security : Security) where
  unfoldable pub current_user : ℕ → Option ℕ → Action AuthDb (Option CurrentUserResult)
  current_user now raw = load_valid_session security now raw >>= user_of_session

  unfoldable pub read_own_profile : ℕ → Option ℕ → Action AuthDb User
  read_own_profile now raw = do
    found ← current_user now raw
    current ← or_unauthenticated found
    authorize current user_read
    pure current.public_user

  -- The clock is read again for the list.
  unfoldable pub list_own_sessions : ℕ → ℕ → Option ℕ → Action AuthDb (List Session)
  list_own_sessions now again raw = do
    found ← current_user now raw
    current ← or_unauthenticated found
    authorize current session_list
    sessions ← list_active_sessions current.public_user.id again
    pure (map (to_public_session current.session.id) sessions)

  abbrev pub rotate_if_due :
      ℕ → SessionSeed → CurrentUserResult → Action AuthDb (Option CreatedSession)
  rotate_if_due now seed current =
      if is_rotation_due current.session current.actor.role now
      then rotate_session_for_user security seed current.session current.public_user.id
          current.actor.role
      else pure none

  -- `rotateSession`: none when nothing is rotated. The clock is read again for the new session.
  unfoldable pub rotate_own_session :
      ℕ → SessionSeed → CurrentUserResult → Action AuthDb (Option CreatedSession)
  rotate_own_session now seed current =
      authorize current session_revoke >> rotate_if_due now seed current

  unfoldable pub logout : ℕ → ℕ → Option ℕ → RequestContext → Action AuthDb (Unit {0})
  logout now at raw context = load_valid_session security now raw >>= end_session at context

  abbrev pub verify_csrf : SessionRecord → Option ℕ → Bool
  verify_csrf s none = false
  verify_csrf s (some raw) = csrf_token_matches_session security s raw

-- `revokeOwnSession`: whether the revoked session is the current one
unfoldable pub revoke_session_of :
    ℕ → ℕ → CurrentUserResult → ℕ → RequestContext → Action AuthDb Bool
revoke_session_of at now current id context = do
  authorize current session_revoke
  gone ←
      revoke_own_session at id current.public_user.id now logout_reason
        (some (own_event auth_session_revoked session_entity id current context))
  throw_if (not gone) resource_not_found_error
  pure (id == current.session.id)

unfoldable pub logout_all : ℕ → CurrentUserResult → RequestContext → Action AuthDb (Unit {0})
logout_all at current context = do
  authorize current session_revoke
  ignored ←
      revoke_all_own_sessions at current.public_user.id logout_all_reason
        (some (own_event auth_logout_all user_entity current.public_user.id current context))
  pure tt

abbrev pub rotate_csrf_token : ℕ → ℕ → Action AuthDb (Unit {0})
rotate_csrf_token id hash = rotate_session_csrf id hash
