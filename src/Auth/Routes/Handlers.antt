-- ===== src/Auth/Routes/Handlers.antt =====
-- The handlers of auth.routes.ts, each with its guards in their order.
use legaltech_colombia.Prelude.{ℕ, Bool, true, false, Option, none, some, List, if◌then◌else◌}
use legaltech_colombia.Common.{Action, ◌>>=◌, ◌>>◌}
use legaltech_colombia.Auth.Session.{Security, SessionSeed, CreatedSession}
use legaltech_colombia.Auth.Service.{
  AuthServiceOptions, CurrentUserResult, verify_csrf, RegisterRun, RegisterInput, register,
  LoginRun, LoginInput, login, logout, verify_email, DelayRun, resend_email_verification,
  forgot_password, reset_own_password, rotate_own_session, logout_all, revoke_session_of,
  rotate_csrf_token, User, Session, read_own_profile, list_own_sessions,
}
use legaltech_colombia.Auth.Routes.Guards.{
  AuthServer, Request, Reply, reply, on_server, enforce_ip_limit, require_same_origin,
  parsed_or_throw, id_or_not_found, require_csrf, require_current_user,
  require_csrf_if_session_valid, register_limiter, login_limiter, resend_limiter, forgot_limiter,
  reset_limiter, no_change, cleared, session_cookies, csrf_cookie, Site,
}

module _ (security : Security) (site : Site) where
  abbrev pub issue_csrf : ℕ → CurrentUserResult → Action AuthServer (Reply ℕ)
  issue_csrf raw current = do
    on_server (rotate_csrf_token current.session.id (security.sha256_hex raw))
    reply 200 (csrf_cookie raw) raw

  abbrev pub answer_csrf : ℕ → CurrentUserResult → Option ℕ → Action AuthServer (Reply ℕ)
  answer_csrf raw current none = issue_csrf raw current
  answer_csrf raw current (some existing) =
      if verify_csrf security current.session (some existing)
      then reply 200 no_change existing
      else issue_csrf raw current

  -- GET /csrf, with the token that is made when there is none that matches
  unfoldable pub get_csrf : ℕ → Request → Action AuthServer (Reply ℕ)
  get_csrf raw request = do
    current ← require_current_user security site request
    answer_csrf raw current request.csrf_token

  unfoldable pub post_register :
      RegisterRun → Request → Option RegisterInput → Action AuthServer (Reply (Unit {0}))
  post_register run request body = do
    require_same_origin site request
    enforce_ip_limit register_limiter request
    input ← parsed_or_throw body
    on_server (register security run request.context input)
    reply 202 no_change tt

  unfoldable pub post_login :
      AuthServiceOptions → LoginRun → Request → Option LoginInput → Action AuthServer (Reply User)
  post_login options run request body = do
    require_same_origin site request
    enforce_ip_limit login_limiter request
    input ← parsed_or_throw body
    result ← on_server (login security options run request.context input request.session_token)
    reply 200 (session_cookies result.session_raw result.csrf_raw) result.public_user

  unfoldable pub get_me : Request → Action AuthServer (Reply User)
  get_me request = do
    profile ← on_server (read_own_profile security request.received_at request.session_token)
    reply 200 no_change profile

  unfoldable pub get_sessions : ℕ → Request → Action AuthServer (Reply (List Session))
  get_sessions again request = do
    sessions ←
        on_server (list_own_sessions security request.received_at again request.session_token)
    reply 200 no_change sessions

  unfoldable pub post_logout : ℕ → ℕ → Request → Action AuthServer (Reply (Unit {0}))
  post_logout now at request = do
    require_csrf_if_session_valid security site request
    on_server (logout security now at request.session_token request.context)
    reply 204 cleared tt

  unfoldable pub post_email_verify : ℕ → Request → Option ℕ → Action AuthServer (Reply (Unit {0}))
  post_email_verify now request body = do
    require_same_origin site request
    token ← parsed_or_throw body
    on_server (verify_email security now token request.context)
    reply 204 no_change tt

  unfoldable pub post_resend : DelayRun → Request → Action AuthServer (Reply (Unit {0}))
  post_resend run request = do
    current ← require_current_user security site request
    require_csrf security site request current.session
    enforce_ip_limit resend_limiter request
    on_server (resend_email_verification run current)
    reply 202 no_change tt

  unfoldable pub post_forgot : DelayRun → Request → Option ℕ → Action AuthServer (Reply (Unit {0}))
  post_forgot run request body = do
    require_same_origin site request
    enforce_ip_limit forgot_limiter request
    email ← parsed_or_throw body
    on_server (forgot_password security run request.context email)
    reply 202 no_change tt

  unfoldable pub post_reset :
      ℕ → ℕ → Request → Option (ℕ × ℕ) → Action AuthServer (Reply (Unit {0}))
  post_reset email_id now request body = do
    require_same_origin site request
    enforce_ip_limit reset_limiter request
    input ← parsed_or_throw body
    on_server (reset_own_password security email_id now input.0 input.1 request.context)
    reply 204 no_change tt

  abbrev pub rotated_reply : Option CreatedSession → Action AuthServer (Reply Bool)
  rotated_reply none = reply 200 no_change false
  rotated_reply (some created) =
      reply 200 (session_cookies created.session_raw created.csrf_raw) true

  unfoldable pub post_rotate : ℕ → SessionSeed → Request → Action AuthServer (Reply Bool)
  post_rotate now seed request = do
    current ← require_current_user security site request
    require_csrf security site request current.session
    created ← on_server (rotate_own_session security now seed current)
    rotated_reply created

  unfoldable pub post_logout_all : ℕ → Request → Action AuthServer (Reply (Unit {0}))
  post_logout_all at request = do
    current ← require_current_user security site request
    require_csrf security site request current.session
    on_server (logout_all at current request.context)
    reply 204 cleared tt

  unfoldable pub delete_session : ℕ → ℕ → Request → Option ℕ → Action AuthServer (Reply (Unit {0}))
  delete_session at now request params = do
    current ← require_current_user security site request
    require_csrf security site request current.session
    id ← id_or_not_found params
    revoked_current ← on_server (revoke_session_of at now current id request.context)
    reply 204 (if revoked_current then cleared else no_change) tt
