-- ===== src/Auth/Routes/Guards.antt =====
-- The server, its requests, and the guards of auth.request.ts, auth.origin.ts and auth.cookies.ts.
use legaltech_colombia.Prelude.{◌==◌, ℕ, ◌*◌, Bool, false, not, Option, none, some}
use legaltech_colombia.Common.{
  Action, Result, pure, throw, throw_if, ◌>>=◌, ◌>>◌, RequestContext, Error, http, csrf_invalid,
  validation_error,
}
use legaltech_colombia.Auth.Tables.{AuthDb, SessionRecord}
use legaltech_colombia.Auth.Session.{Security}
use legaltech_colombia.Auth.Service.{
  CurrentUserResult, current_user, or_unauthenticated, verify_csrf, rate_limited_error,
  resource_not_found_error,
}
use legaltech_colombia.Limiter.Buckets.{FixedWindowRateLimiter, RateLimitResult, limiter, consume}

-- The five limiters of the plugin.
pub data LimiterName : Type 0 where
  register_limiter login_limiter resend_limiter forgot_limiter reset_limiter : LimiterName

pub record AuthServer : Type 0 where
  pub db : AuthDb
  pub register_ip_limiter : FixedWindowRateLimiter
  pub login_ip_limiter : FixedWindowRateLimiter
  pub resend_ip_limiter : FixedWindowRateLimiter
  pub forgot_ip_limiter : FixedWindowRateLimiter
  pub reset_ip_limiter : FixedWindowRateLimiter

abbrev pub ip_limiter : ℕ → FixedWindowRateLimiter
ip_limiter max = limiter max (10 * 60 * 1000)

abbrev pub start_server : AuthDb → AuthServer
start_server db = record {
  db = db;
  register_ip_limiter = ip_limiter 5;
  login_ip_limiter = ip_limiter 10;
  resend_ip_limiter = ip_limiter 5;
  forgot_ip_limiter = ip_limiter 5;
  reset_ip_limiter = ip_limiter 5;
}

abbrev pub limiter_of : LimiterName → AuthServer → FixedWindowRateLimiter
limiter_of register_limiter s = s.register_ip_limiter
limiter_of login_limiter s = s.login_ip_limiter
limiter_of resend_limiter s = s.resend_ip_limiter
limiter_of forgot_limiter s = s.forgot_ip_limiter
limiter_of reset_limiter s = s.reset_ip_limiter

abbrev pub with_limiter : LimiterName → FixedWindowRateLimiter → AuthServer → AuthServer
with_limiter register_limiter l s = record s { register_ip_limiter = l }
with_limiter login_limiter l s = record s { login_ip_limiter = l }
with_limiter resend_limiter l s = record s { resend_ip_limiter = l }
with_limiter forgot_limiter l s = record s { forgot_ip_limiter = l }
with_limiter reset_limiter l s = record s { reset_ip_limiter = l }

pub record Request : Type 0 where
  pub client_ip : ℕ
  pub context : RequestContext
  pub received_at : ℕ
  pub origin : Option ℕ
  pub referer : Option ℕ
  pub session_token : Option ℕ
  pub csrf_token : Option ℕ
  pub csrf_header : Option ℕ

-- The cookies that a reply sets or clears.
pub data CookieChange : Type 0 where
  no_change cleared : CookieChange
  session_cookies : ℕ → ℕ → CookieChange
  csrf_cookie : ℕ → CookieChange

pub record Reply (A : Type 0) : Type 0 where
  pub code : ℕ
  pub cookies : CookieChange
  pub body : A

abbrev pub reply : {A : Type 0} → ℕ → CookieChange → A → Action AuthServer (Reply A)
reply code cookies body = pure (record { code = code; cookies = cookies; body = body })

abbrev in_server : {A : Type 0} → AuthServer → Result A × AuthDb → Result A × AuthServer
in_server s (r, db) = (r, record s { db = db })

abbrev pub on_server : {A : Type 0} → Action AuthDb A → Action AuthServer A
on_server m s = in_server s (m s.db)

abbrev limited :
    LimiterName
    → AuthServer
    → RateLimitResult × FixedWindowRateLimiter
    → Result (Unit {0}) × AuthServer
limited name s (r, l) =
    throw_if (not r.allowed) (rate_limited_error r.retry_after_seconds) (with_limiter name l s)

abbrev pub enforce_ip_limit : LimiterName → Request → Action AuthServer (Unit {0})
enforce_ip_limit name request s =
    limited name s (consume request.client_ip request.received_at (limiter_of name s))

abbrev pub csrf_error : Error
csrf_error = http 403 csrf_invalid none

-- The origin of the application, and that of a URL, if it is one.
pub record Site : Type 0 where
  pub app_origin : ℕ
  pub url_origin : ℕ → Option ℕ

abbrev is_origin : ℕ → Option ℕ → Bool
is_origin app none = false
is_origin app (some origin) = origin == app

abbrev is_same_referer : Site → Option ℕ → Bool
is_same_referer site none = false
is_same_referer site (some referer) = is_origin site.app_origin (site.url_origin referer)

-- apps/api/src/modules/auth/auth.origin.ts, by the two headers
abbrev pub is_same_origin : Site → Option ℕ → Option ℕ → Bool
is_same_origin site (some origin) referer = origin == site.app_origin
is_same_origin site none referer = is_same_referer site referer

abbrev pub require_same_origin : Site → Request → Action AuthServer (Unit {0})
require_same_origin site request =
    throw_if (not (is_same_origin site request.origin request.referer)) csrf_error

-- `safeParse`: the data, or 400
abbrev pub parsed_or_throw : {A : Type 0} → Option A → Action AuthServer A
parsed_or_throw none = throw (http 400 validation_error none)
parsed_or_throw (some a) = pure a

abbrev pub id_or_not_found : Option ℕ → Action AuthServer ℕ
id_or_not_found none = throw resource_not_found_error
id_or_not_found (some id) = pure id

module _ (security : Security) (site : Site) where
  abbrev pub require_csrf : Request → SessionRecord → Action AuthServer (Unit {0})
  require_csrf request session =
      require_same_origin site request
      >> throw_if (not (verify_csrf security session request.csrf_header)) csrf_error

  abbrev pub require_current_user : Request → Action AuthServer CurrentUserResult
  require_current_user request =
      on_server
        (current_user security request.received_at request.session_token >>= or_unauthenticated)

  abbrev pub require_csrf_of : Request → Option CurrentUserResult → Action AuthServer (Unit {0})
  require_csrf_of request none = pure tt
  require_csrf_of request (some current) = require_csrf request current.session

  abbrev pub require_csrf_if_session_valid : Request → Action AuthServer (Unit {0})
  require_csrf_if_session_valid request = do
    current ← on_server (current_user security request.received_at request.session_token)
    require_csrf_of request current
