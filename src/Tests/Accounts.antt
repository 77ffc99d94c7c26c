-- ===== src/Tests/Accounts.antt =====
-- Accounts, sessions and requests of authentication at concrete inputs.
use legaltech_colombia.Auth.Routes.{Site, Request, AuthServer, start_server}
use legaltech_colombia.Prelude.{some, ◌+◌, true, none, [], ◌∷◌, ◌==◌}
use legaltech_colombia.Common.{RequestContext, user, active}
use legaltech_colombia.Auth.Tables.{SessionRecord, AuthDb, UserRecord, TokenRecord}
use legaltech_colombia.Auth.Session.{rotate_session_for_user, Security, SessionSeed}
use legaltech_colombia.Auth.Service.{
  LoginResult, CurrentUserResult, current_user, DelayRun, RegisterInput, logout_all,
  reset_own_password, RegisterRun, to_public_user, actor_of, AuthServiceOptions, LoginRun,
  LoginInput, login,
}

-- A stand-in for the cryptography: a hash adds a constant.
abbrev pub plain_security : Security
plain_security = record {
  normalize_email = λ e. e;
  sha256_hex = λ t. t + 1000;
  hash_password = λ p. p + 7;
  verify_password = λ h p. h == p + 7;
  dummy_password_hash = 0;
  trim = λ t. t;
}

abbrev pub test_options : AuthServiceOptions
test_options = record {
  is_production = true;
  account_login_attempt_limit = 1;
  account_login_window_ms = 86400000;
}

abbrev pub client : RequestContext
client = record { ip = none; user_agent = none; request_id = "r1" }

abbrev ana : UserRecord
ana = record {
  id = 1;
  email = 50;
  password_hash = 17;
  full_name = "Ana";
  role = user;
  status = active;
  email_verified_at = none;
  created_at = 5;
}

abbrev reset_token : TokenRecord
reset_token = record { user_id = 1; token_hash = 1300; expires_at = 900000; used_at = none }

abbrev pub signed_up : AuthDb
signed_up = record {
  users = ana ∷ [];
  sessions = [];
  email_verification_tokens = [];
  password_reset_tokens = reset_token ∷ [];
  email_outbox = [];
  audit_logs = [];
}

abbrev pub ana_seed : SessionSeed
ana_seed = record {
  id = 70;
  session_raw = 7;
  csrf_raw = 8;
  now = 100;
  ip = none;
  user_agent = none;
}

abbrev pub next_seed : SessionSeed
next_seed = record {
  id = 71;
  session_raw = 9;
  csrf_raw = 10;
  now = 4000000;
  ip = none;
  user_agent = none;
}

abbrev pub ana_run : LoginRun
ana_run = record {
  start = none;
  attempted_at = 99;
  seed = ana_seed;
  revoked_at = 101;
  audited_at = 102;
}

abbrev pub right_input : LoginInput
right_input = record { email = 50; password = 10 }

abbrev pub wrong_input : LoginInput
wrong_input = record { email = 50; password = 11 }

abbrev pub signed_in : AuthDb
signed_in = (login plain_security test_options ana_run client right_input none signed_up).1

abbrev pub ana_session : SessionRecord
ana_session = record {
  id = 70;
  user_id = 1;
  token_hash = 1007;
  csrf_token_hash = 1008;
  created_at = 100;
  last_seen_at = 100;
  idle_expires_at = 604800100;
  absolute_expires_at = 2592000100;
  revoked_at = none;
  revoked_reason = none;
  rotated_at = none;
  ip = none;
  user_agent = none;
}

abbrev pub current_ana : CurrentUserResult
current_ana = record {
  public_user = to_public_user ana;
  session = ana_session;
  actor = actor_of ana;
}

abbrev pub with_session : AuthDb
with_session = record signed_up { sessions = ana_session ∷ [] }

abbrev pub closed : AuthDb
closed = (logout_all 200 current_ana client with_session).1

abbrev pub ana_result : LoginResult
ana_result = record { public_user = to_public_user ana; session_raw = 7; csrf_raw = 8 }

abbrev pub failed_once : AuthDb
failed_once = (login plain_security test_options ana_run client wrong_input none signed_up).1

abbrev pub reset_done : AuthDb
reset_done = (reset_own_password plain_security 600 500 300 12 client with_session).1

abbrev pub taken_run : RegisterRun
taken_run = record { user_id = 3; email_id = 601; now = 40; audited_at = 41; meanwhile = λ db. db }

abbrev pub ana_again : RegisterInput
ana_again = record { email = 50; password = 3; full_name = "Ana" }

abbrev pub forgot_run : DelayRun
forgot_run = record { start = none; now = 60; email_id = 602 }

abbrev pub next_session : SessionRecord
next_session = record ana_session {
  id = 71;
  token_hash = 1009;
  csrf_token_hash = 1010;
  created_at = 4000000;
  last_seen_at = 4000000;
  idle_expires_at = 608800000;
}

abbrev pub rotated_db : AuthDb
rotated_db = (rotate_session_for_user plain_security next_seed ana_session 1 user with_session).1

abbrev pub test_site : Site
test_site = record { app_origin = 1; url_origin = λ u. some u }

-- A request with the session's cookie but without its CSRF header.
abbrev pub forged : Request
forged = record {
  client_ip = 9;
  context = client;
  received_at = 300;
  origin = none;
  referer = some 1;
  session_token = some 7;
  csrf_token = some 8;
  csrf_header = none;
}

abbrev pub after_use : AuthDb
after_use = (current_user plain_security 300 (some 7) with_session).1

abbrev pub running : AuthServer
running = start_server with_session
