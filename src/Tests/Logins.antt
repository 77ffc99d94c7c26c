-- ===== src/Tests/Logins.antt =====
-- Requests of authentication at concrete inputs: registration, logins, sessions and resets.
use legaltech_colombia.Auth.Rotation.{rotation_once}
use legaltech_colombia.Auth.Progress.Reach.{sessions_sound, Leads, IsOver, over_for_good}
use legaltech_colombia.Auth.Resets.{reset_takes_over}
use legaltech_colombia.Auth.Routes.{
  csrf_error, post_resend, post_rotate, post_logout_all, delete_session, post_logout,
}
use legaltech_colombia.Auth.Guards.{csrf_required}
use legaltech_colombia.Auth.Sound.{IsSoundTable}
use legaltech_colombia.Auth.Validity.{load_valid_session_outcome, slid, IsValid, session_of}
use legaltech_colombia.Auth.Enumeration.{
  register_uniform, Duplicate, Registered, forgot_password_uniform,
}
use legaltech_colombia.Auth.Evolution.{Extends}
use legaltech_colombia.Auth.Repository.{
  usable, is_unused, is_user_id, new_session, rotate_session, reset_password, create_session,
}
use legaltech_colombia.Auth.Refusals.{login_failure_counted, login_throttled, failures_at}
use legaltech_colombia.Auth.Closing.{logout_all_closes, IsClosed, sessions_of_others}
use legaltech_colombia.Auth.Logins.{MayEnter, login_granted}
use legaltech_colombia.Prelude.{
  ◌<◌, suc, refl, count_where, ◌⊎◌, ◌≤◌, ◌++◌, find_where, some, arith, ◌≡◌, none, [], ◌∷◌,
}
use legaltech_colombia.Common.{ok, err, user}
use legaltech_colombia.Auth.Tables.{TokenRecord, SessionRecord, UserRecord}
use legaltech_colombia.Auth.Session.{
  first_session_input, load_valid_session, rotate_session_for_user,
}
use legaltech_colombia.Auth.Service.{
  token_error, mfa_error, credentials_error, current_user, logout_all, forgot_password,
  reset_own_password, register, to_public_user, rate_limited_error, login,
}
use legaltech_colombia.Tests.Accounts.{
  plain_security, test_options, client, signed_up, ana_seed, next_seed, ana_run, right_input,
  wrong_input, signed_in, ana_session, current_ana, with_session, closed, ana_result, failed_once,
  reset_done, taken_run, ana_again, forgot_run, next_session, rotated_db, test_site, forged,
  after_use, running,
}

sessions_sound_example : IsSoundTable signed_in.sessions
sessions_sound_example =
    sessions_sound plain_security test_options signed_up signed_in refl
      (Leads.logging_in ana_run client right_input none)

over_for_good_example : current_user plain_security 2592000100 (some 7) closed ≡ (ok none, closed)
over_for_good_example =
    over_for_good plain_security test_options 2592000100 7 with_session closed ana_session refl
      (IsOver.by_age (omega arith)) (Leads.logging_out_all 200 current_ana client)

load_valid_session_outcome_example :
    ((s : SessionRecord) × (session_of plain_security 7 with_session ≡ some s)
      × IsValid 300 s
      × (load_valid_session plain_security 300 (some 7) with_session
          ≡ (ok (some s), slid 300 s with_session)))
    ⊎ (((session_of plain_security 7 with_session ≡ none)
          ⊎ ((s : SessionRecord) × (session_of plain_security 7 with_session ≡ some s)
              × ¬ IsValid 300 s))
        × (load_valid_session plain_security 300 (some 7) with_session ≡ (ok none, with_session)))
load_valid_session_outcome_example = load_valid_session_outcome plain_security 300 7 with_session

login_granted_example :
    (u : UserRecord) × MayEnter plain_security test_options ana_run client right_input signed_up u
    × (ana_result ≡ record { public_user = to_public_user u; session_raw = 7; csrf_raw = 8 })
    × Extends
        ([] ++ new_session 70 (first_session_input plain_security ana_seed u) ∷ [])
        signed_in.sessions
unfolding login create_session
login_granted_example =
    login_granted plain_security test_options ana_run client right_input none ana_result signed_up
      signed_in refl

no_entry :
    (u : UserRecord) → ¬ MayEnter plain_security test_options ana_run client wrong_input signed_up u
no_entry u h = let found = h.found in let right = h.password_right in ground (arith, found, right)

login_failure_counted_example :
    let (answer, db) =
      login plain_security test_options ana_run client wrong_input none signed_up in
    ((answer ≡ err credentials_error) ⊎ (answer ≡ err mfa_error))
    × (db.users ≡ signed_up.users)
    × (db.sessions ≡ signed_up.sessions)
    × (failures_at plain_security test_options ana_run client wrong_input 5000 db
        ≡ suc (failures_at plain_security test_options ana_run client wrong_input 5000 signed_up))
login_failure_counted_example =
    login_failure_counted plain_security test_options ana_run client wrong_input none 5000 signed_up
      refl refl no_entry (omega arith)

login_throttled_example :
    let (answer, db) =
      login plain_security test_options ana_run client right_input none failed_once in
    (answer ≡ err (rate_limited_error 30))
    × (db.users ≡ failed_once.users)
    × (db.sessions ≡ failed_once.sessions)
    × (failures_at plain_security test_options ana_run client right_input 5000 db
        ≡ failures_at plain_security test_options ana_run client right_input 5000 failed_once)
unfolding login
login_throttled_example =
    login_throttled plain_security test_options ana_run client right_input none 5000 failed_once
      refl (omega arith)

reset_takes_over_example :
    (t : TokenRecord) × (u : UserRecord) × (find_where
        (usable 500 1300)
        with_session.password_reset_tokens
      ≡ some t)
    × (t.token_hash ≡ 1300)
    × (t.used_at ≡ none)
    × (500 < t.expires_at)
    × (u.id ≡ t.user_id)
    × (find_where (is_user_id u.id) reset_done.users ≡ some u)
    × (u.password_hash ≡ 19)
    × (count_where (is_unused u.id) reset_done.password_reset_tokens ≡ 0)
    × IsClosed plain_security u.id reset_done 700 7
    × (sessions_of_others u.id reset_done ≡ sessions_of_others u.id with_session)
    × (reset_own_password plain_security 601 700 300 13 client reset_done
        ≡ (err token_error, reset_done))
unfolding reset_own_password reset_password
reset_takes_over_example =
    reset_takes_over plain_security 600 500 300 12 client 700 7 601 13 client with_session
      reset_done (omega arith) refl

logout_all_closes_example :
    let (answer, db) = logout_all 200 current_ana client with_session in
    (answer ≡ ok tt)
    × IsClosed plain_security 1 db 300 7
    × (sessions_of_others 1 db ≡ sessions_of_others 1 with_session)
    × (db.users ≡ with_session.users)
logout_all_closes_example =
    logout_all_closes plain_security 200 300 7 current_ana client with_session refl refl

register_uniform_example :
    let (answer, db) = register plain_security taken_run client ana_again signed_up in
    (answer ≡ ok tt)
    × (Registered plain_security taken_run client ana_again signed_up db
        ⊎ Duplicate plain_security taken_run client ana_again signed_up db)
register_uniform_example = register_uniform plain_security taken_run client ana_again signed_up

forgot_password_uniform_example :
    (forgot_password plain_security forgot_run client 50 (record signed_up { users = [] })).0
    ≡ (forgot_password plain_security forgot_run client 50 signed_up).0
forgot_password_uniform_example =
    forgot_password_uniform plain_security forgot_run client 50 signed_up []

rotation_once_example :
    (1 ≡ next_session.user_id)
    × (next_session.absolute_expires_at ≡ ana_session.absolute_expires_at)
    × (next_session.idle_expires_at ≤ ana_session.absolute_expires_at)
    × (next_session.token_hash ≡ 1009)
    × (rotate_session_for_user plain_security ana_seed ana_session 1 user rotated_db
        ≡ (ok none, rotated_db))
unfolding rotate_session_for_user rotate_session create_session
rotation_once_example =
    rotation_once plain_security ana_session 1 next_seed ana_seed user user with_session rotated_db
      (record { session = next_session; session_raw = 9; csrf_raw = 10 }) refl

csrf_required_example :
    (post_resend plain_security test_site forgot_run forged running
      ≡ (err csrf_error, record running { db = after_use }))
    × (post_rotate plain_security test_site 300 next_seed forged running
        ≡ (err csrf_error, record running { db = after_use }))
    × (post_logout_all plain_security test_site 301 forged running
        ≡ (err csrf_error, record running { db = after_use }))
    × (delete_session plain_security test_site 301 300 forged (some 70) running
        ≡ (err csrf_error, record running { db = after_use }))
    × (post_logout plain_security test_site 300 301 forged running
        ≡ (err csrf_error, record running { db = after_use }))
unfolding current_user load_valid_session
csrf_required_example =
    csrf_required plain_security test_site forged forgot_run next_seed 300 301 (some 70) current_ana
      running after_use refl refl
