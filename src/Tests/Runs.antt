-- ===== src/Tests/Runs.antt =====
-- Runs of the rate limiter and of the dispatch of emails at concrete inputs.
use legaltech_colombia.Notifications.Runs.{Run}
use legaltech_colombia.Prelude.{
  length, map, not, ◌&&◌, select_where, some, find_where, count_where, ◌==◌, if◌then◌else◌, ℕ, ◌+◌,
  ◌≤◌, ◌≡◌, refl, true, false, none, List, [], ◌∷◌, arith,
}
use legaltech_colombia.Common.{RequestContext, ok, ok, active, err, user, failure, email_not_sent}
use legaltech_colombia.Auth.Tables.{
  password_reset, UserRecord, AuthDb, EmailOutboxRow, email_verification,
}
use legaltech_colombia.Auth.Session.{Security}
use legaltech_colombia.Limiter.Buckets.{limiter, consume, consume_swept}
use legaltech_colombia.Limiter.Windows.{Call, answers, sweeping_unseen}
use legaltech_colombia.Limiter.Bound.{granted, window_bound}
use legaltech_colombia.Notifications.Links.{reset_link_works}
use legaltech_colombia.Auth.Repository.{is_user_id, is_unused}
use legaltech_colombia.Auth.Service.{reset_own_password}
use legaltech_colombia.Notifications.Composers.{
  EmailMessage, OutboxEntry, compose_password_reset, password_reset_text, EmailComposerOptions,
  DispatchScope, create_email_composers,
}
use legaltech_colombia.Notifications.Dispatch.{
  is_listed_id, EmailTransport, dispatch_pending_emails,
}
use legaltech_colombia.Notifications.Pending.{row_id, is_unsent, unsent}
use legaltech_colombia.Notifications.Settled.{dispatch_settles}

abbrev calls : List Call
calls =
    record { key = 1; now = 10 }
    ∷ record { key = 1; now = 20 }
    ∷ record { key = 2; now = 30 }
    ∷ record { key = 1; now = 2000 }
    ∷ []

abbrev burst : List Call
burst =
    record { key = 1; now = 10 } ∷ record { key = 1; now = 20 } ∷ record { key = 1; now = 30 } ∷ []

sweeping_unseen_example :
    answers consume calls (limiter 1 1000) ≡ answers consume_swept calls (limiter 1 1000)
sweeping_unseen_example = sweeping_unseen 1 1000 10 calls (omega arith)

window_bound_example : granted 1 burst (answers consume burst (limiter 2 1000)) ≤ 2
window_bound_example = window_bound 1 5 burst (limiter 2 1000) tt (omega arith) refl (omega arith)

abbrev outbox_security : Security
outbox_security = record {
  normalize_email = λ e. e;
  sha256_hex = λ t. t + 1000;
  hash_password = λ p. p;
  verify_password = λ h p. true;
  dummy_password_hash = 0;
  trim = λ t. t;
}

abbrev composer_options : EmailComposerOptions
composer_options = record {
  email_verification_token_ttl_ms = 86400000;
  password_reset_token_ttl_ms = 1800000;
}

-- A transport that refuses one address.
abbrev picky : EmailTransport
picky m ms = if m.to == 51 then (err (failure email_not_sent), ms) else (ok tt, m ∷ ms)

abbrev reader : ℕ → UserRecord
reader id = record {
  id = id;
  email = 50 + id;
  password_hash = 0;
  full_name = "R";
  role = user;
  status = active;
  email_verified_at = none;
  created_at = 1;
}

abbrev queued : ℕ → EmailOutboxRow
queued id = record {
  id = id;
  kind = email_verification;
  user_id = id;
  created_at = 5;
  sent_at = none;
}

abbrev two_queued : AuthDb
two_queued = record {
  users = reader 1 ∷ reader 2 ∷ [];
  sessions = [];
  email_verification_tokens = [];
  password_reset_tokens = [];
  email_outbox = queued 1 ∷ queued 2 ∷ [];
  audit_logs = [];
}

abbrev scopes : ℕ → DispatchScope
scopes k = record { now = 100 + k; raw = 500 + k }

dispatch_settles_example :
    let (result, after) =
      dispatch_pending_emails picky
        (create_email_composers outbox_security composer_options)
        (λ _ _. false)
        scopes
        100
        two_queued
        [] in
    (result.sent + result.failed ≡ 2)
    × (unsent after.db + result.sent ≡ 2)
    × ((es : List EmailOutboxRow) × (fs : List EmailOutboxRow) × Run picky outbox_security
          composer_options scopes 0
          (record { db = two_queued; delivered = []; attempted = [] })
          es
          fs
          after
        × (select_where is_unsent after.db.email_outbox
            ≡ select_where
                (λ x. is_unsent x && not (is_listed_id (map row_id es) x.id))
                two_queued.email_outbox)
        × (result.sent ≡ length es)
        × (result.failed ≡ length fs))
dispatch_settles_example =
    dispatch_settles picky outbox_security composer_options scopes 100 two_queued [] (omega arith)
      (omega arith)

abbrev reset_entry : OutboxEntry
reset_entry = record { id = 9; kind = password_reset; user_id = 1; created_at = 5 }

abbrev reset_scope : DispatchScope
reset_scope = record { now = 100; raw = 500 }

abbrev no_client : RequestContext
no_client = record { ip = none; user_agent = none; request_id = "r2" }

abbrev reset_mail : EmailMessage
reset_mail = record { to = 51; text = password_reset_text 500 30 }

abbrev mailed : AuthDb
mailed =
    (compose_password_reset outbox_security composer_options reset_entry reset_scope two_queued).1

reset_link_works_example :
    (u : UserRecord) × (find_where (is_user_id 1) two_queued.users ≡ some u)
    × (51 ≡ u.email)
    × (password_reset_text 500 30 ≡ password_reset_text 500 30)
    × (count_where (is_unused 1) mailed.password_reset_tokens ≡ 1)
    × (let (answer, after) = reset_own_password outbox_security 900 5000 500 77 no_client mailed in
        (answer ≡ ok tt)
        × ((v : UserRecord) × (find_where (is_user_id 1) after.users ≡ some v)
            × (v.password_hash ≡ 77)))
reset_link_works_example =
    reset_link_works outbox_security composer_options reset_entry reset_scope reset_mail two_queued
      mailed 900 5000 77 no_client refl refl (omega arith)
