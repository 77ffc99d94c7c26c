-- ===== src/Auth/Repository/Attempts.antt =====
-- Attempts under a progressive delay in `PrismaAuthRepository`: an advisory lock, a count of recent
-- events, and what the attempt writes, in one transaction.
use legaltech_colombia.Prelude.{
  ℕ, ◌+◌, max, Bool, true, false, Option, none, some, List, [], ◌∷◌, ◌==◌, ◌&&◌, ltb, if◌then◌else◌,
  count_where,
}
use legaltech_colombia.Common.{
  Action, throw, gets, transaction, ◌>>=◌, Error, failure, attempt_unavailable, database_error,
}
use legaltech_colombia.Auth.Tables.{
  AuthDb, AuthLog, AuthAction, auth_login_failed, auth_password_reset_requested, Metadata,
  no_metadata, outcome_metadata, email_metadata, retry_metadata, EmailOutboxRow, EmailOutboxKind,
  email_verification, password_reset, password_reset_completed,
}

-- The errors of Prisma by their code; P2010 tells whether PostgreSQL's was 55P03.
pub data PrismaError : Type 0 where
  p2024 p2028 other_error : PrismaError
  p2010 : Bool → PrismaError

abbrev pub is_login_attempt_unavailable : PrismaError → Bool
is_login_attempt_unavailable p2024 = true
is_login_attempt_unavailable p2028 = true
is_login_attempt_unavailable other_error = false
is_login_attempt_unavailable (p2010 lock_timeout) = lock_timeout

abbrev pub attempt_error : PrismaError → Error
attempt_error e =
    if is_login_attempt_unavailable e then failure attempt_unavailable else failure database_error

-- How many events are recent, when the last of them happened, and the instant of the attempt.
pub record AttemptScope : Type 0 where
  pub recent : ℕ
  pub last_at : Option ℕ
  pub now : ℕ

abbrev pub later : Option ℕ → Option ℕ → Option ℕ
later none b = b
later (some a) none = some a
later (some a) (some b) = some (max a b)

-- `max(column) … WHERE`
abbrev pub max_where : {A : Type 0} → (A → Bool) → (A → ℕ) → List A → Option ℕ
max_where p f [] = none
max_where p f (x ∷ xs) = later (if p x then some (f x) else none) (max_where p f xs)

abbrev pub scope_of : {A : Type 0} → (A → Bool) → (A → ℕ) → ℕ → List A → AttemptScope
scope_of p f now rows = record {
  recent = count_where p rows;
  last_at = max_where p f rows;
  now = now;
}

-- `metadata ->> 'emailHash'`
abbrev pub has_email_hash : ℕ → Metadata → Bool
has_email_hash hash no_metadata = false
has_email_hash hash (outcome_metadata _) = false
has_email_hash hash (email_metadata h _) = h == hash
has_email_hash hash (retry_metadata h _) = h == hash

abbrev pub is_login_failed : AuthAction → Bool
is_login_failed auth_login_failed = true
is_login_failed _ = false

abbrev pub is_reset_requested : AuthAction → Bool
is_reset_requested auth_password_reset_requested = true
is_reset_requested _ = false

abbrev pub is_verification : EmailOutboxKind → Bool
is_verification email_verification = true
is_verification password_reset = false
is_verification password_reset_completed = false

-- `occurred_at > now - window`
abbrev pub counts_as_failure : ℕ → ℕ → ℕ → AuthLog → Bool
counts_as_failure now window hash l =
    is_login_failed l.action && has_email_hash hash l.metadata && ltb now (l.occurred_at + window)

abbrev pub counts_as_request : ℕ → ℕ → ℕ → AuthLog → Bool
counts_as_request now window hash l =
    is_reset_requested l.action
    && has_email_hash hash l.metadata
    && ltb now (l.occurred_at + window)

abbrev pub counts_as_email : ℕ → ℕ → ℕ → EmailOutboxRow → Bool
counts_as_email now window user_id e =
    e.user_id == user_id && is_verification e.kind && ltb now (e.created_at + window)

-- The transaction of an attempt, or the error that keeps it from taking the lock.
abbrev pub run_attempt :
    {A : Type 0}
    → Option PrismaError
    → (AuthDb → AttemptScope)
    → (AttemptScope → Action AuthDb A)
    → Action AuthDb A
run_attempt (some e) scope attempt = throw (attempt_error e)
run_attempt none scope attempt = transaction (gets scope >>= attempt)

abbrev pub login_scope : ℕ → ℕ → ℕ → AuthDb → AttemptScope
login_scope now hash window db =
    scope_of (counts_as_failure now window hash) (λ l. l.occurred_at) now db.audit_logs

abbrev pub request_scope : ℕ → ℕ → ℕ → AuthDb → AttemptScope
request_scope now hash window db =
    scope_of (counts_as_request now window hash) (λ l. l.occurred_at) now db.audit_logs

abbrev pub resend_scope : ℕ → ℕ → ℕ → AuthDb → AttemptScope
resend_scope now user_id window db =
    scope_of (counts_as_email now window user_id) (λ e. e.created_at) now db.email_outbox

module _ {A : Type 0} (start : Option PrismaError) (now : ℕ) where
  abbrev pub run_login_attempt : ℕ → ℕ → (AttemptScope → Action AuthDb A) → Action AuthDb A
  run_login_attempt hash window attempt = run_attempt start (login_scope now hash window) attempt

  abbrev pub run_password_reset_request : ℕ → ℕ → (AttemptScope → Action AuthDb A) → Action AuthDb A
  run_password_reset_request hash window attempt =
      run_attempt start (request_scope now hash window) attempt

  abbrev pub run_email_verification_resend :
      ℕ → ℕ → (AttemptScope → Action AuthDb A) → Action AuthDb A
  run_email_verification_resend user_id window attempt =
      run_attempt start (resend_scope now user_id window) attempt
