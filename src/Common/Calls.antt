-- ===== src/Common/Calls.antt =====
-- Calls that read and write a state and may throw: apps/api/src/common/http-error.ts and the other
-- errors of the code, `try`/`catch`, and PostgreSQL transactions (`prisma.$transaction`).
use legaltech_colombia.Prelude.{ℕ, Option, Bool, if◌then◌else◌}

-- packages/contracts/src/error.ts: the codes that the modelled code throws.
pub data ApiErrorCode : Type 0 where
  validation_error invalid_credentials invalid_or_expired_token unauthenticated : ApiErrorCode
  forbidden not_found rate_limited payload_too_large service_unavailable csrf_invalid : ApiErrorCode

-- An HttpError with its `Retry-After` header; any other error is a `failure`.
pub data Failure : Type 0 where
  storage_error object_not_found antivirus_error database_error : Failure
  job_not_enqueued size_mismatch pages_mismatch : Failure
  metadata_sanitization duplicate_email attempt_unavailable : Failure
  invariant_violated no_provider pdf_unresolved : Failure
  recipient_not_found no_composer email_not_sent : Failure

pub data Error : Type 0 where
  http : ℕ → ApiErrorCode → Option ℕ → Error
  failure : Failure → Error

pub data Result (A : Type 0) : Type 0 where
  ok : A → Result A
  err : Error → Result A

-- The state comes back after a throw too: what was written stays written.
abbrev pub Action : Type 0 → Type 0 → Type 0
Action S A = S → Result A × S

module _ {S A : Type 0} where
  abbrev pub pure : A → Action S A
  pure a s = (ok a, s)

  abbrev pub throw : Error → Action S A
  throw e s = (err e, s)

  abbrev pub gets : (S → A) → Action S A
  gets f s = (ok (f s), s)

  -- A call that throws is rolled back.
  abbrev rolled_back : S → Result A × S → Result A × S
  rolled_back s (ok a, s') = (ok a, s')
  rolled_back s (err e, s') = (err e, s)

  abbrev pub transaction : Action S A → Action S A
  transaction m s = rolled_back s (m s)

  abbrev caught : (Error → Action S A) → Result A × S → Result A × S
  caught h (ok a, s') = (ok a, s')
  caught h (err e, s') = h e s'

  abbrev pub try_catch : Action S A → (Error → Action S A) → Action S A
  try_catch m h s = caught h (m s)

abbrev pub modify : {S : Type 0} → (S → S) → Action S (Unit {0})
modify f s = (ok tt, f s)

abbrev pub throw_if : {S : Type 0} → Bool → Error → Action S (Unit {0})
throw_if b e s = (if b then err e else ok tt, s)

module _ {S A B : Type 0} where
  abbrev bind : (A → Action S B) → Result A × S → Result B × S
  bind f (ok a, s) = f a s
  bind f (err e, s) = (err e, s)

  infixl 5 ◌>>=◌
  abbrev pub ◌>>=◌ : Action S A → (A → Action S B) → Action S B
  ◌>>=◌ m f s = bind f (m s)

infixl 5 ◌>>◌
abbrev pub ◌>>◌ : {S B : Type 0} → Action S (Unit {0}) → Action S B → Action S B
m >> k = m >>= λ _. k
