-- ===== src/Auth/Progress/Statements.antt =====
-- The statements of the repository that write sessions, and those that leave them.
use legaltech_colombia.Prelude.{
  count_where, Option-cases, find_where, ℕ, Bool, true, false, Option, none, some, ◌≡◌, refl, inl,
  inr, arith, Bool-cases, ◌≤◌, any, if◌then◌else◌, ◌==◌,
}
use legaltech_colombia.Common.{try_catch, transaction, ◌>>=◌, Action, pure, Error}
use legaltech_colombia.Common.Writes.{Writes, Writes-bind, Writes-transaction, Writes-try_catch}
use legaltech_colombia.Auth.Tables.{
  SessionRecord, SessionRevokedReason, rotated_reason, password_reset_reason, AuthDb, AuthEntry,
  UserRecord, TokenRecord, add_optional_log,
}
use legaltech_colombia.Auth.Repository.{
  usable, is_user_id, set_password, use_reset_token, revoked, revoke_where, revoke_one,
  revoke_session, revoke_own_session, revoke_all_own_sessions, is_unrevoked_of, is_revocable,
  is_own_valid, CreateSessionInput, new_session, create_session, is_session_id, has_token_hash,
  with_csrf, rotate_session_csrf, RotateSessionInput, is_rotatable, rotated, is_past_grace,
  mark_rotated, replace_session, rotate_session, create_user_with_email_verification,
  CreateUserInput, consume_email_verification_token, ResetPasswordInput, reset, reset_password,
}
use legaltech_colombia.Auth.Evolution.{Evolves}
use legaltech_colombia.Auth.Sound.{
  Progresses, Progresses-refl, Progresses-trans, Progresses-same, update-Progresses,
  insert-Progresses,
}

abbrev pub Keeps : {A : Type 0} → Action AuthDb A → Type 0
Keeps m = Writes Progresses m

pub Keeps-pure : {A : Type 0} (a : A) → Keeps (pure a)
Keeps-pure a db = Progresses-refl db

pub Keeps-bind :
    {A B : Type 0} (m : Action AuthDb A) (f : A → Action AuthDb B)
    → Keeps m
    → ((a : A) → Keeps (f a))
    → Keeps (m >>= f)
Keeps-bind m f hm hf = Writes-bind Progresses Progresses-refl Progresses-trans m f hm hf

pub Keeps-transaction : {A : Type 0} (m : Action AuthDb A) → Keeps m → Keeps (transaction m)
Keeps-transaction m h = Writes-transaction Progresses Progresses-refl Progresses-trans m h

pub Keeps-try_catch :
    {A : Type 0} (m : Action AuthDb A) (h : Error → Action AuthDb A)
    → Keeps m
    → ((e : Error) → Keeps (h e))
    → Keeps (try_catch m h)
Keeps-try_catch m h hm hh = Writes-try_catch Progresses Progresses-refl Progresses-trans m h hm hh

revoked-Evolves :
    (now : ℕ) (reason : SessionRevokedReason) (s : SessionRecord)
    → s.revoked_at ≡ none
    → Evolves s (revoked now reason s)
revoked-Evolves now reason s fresh = record {
  same_id = refl;
  same_user = refl;
  same_token = refl;
  same_absolute = refl;
  keeps_revoked = λ t e. cc;
  keeps_rotated = λ t e. e;
}

-- A condition that no revoked session satisfies.
abbrev SparesRevoked : (SessionRecord → Bool) → Type 0
SparesRevoked p = (s : SessionRecord) → p s ≡ true → s.revoked_at ≡ none

revoke_where-Progresses :
    (now : ℕ) (reason : SessionRevokedReason) (p : SessionRecord → Bool) (db : AuthDb)
    → SparesRevoked p
    → Progresses db (revoke_where now reason p db)
revoke_where-Progresses now reason p db spares =
    update-Progresses p (revoked now reason) (λ s. refl) (λ s. refl) db
      (λ s h. revoked-Evolves now reason s (spares s h))
      (λ s h e. record { idle_within = h.idle_within; reason_given = refl })

add_optional_log-sessions :
    (e : Option AuthEntry) (now : ℕ) (db : AuthDb)
    → (add_optional_log e now db).sessions ≡ db.sessions
add_optional_log-sessions none now db = refl
add_optional_log-sessions (some e) now db = refl

revoke_one-Keeps :
    (now : ℕ) (reason : SessionRevokedReason) (p : SessionRecord → Bool) (audit : Option AuthEntry)
    → SparesRevoked p
    → Keeps (revoke_one now reason p audit)
revoke_one-Keeps now reason p audit spares db =
    Progresses-trans _ _ _ (revoke_where-Progresses now reason p db spares)
      (Progresses-same _ _ (add_optional_log-sessions _ now (revoke_where now reason p db)))

pub revoke_session-Keeps :
    (now id : ℕ) (reason : SessionRevokedReason) (audit : Option AuthEntry)
    → Keeps (revoke_session now id reason audit)
unfolding revoke_session
revoke_session-Keeps now id reason audit =
    revoke_one-Keeps now reason (is_revocable id) audit λ s h. ground arith

pub revoke_own_session-Keeps :
    (at id user_id now : ℕ) (reason : SessionRevokedReason) (audit : Option AuthEntry)
    → Keeps (revoke_own_session at id user_id now reason audit)
unfolding revoke_own_session
revoke_own_session-Keeps at id user_id now reason audit =
    revoke_one-Keeps at reason (is_own_valid id user_id now) audit λ s h. ground arith

pub revoke_all_own_sessions-Keeps :
    (now user_id : ℕ) (reason : SessionRevokedReason) (audit : Option AuthEntry)
    → Keeps (revoke_all_own_sessions now user_id reason audit)
unfolding revoke_all_own_sessions
revoke_all_own_sessions-Keeps now user_id reason audit db =
    Progresses-trans _ _ _
      (revoke_where-Progresses now reason (is_unrevoked_of user_id) db λ s h. ground arith)
      (Progresses-same _ _ (add_optional_log-sessions _ now _))

pub create_session-Keeps :
    (id : ℕ) (input : CreateSessionInput)
    → input.idle_expires_at ≤ input.absolute_expires_at
    → Keeps (create_session id input)
unfolding create_session
create_session-Keeps id input within db = elim (Bool-cases (any (is_session_id id) db.sessions)) [
  | inl e ↦ rw e (Progresses-refl db)
  | inr e ↦ elim (Bool-cases (any (has_token_hash input.token_hash) db.sessions)) [
    | inl f ↦ rw (e, f) (Progresses-refl db)
    | inr f ↦
        rw (e, f)
          (insert-Progresses db (new_session id input)
            (record { idle_within = within; reason_given = refl }) e f)
  ]
]

pub rotate_session_csrf-Keeps : (id hash : ℕ) → Keeps (rotate_session_csrf id hash)
rotate_session_csrf-Keeps id hash db =
    update-Progresses (is_session_id id) (with_csrf hash) (λ s. refl) (λ s. refl) db
      (λ s h. record {
        same_id = refl;
        same_user = refl;
        same_token = refl;
        same_absolute = refl;
        keeps_revoked = λ t e. (e, refl);
        keeps_rotated = λ t e. e;
      })
      (λ s h e. record { idle_within = h.idle_within; reason_given = h.reason_given })

mark_rotated-Progresses :
    (input : RotateSessionInput) (db : AuthDb) → Progresses db (mark_rotated input db)
mark_rotated-Progresses input db =
    update-Progresses (is_rotatable input) (rotated input.now) (λ s. refl) (λ s. refl) db
      (λ s h. record {
        same_id = refl;
        same_user = refl;
        same_token = refl;
        same_absolute = refl;
        keeps_revoked = λ t e. (e, refl);
        keeps_rotated = λ t e. unrotated s h t e;
      })
      (λ s h e. record { idle_within = h.idle_within; reason_given = h.reason_given })
  where
    unrotated :
        (s : SessionRecord)
        → is_rotatable input s ≡ true
        → (t : ℕ) → s.rotated_at ≡ some t
        → (rotated input.now s).rotated_at ≡ some t
    unrotated s h t e = ground arith

is_past_grace-SparesRevoked : (input : RotateSessionInput) → SparesRevoked (is_past_grace input)
is_past_grace-SparesRevoked input s h = ground arith

is_unrevoked_of-SparesRevoked : (user_id : ℕ) → SparesRevoked (is_unrevoked_of user_id)
is_unrevoked_of-SparesRevoked user_id s h = ground arith

replace_session-Keeps :
    (id : ℕ) (input : RotateSessionInput)
    → input.new_session.idle_expires_at ≤ input.new_session.absolute_expires_at
    → Keeps (replace_session id input)
replace_session-Keeps id input within db =
    Progresses-trans _ _ _
      (revoke_where-Progresses input.now rotated_reason (is_past_grace input) db
        (is_past_grace-SparesRevoked input))
      (Keeps-bind (create_session id input.new_session) (λ s. pure (some s))
        (create_session-Keeps id input.new_session within) (λ s. Keeps-pure (some s))
        (revoke_where input.now rotated_reason (is_past_grace input) db))

pub rotate_session-Keeps :
    (id : ℕ) (input : RotateSessionInput)
    → input.new_session.idle_expires_at ≤ input.new_session.absolute_expires_at
    → Keeps (rotate_session id input)
unfolding rotate_session
rotate_session-Keeps id input within =
    Keeps-transaction {A = Option SessionRecord}
      (λ s.
        (if count_where (is_rotatable input) s.sessions == 1
            then replace_session id input
            else pure none)
          (mark_rotated input s))
      (λ s.
        Progresses-trans _ _ _ (mark_rotated-Progresses input s)
          (branch (count_where (is_rotatable input) s.sessions == 1) (mark_rotated input s)))
  where
    branch :
        (b : Bool)
        → Keeps {A = Option SessionRecord} (if b then replace_session id input else pure none)
    branch true db = replace_session-Keeps id input within db
    branch false db = Progresses-refl db

-- The statements on users and tokens.
pub create_user-Keeps :
    (id email_id now : ℕ) (input : CreateUserInput)
    → Keeps (create_user_with_email_verification id email_id now input)
unfolding create_user_with_email_verification
create_user-Keeps id email_id now input db = Progresses-same _ _ (ground arith)

pub consume-Keeps :
    (now hash : ℕ) (audit : UserRecord → AuthEntry)
    → Keeps (consume_email_verification_token now hash audit)
unfolding consume_email_verification_token
consume-Keeps now hash audit db = Progresses-same _ _ (ground arith)

module _ (email_id now : ℕ) (input : ResetPasswordInput) where
  reset-Keeps : (t : Option TokenRecord) → Keeps (reset email_id now input t)
  reset-Keeps none db = Progresses-refl db
  reset-Keeps (some t) db =
      let before =
        set_password t.user_id input.password_hash (use_reset_token now input.token_hash db) in
      elim (Option-cases (find_where (is_user_id t.user_id) before.users)) [
        | inl e ↦ rw e (Progresses-same db before refl)
        | inr (u, e) ↦ rw e (
            Progresses-trans _ _ _
              (revoke_where-Progresses now password_reset_reason (is_unrevoked_of u.id) db
                (is_unrevoked_of-SparesRevoked u.id))
              (Progresses-same _ _ refl))
      ]

  pub reset_password-Keeps : Keeps (reset_password email_id now input)
  unfolding reset_password
  reset_password-Keeps =
      Keeps-transaction {A = Option UserRecord}
        (λ s.
          reset email_id now input
            (find_where (usable now input.token_hash) s.password_reset_tokens) s)
        (λ s. reset-Keeps (find_where (usable now input.token_hash) s.password_reset_tokens) s)
