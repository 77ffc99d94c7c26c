-- ===== src/Auth/Progress/Reach.antt =====
-- The databases that the requests of `AuthService` can reach, in any order, at any instants and by any
-- callers. Every operation of the service that writes is a step, that of `GET /auth/csrf` included. A request is one step, but for a registration, between whose
-- check and insert other requests may run.
use legaltech_colombia.Auth.Repository.{has_token_hash}
use legaltech_colombia.Auth.Validity.{load_valid_session_outcome, IsValid, session_of}
use legaltech_colombia.Auth.Evolution.{Extends, Evolves}
use legaltech_colombia.Prelude.{
  refl, inr, ◌==◌, subst, Bool-cases, inl, ◌≤◌, ◌∷◌, none, arith, find_where, ◌+◌, some, [], List,
  ◌≡◌, ℕ, Option,
}
use legaltech_colombia.Common.{ok, Action, RequestContext}
use legaltech_colombia.Auth.Tables.{SessionRecord, AuthDb}
use legaltech_colombia.Auth.Session.{session_rotation_grace_ms, Security, SessionSeed}
use legaltech_colombia.Auth.Service.{
  RegisterRun, RegisterInput, register, verify_email, reset_own_password, AuthServiceOptions,
  LoginRun, LoginInput, login, CurrentUserResult, current_user, logout, rotate_own_session,
  rotate_csrf_token, revoke_session_of, logout_all, DelayRun, resend_email_verification,
  forgot_password,
}
use legaltech_colombia.Auth.Sound.{IsSoundTable, Progresses, Progresses-refl, Progresses-trans}
use legaltech_colombia.Auth.Progress.Operations.{
  current_user-Keeps, logout-Keeps, revoke_session_of-Keeps, logout_all-Keeps,
  rotate_own_session-Keeps, rotate_csrf_token-Keeps, verify_email-Keeps, reset_own_password-Keeps,
  resend-Keeps, forgot_password-Keeps,
}
use legaltech_colombia.Auth.Progress.Logins.{login-Keeps, register-Keeps}

abbrev after : {A : Type 0} → Action AuthDb A → AuthDb → AuthDb
after m db = (m db).1

pub data Leads (security : Security) (options : AuthServiceOptions) : AuthDb → AuthDb → Type 0 where
  stay : {s : AuthDb} → Leads security options s s
  then :
      {s t u : AuthDb}
      → Leads security options s t
      → Leads security options t u
      → Leads security options s u
  registering :
      {s : AuthDb} (run : RegisterRun) (context : RequestContext) (input : RegisterInput)
      → ((db : AuthDb) → Leads security options db (run.meanwhile db))
      → Leads security options s (after (register security run context input) s)
  verifying :
      {s : AuthDb} (now token : ℕ) (context : RequestContext)
      → Leads security options s (after (verify_email security now token context) s)
  resetting :
      {s : AuthDb} (email_id now token password : ℕ) (context : RequestContext)
      → Leads security options s
          (after (reset_own_password security email_id now token password context) s)
  logging_in :
      {s : AuthDb} (run : LoginRun) (context : RequestContext) (input : LoginInput) (raw : Option ℕ)
      → Leads security options s (after (login security options run context input raw) s)
  loading :
      {s : AuthDb} (now : ℕ) (raw : Option ℕ)
      → Leads security options s (after (current_user security now raw) s)
  logging_out :
      {s : AuthDb} (now at : ℕ) (raw : Option ℕ) (context : RequestContext)
      → Leads security options s (after (logout security now at raw context) s)
  revoking :
      {s : AuthDb} (at now : ℕ) (current : CurrentUserResult) (id : ℕ) (context : RequestContext)
      → Leads security options s (after (revoke_session_of at now current id context) s)
  logging_out_all :
      {s : AuthDb} (at : ℕ) (current : CurrentUserResult) (context : RequestContext)
      → Leads security options s (after (logout_all at current context) s)
  rotating :
      {s : AuthDb} (now : ℕ) (seed : SessionSeed) (current : CurrentUserResult)
      → Leads security options s (after (rotate_own_session security now seed current) s)
  renewing_csrf :
      {s : AuthDb} (id hash : ℕ) → Leads security options s (after (rotate_csrf_token id hash) s)
  resending :
      {s : AuthDb} (run : DelayRun) (current : CurrentUserResult)
      → Leads security options s (after (resend_email_verification run current) s)
  forgetting :
      {s : AuthDb} (run : DelayRun) (context : RequestContext) (email : ℕ)
      → Leads security options s (after (forgot_password security run context email) s)

module _ (security : Security) (options : AuthServiceOptions) where
  pub Leads-Progresses : {s t : AuthDb} → Leads security options s t → Progresses s t
  Leads-Progresses {s} stay = Progresses-refl s
  Leads-Progresses (then h k) = Progresses-trans _ _ _ (Leads-Progresses h) (Leads-Progresses k)
  Leads-Progresses {s} (registering run context input others) =
      register-Keeps security run context input (λ db. Leads-Progresses (others db)) s
  Leads-Progresses {s} (verifying now token context) =
      verify_email-Keeps security now token context s
  Leads-Progresses {s} (resetting email_id now token password context) =
      reset_own_password-Keeps security email_id now token password context s
  Leads-Progresses {s} (logging_in run context input raw) =
      login-Keeps security options run context input raw s
  Leads-Progresses {s} (loading now raw) = current_user-Keeps security now raw s
  Leads-Progresses {s} (logging_out now at raw context) = logout-Keeps security now at raw context s
  Leads-Progresses {s} (revoking at now current id context) =
      revoke_session_of-Keeps at now current id context s
  Leads-Progresses {s} (logging_out_all at current context) = logout_all-Keeps at current context s
  Leads-Progresses {s} (rotating now seed current) =
      rotate_own_session-Keeps security now seed current s
  Leads-Progresses {s} (renewing_csrf id hash) = rotate_csrf_token-Keeps id hash s
  Leads-Progresses {s} (resending run current) = resend-Keeps run current s
  Leads-Progresses {s} (forgetting run context email) =
      forgot_password-Keeps security run context email s

-- From a database without sessions, requests of `AuthService` in any order lead only to tables of
-- sessions with distinct ids and token hashes, where every idle expiry is within the absolute one and every
-- revocation has its reason.
pub sessions_sound :
    (security : Security) (options : AuthServiceOptions) (s t : AuthDb)
    → s.sessions ≡ []
    → Leads security options s t
    → IsSoundTable t.sessions
sessions_sound security options s t e h =
    (Leads-Progresses security options h).keeps_sound
      (rw e (record { rows = tt; ids = tt; hashes = tt }))

Extends-found :
    (hash : ℕ) (xs ys : List SessionRecord) (x : SessionRecord)
    → Extends xs ys
    → find_where (has_token_hash hash) xs ≡ some x
    → (y : SessionRecord) × (find_where (has_token_hash hash) ys ≡ some y) × Evolves x y
Extends-found hash [] ys x h e = cc
Extends-found hash (a ∷ xs) [] x h e = absurd h
Extends-found hash (a ∷ xs) (b ∷ ys) x h e = elim (Bool-cases (a.token_hash == hash)) [
  | inl k ↦
      let first : a ≡ x = ground arith in
      (b, rw (h.0.same_token, k) refl, subst (λ s. Evolves s b) first h.0)
  | inr k ↦
      let (y, found, evolves) = Extends-found hash xs ys x h.1 (ground arith) in
      (y, rw (h.0.same_token, k) found, evolves)
]

-- A session that is revoked, that was rotated a grace period ago, or that reached its absolute expiry. A
-- session that is only idle is not over for good: a request that read an earlier clock still renews it.
pub data IsOver (now : ℕ) (s : SessionRecord) : Type 0 where
  by_revocation : {t : ℕ} → s.revoked_at ≡ some t → IsOver now s
  by_rotation : {t : ℕ} → s.rotated_at ≡ some t → t + session_rotation_grace_ms ≤ now → IsOver now s
  by_age : s.absolute_expires_at ≤ now → IsOver now s

IsOver-invalid : {now : ℕ} (a b : SessionRecord) → Evolves a b → IsOver now a → ¬ IsValid now b
IsOver-invalid a b h (by_revocation {t} e) v =
    let kept = (h.keeps_revoked t e).0 in let fresh = v.unrevoked in cc
IsOver-invalid a b h (by_rotation {t} e past) v =
    let kept = h.keeps_rotated t e in ground (arith, v.in_grace)
IsOver-invalid a b h (by_age past) v =
    let early = v.before_absolute in let same = h.same_absolute in omega arith

-- A session that is revoked, that was rotated a grace period before an instant, or that has reached its
-- absolute expiry by then, stays closed: whatever requests of `AuthService` follow, of anyone and in any
-- order, at that instant its cookie opens no session and changes nothing.
pub over_for_good :
    (security : Security) (options : AuthServiceOptions) (now raw : ℕ) (s t : AuthDb)
    (x : SessionRecord)
    → session_of security raw s ≡ some x
    → IsOver now x
    → Leads security options s t
    → current_user security now (some raw) t ≡ (ok none, t)
unfolding current_user
over_for_good security options now raw s t x e over h =
    let (y, found, evolves) =
      Extends-found (security.sha256_hex raw) s.sessions t.sessions x
        (Leads-Progresses security options h).extends e in
    elim (load_valid_session_outcome security now raw t) [
      | inl (z, same, v, r) ↦
          let first : y ≡ z = cc in
          absurd (IsOver-invalid x z (subst (Evolves x) first evolves) over v)
      | inr (invalid, r) ↦ rw r refl
    ]
