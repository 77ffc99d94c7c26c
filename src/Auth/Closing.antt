-- ===== src/Auth/Closing.antt =====
-- The sessions of a user that one statement ends, and the closing of all sessions.
use legaltech_colombia.Prelude.{
  ◌⊎◌, Bool-cases, ==_refl, ==_iff, Option-cases, ℕ, false, not, none, some, List, ◌≡◌, ◌≢◌, refl,
  subst, inl, inr, arith, find_where, select_where, update_where, update_where-select,
  find_where-updated, ◌==◌,
}
use legaltech_colombia.Common.{active, RequestContext, ok}
use legaltech_colombia.Auth.Tables.{logout_all_reason, SessionRevokedReason, AuthDb, SessionRecord}
use legaltech_colombia.Auth.Repository.{
  revoke_all_own_sessions, has_token_hash, is_unrevoked_of, revoked,
}
use legaltech_colombia.Auth.Session.{Security}
use legaltech_colombia.Auth.Service.{CurrentUserResult, logout_all, current_user}
use legaltech_colombia.Auth.Validity.{session_of, load_valid_session_outcome}

-- A session that is revoked opens nothing.
revoked-closed :
    (security : Security) (later raw : ℕ) (db : AuthDb) (s : SessionRecord)
    → session_of security raw db ≡ some s
    → s.revoked_at ≢ none
    → current_user security later (some raw) db ≡ (ok none, db)
unfolding current_user
revoked-closed security later raw db s e h =
    elim (load_valid_session_outcome security later raw db) [
      | inl (x, k, v, r) ↦ let fresh = v.unrevoked in absurd (h cc)
      | inr (invalid, r) ↦ rw r refl
    ]

unknown-closed :
    (security : Security) (later raw : ℕ) (db : AuthDb)
    → session_of security raw db ≡ none
    → current_user security later (some raw) db ≡ (ok none, db)
unfolding current_user
unknown-closed security later raw db e = elim (load_valid_session_outcome security later raw db) [
  | inl (x, k, v, r) ↦ cc
  | inr (invalid, r) ↦ rw r refl
]

-- A cookie opens nothing, or a session of another user.
abbrev pub IsClosed : Security → ℕ → AuthDb → ℕ → ℕ → Type 0
IsClosed security user_id db later raw =
    (current_user security later (some raw) db ≡ (ok none, db))
    ⊎ ((s : SessionRecord) × (session_of security raw db ≡ some s) × (s.user_id ≢ user_id))

abbrev pub sessions_of_others : ℕ → AuthDb → List SessionRecord
sessions_of_others user_id db = select_where (λ s. not (s.user_id == user_id)) db.sessions

module _ (security : Security) (now user_id : ℕ) (reason : SessionRevokedReason)
    (before after : AuthDb)
    (e : after.sessions
      ≡ update_where (is_unrevoked_of user_id) (revoked now reason) before.sessions) where
  ended-closed :
      (later raw : ℕ) (s : SessionRecord)
      → session_of security raw after ≡ some s
      → s.user_id ≡ user_id
      → current_user security later (some raw) after ≡ (ok none, after)
  ended-closed later raw s found mine =
      let left : is_unrevoked_of user_id s ≡ false =
        find_where-updated (is_unrevoked_of user_id) (has_token_hash (security.sha256_hex raw))
          (revoked now reason) (λ x. ground arith) before.sessions {a = s}
          (subst (λ xs. find_where (has_token_hash (security.sha256_hex raw)) xs ≡ some s) e
            found) in
      revoked-closed security later raw after s found (λ fresh. ground arith)

  pub ended-IsClosed : (later raw : ℕ) → IsClosed security user_id after later raw
  ended-IsClosed later raw = elim (Option-cases (session_of security raw after)) [
    | inl missing ↦ inl (unknown-closed security later raw after missing)
    | inr (s, found) ↦ elim (Bool-cases (s.user_id == user_id)) [
      | inl mine ↦ inl (ended-closed later raw s found ((==_iff s.user_id user_id).0 mine))
      | inr other ↦ inr (s, found, ground arith)
    ]
  ]

  pub ended-others : sessions_of_others user_id after ≡ sessions_of_others user_id before
  ended-others = rw e (
      update_where-select (is_unrevoked_of user_id) (λ s. not (s.user_id == user_id))
        (revoked now reason) (λ x h. ground arith) (λ x h. ground arith) before.sessions)

-- Closing all sessions is never refused to an active user, closes every session of the user, the
-- current one included, whatever cookie and instant opens it, and leaves the sessions of the others
-- as they were.
pub logout_all_closes :
    (security : Security) (at later raw : ℕ) (current : CurrentUserResult)
    (context : RequestContext) (db : AuthDb)
    → current.actor.status ≡ active
    → current.public_user.id ≡ current.actor.id
    → let (answer, db') = logout_all at current context db in
      (answer ≡ ok tt)
      × IsClosed security current.actor.id db' later raw
      × (sessions_of_others current.actor.id db' ≡ sessions_of_others current.actor.id db)
      × (db'.users ≡ db.users)
unfolding logout_all revoke_all_own_sessions
logout_all_closes security at later raw current context db live same =
    let db' = (logout_all at current context db).1 in
    let ended : db'.sessions
        ≡ update_where (is_unrevoked_of current.actor.id) (revoked at logout_all_reason)
            db.sessions =
      ground (arith, ==_refl current.actor.id) in
    (
      ground (arith, ==_refl current.actor.id),
      ended-IsClosed security at current.actor.id logout_all_reason db db' ended later raw,
      ended-others security at current.actor.id logout_all_reason db db' ended,
      ground (arith, ==_refl current.actor.id),
    )
