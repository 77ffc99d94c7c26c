-- ===== src/Notifications/Links.antt =====
-- From a forgotten password to the new one: the link that a composer sends works while it is valid, and
-- it alone.
use legaltech_colombia.Prelude.{
  ℕ, ◌+◌, ◌<◌, Bool, true, some, List, [], ◌∷◌, ◌++◌, ◌≡◌, refl, arith, inl, inr, Option-cases,
  find_where, count_where, count_where-append_one, update_where, update_where-clears, ==_refl, ◌==◌,
}
use legaltech_colombia.Common.{ok, RequestContext}
use legaltech_colombia.Auth.Tables.{AuthDb, UserRecord, TokenRecord}
use legaltech_colombia.Auth.Repository.{
  usable, used, is_unused, is_user_id, with_password, reset_password,
}
use legaltech_colombia.Auth.Session.{Security}
use legaltech_colombia.Auth.Service.{reset_own_password}
use legaltech_colombia.Notifications.Composers.{
  minutes, password_reset_text, OutboxEntry, DispatchScope, EmailComposerOptions, EmailMessage,
  compose_password_reset, new_token,
}

-- The row that a reset uses is the last one when no other has its hash.
found-last :
    (now hash : ℕ) (p : TokenRecord → Bool) (now' : ℕ) (ts : List TokenRecord) (t : TokenRecord)
    → count_where (λ x. x.token_hash == hash) ts ≡ 0
    → usable now hash t ≡ true
    → find_where (usable now hash) (update_where p (used now') ts ++ t ∷ []) ≡ some t
found-last now hash p now' [] t h e = rw e refl
found-last now hash p now' (x ∷ xs) t h e = ground (arith, found-last now hash p now' xs t)

found-updated :
    (id hash : ℕ) (us : List UserRecord) {u : UserRecord}
    → find_where (is_user_id id) us ≡ some u
    → find_where (is_user_id id) (update_where (is_user_id id) (with_password hash) us)
      ≡ some (with_password hash u)
found-updated id hash [] e = cc
found-updated id hash (x ∷ xs) {u} e = ground (arith, found-updated id hash xs {u = u})

module _ (security : Security) (options : EmailComposerOptions) (entry : OutboxEntry)
    (scope : DispatchScope) where
  -- The link of a reset email carries the new token, is addressed to its user and is the only unused one
  -- that the user has;
  -- until it expires, a use of it answers ok and leaves the user with the new password.
  pub reset_link_works :
      (m : EmailMessage) (db db' : AuthDb) (email_id later password : ℕ) (context : RequestContext)
      → count_where (λ t. t.token_hash == security.sha256_hex scope.raw) db.password_reset_tokens
        ≡ 0
      → compose_password_reset security options entry scope db ≡ (ok m, db')
      → later < scope.now + options.password_reset_token_ttl_ms
      → (u : UserRecord) × (find_where (is_user_id entry.user_id) db.users ≡ some u)
        × (m.to ≡ u.email)
        × (m.text ≡ password_reset_text scope.raw (minutes options.password_reset_token_ttl_ms))
        × (count_where (is_unused entry.user_id) db'.password_reset_tokens ≡ 1)
        × (let (answer, after) =
              reset_own_password security email_id later scope.raw password context db' in
            (answer ≡ ok tt)
            × ((v : UserRecord) × (find_where (is_user_id entry.user_id) after.users ≡ some v)
                × (v.password_hash ≡ security.hash_password password)))
  unfolding reset_own_password reset_password
  reset_link_works m db db' email_id later password context fresh h early =
      elim (Option-cases (find_where (is_user_id entry.user_id) db.users)) [
        | inl e ↦ ground arith
        | inr (u, e) ↦
            let hash = security.sha256_hex scope.raw in
            let t =
              new_token entry.user_id hash (scope.now + options.password_reset_token_ttl_ms) in
            let cleared =
              update_where-clears (is_unused entry.user_id) (is_unused entry.user_id)
                (used scope.now) (λ x _. ground arith) (λ x k. k) db.password_reset_tokens in
            let one =
              count_where-append_one (is_unused entry.user_id)
                (update_where (is_unused entry.user_id) (used scope.now) db.password_reset_tokens)
                t in
            let found =
              found-last later hash (is_unused entry.user_id) scope.now db.password_reset_tokens t
                fresh (ground (arith, ==_refl hash, early)) in
            let renamed =
              found-updated entry.user_id (security.hash_password password) db.users {u = u} e in
            let rows =
              update_where (is_unused entry.user_id) (used scope.now) db.password_reset_tokens
              ++ t ∷ [] in
            let (to, text, written) : (m.to ≡ u.email)
                × (m.text
                    ≡ password_reset_text scope.raw (minutes options.password_reset_token_ttl_ms))
                × (db' ≡ record db { password_reset_tokens = rows }) =
              ground (arith, e) in
            (
              u,
              e,
              to,
              text,
              rw written (ground (arith, one, cleared, ==_refl entry.user_id)),
              rw written (
                  rw (found, renamed)
                    (refl, (with_password (security.hash_password password) u, renamed, refl))),
            )
      ]
