-- ===== src/Auth/Resets.antt =====
-- A password reset: its token is used once, and the sessions of its user are ended.
use legaltech_colombia.Prelude.{
  ◌<◌, none, true, sym, [], ◌∷◌, find_where_test, find_where-none, ==_iff, update_where-clears,
  update_where-stays_none, ◌≤◌, count_where, Option-cases, ℕ, false, some, List, ◌≡◌, refl, subst,
  inl, inr, arith, find_where, update_where,
}
use legaltech_colombia.Common.{err, RequestContext, ok}
use legaltech_colombia.Auth.Tables.{
  password_reset_reason, password_reset_completed, password_reset_completed, enqueue_email,
  auth_password_reset_completed, add_log, UserRecord, TokenRecord, AuthDb,
}
use legaltech_colombia.Auth.Repository.{
  is_unused, used, with_password, usable, is_user_id, reset_password, set_password, use_reset_token,
  use_reset_tokens_of, revoke_where, is_unrevoked_of,
}
use legaltech_colombia.Auth.Session.{Security}
use legaltech_colombia.Auth.Service.{token_error, user_event, reset_own_password}
use legaltech_colombia.Auth.Closing.{IsClosed, sessions_of_others, ended-IsClosed, ended-others}

module _ (security : Security) (email_id now token password : ℕ) (context : RequestContext) where
  -- The database of a reset, by its token's row and its user.
  abbrev finished : TokenRecord → UserRecord → AuthDb → AuthDb
  finished t u db = add_log (user_event auth_password_reset_completed context u) now (
      enqueue_email email_id now password_reset_completed u.id (
        revoke_where now password_reset_reason (is_unrevoked_of u.id) (
          use_reset_tokens_of now u.id (
            set_password t.user_id (security.hash_password password)
              (use_reset_token now (security.sha256_hex token) db)))))

  reset-finished :
      (db db' : AuthDb)
      → reset_own_password security email_id now token password context db ≡ (ok tt, db')
      → (t : TokenRecord) × (u : UserRecord) × (usable now (security.sha256_hex token) t ≡ true)
        × (find_where (usable now (security.sha256_hex token)) db.password_reset_tokens ≡ some t)
        × (find_where
              (is_user_id t.user_id)
              (set_password t.user_id (security.hash_password password) db).users
            ≡ some u)
        × (db' ≡ finished t u db)
  unfolding reset_own_password reset_password
  reset-finished db db' h =
      elim (Option-cases
        (find_where (usable now (security.sha256_hex token)) db.password_reset_tokens)) [
          | inl e ↦ ground arith
          | inr (t, e) ↦
              elim (Option-cases (
                find_where (is_user_id t.user_id)
                  (set_password t.user_id (security.hash_password password) db).users)) [
                    | inl f ↦ ground arith
                    | inr (u, f) ↦ (
                      t,
                      u,
                      find_where_test (usable now (security.sha256_hex token))
                          db.password_reset_tokens {a = t} e,
                      e,
                      f,
                      ground arith,
                    )
                  ]
        ]

  used-unusable :
      (later : ℕ) (t : TokenRecord) → usable later (security.sha256_hex token) (used now t) ≡ false
  used-unusable later t = ground arith

  -- After the reset, no row can be used with the token, at any later instant.
  spent-none :
      (later : ℕ) (t : TokenRecord) (u : UserRecord) (db : AuthDb)
      → now ≤ later
      → count_where
          (usable later (security.sha256_hex token))
          (finished t u db).password_reset_tokens
        ≡ 0
  spent-none later t u db order =
      update_where-stays_none (is_unused u.id) (usable later (security.sha256_hex token)) (used now)
        (used-unusable later) _
        (update_where-clears (usable now (security.sha256_hex token))
          (usable later (security.sha256_hex token)) (used now) (λ x _. used-unusable later x)
          (λ x h. ground arith) db.password_reset_tokens)

  -- A reset with a token that no row allows answers 400 and changes nothing.
  unusable-error :
      (later email_id' password' : ℕ) (context' : RequestContext) (db : AuthDb)
      → count_where (usable later (security.sha256_hex token)) db.password_reset_tokens ≡ 0
      → reset_own_password security email_id' later token password' context' db
        ≡ (err token_error, db)
  unfolding reset_own_password reset_password
  unusable-error later email_id' password' context' db none_left =
      rw
        (find_where-none (usable later (security.sha256_hex token)) db.password_reset_tokens
          none_left)
        refl

  found-hash :
      (id : ℕ) (us : List UserRecord) {u : UserRecord}
      → find_where
          (is_user_id id)
          (update_where (is_user_id id) (with_password (security.hash_password password)) us)
        ≡ some u
      → u.password_hash ≡ security.hash_password password
  found-hash id [] e = cc
  found-hash id (x ∷ xs) {u} e = ground (arith, found-hash id xs {u = u})

  -- A password reset that succeeds used a row of the token that was unused and had not expired, gives
  -- the user of that row the new password, uses up every reset token of the
  -- user, closes every session of the user, whatever cookie and instant opens it, and leaves the
  -- sessions of the others as they were. The same token, used again at any later instant, answers 400
  -- and changes nothing.
  pub reset_takes_over :
      (later raw email_id' password' : ℕ) (context' : RequestContext) (db db' : AuthDb)
      → now ≤ later
      → reset_own_password security email_id now token password context db ≡ (ok tt, db')
      → (t : TokenRecord) × (u : UserRecord) × (find_where
            (usable now (security.sha256_hex token))
            db.password_reset_tokens
          ≡ some t)
        × (t.token_hash ≡ security.sha256_hex token)
        × (t.used_at ≡ none)
        × (now < t.expires_at)
        × (u.id ≡ t.user_id)
        × (find_where (is_user_id u.id) db'.users ≡ some u)
        × (u.password_hash ≡ security.hash_password password)
        × (count_where (is_unused u.id) db'.password_reset_tokens ≡ 0)
        × IsClosed security u.id db' later raw
        × (sessions_of_others u.id db' ≡ sessions_of_others u.id db)
        × (reset_own_password security email_id' later token password' context' db'
            ≡ (err token_error, db'))
  reset_takes_over later raw email_id' password' context' db db' order h =
      let (t, u, allowed, given, found, e) = reset-finished db db' h in
      let users =
        update_where (is_user_id t.user_id) (with_password (security.hash_password password))
          db.users in
      let mine : u.id ≡ t.user_id =
        (==_iff u.id t.user_id).0 (find_where_test (is_user_id t.user_id) users {a = u} found) in
      (
        t,
        u,
        given,
        ground (arith, allowed, ==_iff t.token_hash (security.sha256_hex token)),
        ground (arith, allowed),
        ground (arith, allowed),
        mine,
        subst (λ (d : AuthDb). find_where (is_user_id u.id) d.users ≡ some u) (sym e)
            (rw mine found),
        found-hash t.user_id db.users {u = u} found,
        rw e (
            update_where-clears (is_unused u.id) (is_unused u.id) (used now) (λ x _. ground arith)
              (λ x h. h) _),
        ended-IsClosed security now u.id password_reset_reason db db' (rw e refl) later raw,
        ended-others security now u.id password_reset_reason db db' (rw e refl),
        unusable-error later email_id' password' context' db'
            (rw e (spent-none later t u db order)),
      )
