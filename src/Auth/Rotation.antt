-- ===== src/Auth/Rotation.antt =====
-- The rotation of a session: at most once, and never past the absolute expiry.
use legaltech_colombia.Prelude.{
  ℕ, ◌≤◌, Bool, false, Option, none, some, List, [], ◌∷◌, ◌≡◌, ◌≢◌, refl, sym, ◌∙◌, ap, subst, inl,
  inr, arith, any, count_where, count_where-append_one, update_where, update_where_none,
  update_where-clears, update_where-stays_none, Bool-cases, ◌==◌,
}
use legaltech_colombia.Common.Runs.{bind-ok, ok-same}
use legaltech_colombia.Common.{ok, Role}
use legaltech_colombia.Auth.Tables.{AuthDb, SessionRecord, rotated_reason}
use legaltech_colombia.Auth.Repository.{
  RotateSessionInput, is_rotatable, rotated, revoked, is_past_grace, mark_rotated, revoke_where,
  rotate_session, create_session, new_session, add_session, is_session_id, has_token_hash,
}
use legaltech_colombia.Auth.Session.{
  Security, SessionSeed, CreatedSession, rotate_session_for_user, next_session_input, with_raws,
  rotated_answer, session_rotation_grace_ms,
}

any-id-update :
    (k : ℕ) (p : SessionRecord → Bool) (f : SessionRecord → SessionRecord) (xs : List SessionRecord)
    → ((s : SessionRecord) → (f s).id ≡ s.id)
    → any (is_session_id k) (update_where p f xs) ≡ any (is_session_id k) xs
any-id-update k p f [] same = refl
any-id-update k p f (x ∷ xs) same = ground (arith, same x, any-id-update k p f xs same)

rotatable-any :
    (input : RotateSessionInput) (xs : List SessionRecord)
    → any (is_session_id input.previous_session_id) xs ≡ false
    → count_where (is_rotatable input) xs ≡ 0
rotatable-any input [] h = refl
rotatable-any input (x ∷ xs) h = ground (arith, rotatable-any input xs)

-- The sessions of a rotation before the new one.
abbrev retired : RotateSessionInput → AuthDb → AuthDb
retired input db =
    revoke_where input.now rotated_reason (is_past_grace input) (mark_rotated input db)

rotate-runs :
    (id : ℕ) (input : RotateSessionInput) (db db' : AuthDb) {s : SessionRecord}
    → rotate_session id input db ≡ (ok (some s), db')
    → (count_where (is_rotatable input) db.sessions ≡ 1)
      × (any (is_session_id id) (retired input db).sessions ≡ false)
      × (s ≡ new_session id input.new_session)
      × (db' ≡ add_session (new_session id input.new_session) (retired input db))
unfolding rotate_session create_session
rotate-runs id input db db' {s} h =
    elim (Bool-cases (count_where (is_rotatable input) db.sessions == 1)) [
      | inr e ↦ ground arith
      | inl e ↦ elim (Bool-cases (any (is_session_id id) (retired input db).sessions)) [
        | inl f ↦ ground arith
        | inr f ↦
            elim (Bool-cases
              (any (has_token_hash input.new_session.token_hash) (retired input db).sessions)) [
                | inl g ↦ ground arith
                | inr g ↦ ground arith
              ]
      ]
    ]

new-not_previous :
    (id : ℕ) (input : RotateSessionInput) (db : AuthDb)
    → count_where (is_rotatable input) db.sessions ≡ 1
    → any (is_session_id id) (retired input db).sessions ≡ false
    → id ≢ input.previous_session_id
new-not_previous id input db one absent e =
    let back =
      any-id-update id (is_past_grace input) (revoked input.now rotated_reason)
        (mark_rotated input db).sessions (λ s. refl)
      ∙ any-id-update id (is_rotatable input) (rotated input.now) db.sessions (λ s. refl) in
    let zero_rows =
      rotatable-any input db.sessions
        (subst (λ k. any (is_session_id k) db.sessions ≡ false) e (sym back ∙ absent)) in
    ground (arith, one, zero_rows)

-- Nothing is left to rotate.
rotated-none :
    (id : ℕ) (input again : RotateSessionInput) (db : AuthDb)
    → again.previous_session_id ≡ input.previous_session_id
    → again.user_id ≡ input.user_id
    → id ≢ input.previous_session_id
    → count_where
        (is_rotatable again)
        (add_session (new_session id input.new_session) (retired input db)).sessions
      ≡ 0
rotated-none id input again db same_id same_user other =
    let cleared =
      update_where-stays_none (is_past_grace input) (is_rotatable again)
        (revoked input.now rotated_reason) (λ s. ground arith) _
        (update_where-clears (is_rotatable input) (is_rotatable again) (rotated input.now)
          (λ s h. ground arith) (λ s h. ground arith) db.sessions) in
    ground (
      arith,
      other,
      cleared,
      count_where-append_one (is_rotatable again) (retired input db).sessions
          (new_session id input.new_session),
    )

unclaimed :
    (id : ℕ) (input : RotateSessionInput) (db : AuthDb)
    → count_where (is_rotatable input) db.sessions ≡ 0
    → rotate_session id input db ≡ (ok none, db)
unfolding rotate_session
unclaimed id input db h =
    rw (h, update_where_none (is_rotatable input) (rotated input.now) db.sessions h) refl

module _ (security : Security) (previous : SessionRecord) (user_id : ℕ) where
  abbrev input_of : SessionSeed → Role → RotateSessionInput
  input_of seed role = record {
    previous_session_id = previous.id;
    user_id = user_id;
    now = seed.now;
    grace_ms = session_rotation_grace_ms;
    new_session = next_session_input security seed previous user_id role;
  }

  -- A rotation that succeeds gives the same user a session with the absolute expiry of the previous
  -- one, which its idle expiry does not pass. A second rotation of the previous session, at any
  -- instant and for any role, rotates nothing and changes nothing.
  pub rotation_once :
      (seed again : SessionSeed) (role role' : Role) (db db' : AuthDb) (c : CreatedSession)
      → rotate_session_for_user security seed previous user_id role db ≡ (ok (some c), db')
      → (c.session.user_id ≡ user_id)
        × (c.session.absolute_expires_at ≡ previous.absolute_expires_at)
        × (c.session.idle_expires_at ≤ previous.absolute_expires_at)
        × (c.session.token_hash ≡ security.sha256_hex c.session_raw)
        × (rotate_session_for_user security again previous user_id role' db' ≡ (ok none, db'))
  unfolding rotate_session_for_user
  rotation_once seed again role role' db db' c h =
      let ((s, db1), e, k) = bind-ok (rotate_session seed.id (input_of seed role)) _ db db' h in
      let (same, left) = ok-same _ (rotated_answer seed s) (some c) db1 db' refl k in
      rotated_one s db1 e same left
    where
      rotated_one :
          (s : Option SessionRecord) (db1 : AuthDb)
          → rotate_session seed.id (input_of seed role) db ≡ (ok s, db1)
          → rotated_answer seed s ≡ some c
          → db1 ≡ db'
          → (c.session.user_id ≡ user_id)
            × (c.session.absolute_expires_at ≡ previous.absolute_expires_at)
            × (c.session.idle_expires_at ≤ previous.absolute_expires_at)
            × (c.session.token_hash ≡ security.sha256_hex c.session_raw)
            × (rotate_session_for_user security again previous user_id role' db' ≡ (ok none, db'))
      rotated_one none db1 e same left = cc
      rotated_one (some x) db1 e same left =
          let (one, absent, made, after) =
            rotate-runs seed.id (input_of seed role) db db1 {s = x} e in
          let other = new-not_previous seed.id (input_of seed role) db one absent in
          let gone =
            rotated-none seed.id (input_of seed role) (input_of again role') db refl refl other in
          let stuck = unclaimed again.id (input_of again role') db' (rw (sym left ∙ after) gone) in
          let answer : with_raws seed x ≡ c = cc in
          let whole = sym answer ∙ ap (with_raws seed) made in
          rw whole (refl, refl, omega arith, refl, rw stuck refl)
