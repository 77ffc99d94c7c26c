-- ===== src/Auth/Enumeration.antt =====
-- What an outsider learns from `register` and `forgotPassword`: the same answers for known and unknown
-- emails.
use legaltech_colombia.Prelude.{
  ℕ, true, false, none, some, List, [], ◌∷◌, ◌++◌, ◌≡◌, ◌⊎◌, refl, inl, inr, arith, find_where, any,
  Option-cases, Bool-cases,
}
use legaltech_colombia.Common.{ok, RequestContext}
use legaltech_colombia.Auth.Tables.{AuthDb, UserRecord, email_verification, enqueue_email}
use legaltech_colombia.Auth.Repository.{has_email, new_user, create_user_with_email_verification}
use legaltech_colombia.Auth.Session.{Security}
use legaltech_colombia.Auth.Service.{
  RegisterRun, RegisterInput, register, user_input, DelayRun, forgot_password,
}

found-any :
    (email : ℕ) (us : List UserRecord) {u : UserRecord}
    → find_where (has_email email) us ≡ some u
    → any (has_email email) us ≡ true
found-any email [] e = cc
found-any email (x ∷ xs) {u} e = ground (arith, found-any email xs {u = u})

module _ (security : Security) (run : RegisterRun) (context : RequestContext)
    (input : RegisterInput) where
  abbrev email_of : ℕ
  email_of = security.normalize_email input.email

  -- The registration adds its user and one verification email to what the others wrote.
  pub record Registered (db db' : AuthDb) : Type 0 where
    pub fresh : any (has_email email_of) (run.meanwhile db).users ≡ false
    pub added :
        db'.users
        ≡ (run.meanwhile db).users
          ++ new_user run.user_id run.now (user_input security run context input) ∷ []
    pub mailed :
        db'.email_outbox
        ≡ (enqueue_email run.email_id run.now email_verification run.user_id
            (run.meanwhile db)).email_outbox

  -- The email had a user already, or another request took it between the check and the insert: no
  -- user, session, token or email of this registration.
  pub record Duplicate (db db' : AuthDb) : Type 0 where
    pub before : AuthDb
    pub which :
        (before ≡ db)
        ⊎ ((before ≡ run.meanwhile db) × (find_where (has_email email_of) db.users ≡ none))
    pub taken : any (has_email email_of) before.users ≡ true
    pub same_users : db'.users ≡ before.users
    pub same_sessions : db'.sessions ≡ before.sessions
    pub same_outbox : db'.email_outbox ≡ before.email_outbox

  -- A registration answers the same in every case. It adds one user with an unused email and one
  -- verification email, or it adds neither because the email is taken, also when another request took
  -- it between the check and the insert.
  pub register_uniform :
      (db : AuthDb)
      → let (answer, db') = register security run context input db in
        (answer ≡ ok tt) × (Registered db db' ⊎ Duplicate db db')
  unfolding register create_user_with_email_verification
  register_uniform db = elim (Option-cases (find_where (has_email email_of) db.users)) [
    | inr (u, e) ↦ rw e (
      refl,
      inr (record {
        before = db;
        which = inl refl;
        taken = found-any email_of db.users {u = u} e;
        same_users = refl;
        same_sessions = refl;
        same_outbox = refl;
      }),
    )
    | inl e ↦ elim (Bool-cases (any (has_email email_of) (run.meanwhile db).users)) [
      | inl taken ↦
          rw (e, taken)
            (
              refl,
              inr (record {
                before = run.meanwhile db;
                which = inr (refl, e);
                taken = taken;
                same_users = refl;
                same_sessions = refl;
                same_outbox = refl;
              }),
            )
      | inr fresh ↦
          rw (e, fresh) (refl, inl (record { fresh = fresh; added = refl; mailed = refl }))
    ]
  ]

-- The answer to a forgotten password does not depend on the table of users: known and unknown emails
-- get the same one, throttled or not.
pub forgot_password_uniform :
    (security : Security) (run : DelayRun) (context : RequestContext) (email : ℕ) (db : AuthDb)
    (others : List UserRecord)
    → (forgot_password security run context email (record db { users = others })).0
      ≡ (forgot_password security run context email db).0
unfolding forgot_password
forgot_password_uniform security run context email db others = ground arith
