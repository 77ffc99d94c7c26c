-- ===== src/Auth/Guards.antt =====
-- The routes of authentication that act for an authenticated user: no effect without the session's
-- CSRF token. The routes of cases and documents are not modelled.
use legaltech_colombia.Prelude.{
  ℕ, false, Option, some, ◌≡◌, refl, arith, ◌&&◌, Bool-cases, inl, inr,
}
use legaltech_colombia.Common.{ok, err}
use legaltech_colombia.Auth.Tables.{AuthDb}
use legaltech_colombia.Auth.Session.{Security, SessionSeed}
use legaltech_colombia.Auth.Service.{CurrentUserResult, DelayRun, current_user, verify_csrf}
use legaltech_colombia.Auth.Routes.{
  AuthServer, Site, is_same_origin, Request, csrf_error, post_resend, post_rotate, post_logout_all,
  delete_session, post_logout,
}

-- A request with a valid session, from another origin or without the CSRF token of that session in its
-- header, is answered 403 by the five routes of authentication that ask for the token (the resending of
-- the verification email, the rotation of the session, the logout of all sessions, the revocation of
-- one, and the logout), and writes nothing but the use of the session.
pub csrf_required :
    (security : Security) (site : Site) (request : Request) (run : DelayRun) (seed : SessionSeed)
    (now at : ℕ) (params : Option ℕ) (current : CurrentUserResult) (s : AuthServer) (db : AuthDb)
    → current_user security request.received_at request.session_token s.db ≡ (ok (some current), db)
    → (is_same_origin site request.origin request.referer
        && verify_csrf security current.session request.csrf_header)
      ≡ false
    → (post_resend security site run request s ≡ (err csrf_error, record s { db = db }))
      × (post_rotate security site now seed request s ≡ (err csrf_error, record s { db = db }))
      × (post_logout_all security site at request s ≡ (err csrf_error, record s { db = db }))
      × (delete_session security site at now request params s
          ≡ (err csrf_error, record s { db = db }))
      × (post_logout security site now at request s ≡ (err csrf_error, record s { db = db }))
unfolding post_resend post_rotate post_logout_all delete_session post_logout
csrf_required security site request run seed now at params current s db e bad =
    elim (Bool-cases (is_same_origin site request.origin request.referer)) [
      | inr other ↦ rw (e, other) (refl, refl, refl, refl, refl)
      | inl same ↦
          let wrong : verify_csrf security current.session request.csrf_header ≡ false =
            ground arith in
          rw (e, same, wrong) (refl, refl, refl, refl, refl)
    ]
