-- ===== src/Auth/Session.antt =====
-- apps/api/src/modules/auth/auth.session.ts, and SHA-256 and Argon2id behind
-- apps/api/src/security/crypto.ts and password.ts.
use Prim.Native.String.{String}
use legaltech_colombia.Prelude.{
  ℕ, ◌+◌, ◌-◌, ◌*◌, min, Bool, false, Option, none, some, ◌==◌, ◌&&◌, ◌||◌, leb, is_some, is_none,
  if◌then◌else◌,
}
use legaltech_colombia.Common.{
  Action, pure, ◌>>=◌, ◌>>◌, Role, user, professional, admin, super_admin,
}
use legaltech_colombia.Auth.Tables.{UserRecord, SessionRecord, AuthDb}
use legaltech_colombia.Auth.Settings.{minute_ms, hour_ms, day_ms}
use legaltech_colombia.Auth.Repository.{
  create_session, find_session_by_token_hash, touch_session, rotate_session, CreateSessionInput,
}

-- Functions of Node and of the Argon2id library. A salt makes each hash new: `hash_password` is the
-- function of one call.
pub record Security : Type 0 where
  pub normalize_email : ℕ → ℕ
  pub sha256_hex : ℕ → ℕ
  pub hash_password : ℕ → ℕ
  pub verify_password : ℕ → ℕ → Bool
  pub dummy_password_hash : ℕ
  pub trim : String → String

pub record SessionDuration : Type 0 where
  pub idle_ms : ℕ
  pub absolute_ms : ℕ

abbrev pub session_durations : Role → SessionDuration
session_durations user = record { idle_ms = 7 * day_ms; absolute_ms = 30 * day_ms }
session_durations professional = record { idle_ms = 1 * day_ms; absolute_ms = 7 * day_ms }
session_durations admin = record { idle_ms = 1 * day_ms; absolute_ms = 7 * day_ms }
session_durations super_admin = record { idle_ms = 12 * hour_ms; absolute_ms = 3 * day_ms }

abbrev pub session_rotation_interval_ms : Role → ℕ
session_rotation_interval_ms user = 1 * hour_ms
session_rotation_interval_ms professional = 15 * minute_ms
session_rotation_interval_ms admin = 15 * minute_ms
session_rotation_interval_ms super_admin = 15 * minute_ms

abbrev pub session_rotation_grace_ms : ℕ
session_rotation_grace_ms = 60 * 1000

pub record CreatedSession : Type 0 where
  pub session : SessionRecord
  pub session_raw : ℕ
  pub csrf_raw : ℕ

-- What a new session takes from outside: its id, the two random tokens, the clock, the client.
pub record SessionSeed : Type 0 where
  pub id : ℕ
  pub session_raw : ℕ
  pub csrf_raw : ℕ
  pub now : ℕ
  pub ip : Option String
  pub user_agent : Option String

abbrev pub with_raws : SessionSeed → SessionRecord → CreatedSession
with_raws seed s = record { session = s; session_raw = seed.session_raw; csrf_raw = seed.csrf_raw }

-- Whether the grace period of a rotated session is over.
abbrev pub is_grace_over : ℕ → Option ℕ → Bool
is_grace_over now none = false
is_grace_over now (some t) = leb (t + session_rotation_grace_ms) now

-- The checks of `loadValidSession`, in its order.
abbrev pub is_refused : ℕ → SessionRecord → Bool
is_refused now s =
    is_some s.revoked_at
    || is_grace_over now s.rotated_at
    || leb s.idle_expires_at now
    || leb s.absolute_expires_at now

-- `now + (idleExpiresAt - lastSeenAt)`, up to the absolute expiry
abbrev pub slid_idle_expires_at : ℕ → SessionRecord → ℕ
slid_idle_expires_at now s = min (now + s.idle_expires_at - s.last_seen_at) s.absolute_expires_at

abbrev pub load_found : ℕ → Option SessionRecord → Action AuthDb (Option SessionRecord)
load_found now none = pure none
load_found now (some s) =
    if is_refused now s
    then pure none
    else touch_session s.id now (slid_idle_expires_at now s) >> pure (some s)

abbrev pub is_rotation_due : SessionRecord → Role → ℕ → Bool
is_rotation_due s role now =
    is_none s.rotated_at && leb (session_rotation_interval_ms role) (now - s.created_at)

abbrev pub rotated_answer : SessionSeed → Option SessionRecord → Option CreatedSession
rotated_answer seed none = none
rotated_answer seed (some s) = some (with_raws seed s)

module _ (security : Security) where
  abbrev pub first_session_input : SessionSeed → UserRecord → CreateSessionInput
  first_session_input seed u = record {
    user_id = u.id;
    created_at = seed.now;
    token_hash = security.sha256_hex seed.session_raw;
    csrf_token_hash = security.sha256_hex seed.csrf_raw;
    last_seen_at = seed.now;
    idle_expires_at = seed.now + (session_durations u.role).idle_ms;
    absolute_expires_at = seed.now + (session_durations u.role).absolute_ms;
    ip = seed.ip;
    user_agent = seed.user_agent;
  }

  abbrev pub create_session_for_user : SessionSeed → UserRecord → Action AuthDb CreatedSession
  create_session_for_user seed u = do
    s ← create_session seed.id (first_session_input seed u)
    pure (with_raws seed s)

  abbrev pub load_by_token : ℕ → Option ℕ → Action AuthDb (Option SessionRecord)
  load_by_token now none = pure none
  load_by_token now (some raw) = do
    found ← find_session_by_token_hash (security.sha256_hex raw)
    load_found now found

  unfoldable pub load_valid_session : ℕ → Option ℕ → Action AuthDb (Option SessionRecord)
  load_valid_session now raw = load_by_token now raw

  -- Node's constant-time comparison of two digests
  abbrev pub csrf_token_matches_session : SessionRecord → ℕ → Bool
  csrf_token_matches_session s raw = security.sha256_hex raw == s.csrf_token_hash

  abbrev pub next_session_input : SessionSeed → SessionRecord → ℕ → Role → CreateSessionInput
  next_session_input seed previous user_id role = record {
    user_id = user_id;
    created_at = seed.now;
    token_hash = security.sha256_hex seed.session_raw;
    csrf_token_hash = security.sha256_hex seed.csrf_raw;
    last_seen_at = seed.now;
    idle_expires_at =
        min (seed.now + (session_durations role).idle_ms) previous.absolute_expires_at;
    absolute_expires_at = previous.absolute_expires_at;
    ip = seed.ip;
    user_agent = seed.user_agent;
  }

  unfoldable pub rotate_session_for_user :
      SessionSeed → SessionRecord → ℕ → Role → Action AuthDb (Option CreatedSession)
  rotate_session_for_user seed previous user_id role = do
    s ← rotate_session seed.id (record {
      previous_session_id = previous.id;
      user_id = user_id;
      now = seed.now;
      grace_ms = session_rotation_grace_ms;
      new_session = next_session_input seed previous user_id role;
    })
    pure (rotated_answer seed s)
