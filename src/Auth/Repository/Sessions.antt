-- ===== src/Auth/Repository/Sessions.antt =====
-- The sessions of `PrismaAuthRepository`. The primary key and the unique `token_hash` refuse a row
-- that repeats one.
use Prim.Native.String.{String}
use legaltech_colombia.Prelude.{
  false, ℕ, ◌+◌, Bool, Option, none, some, List, [], ◌∷◌, ◌++◌, ◌==◌, ◌&&◌, ◌||◌, ltb, leb, is_none,
  if◌then◌else◌, any, find_where, update_where, count_where, select_where,
}
use legaltech_colombia.Common.{
  Action, pure, gets, modify, throw_if, transaction, ◌>>=◌, ◌>>◌, failure, database_error,
}
use legaltech_colombia.Auth.Tables.{
  SessionRecord, AuthDb, AuthEntry, add_optional_log, SessionRevokedReason, rotated_reason,
}
use legaltech_colombia.Auth.Repository.Tokens.{revoke_where, is_unrevoked_of}

pub record CreateSessionInput : Type 0 where
  pub user_id : ℕ
  pub created_at : ℕ
  pub token_hash : ℕ
  pub csrf_token_hash : ℕ
  pub last_seen_at : ℕ
  pub idle_expires_at : ℕ
  pub absolute_expires_at : ℕ
  pub ip : Option String
  pub user_agent : Option String

abbrev pub new_session : ℕ → CreateSessionInput → SessionRecord
new_session id input = record {
  id = id;
  user_id = input.user_id;
  token_hash = input.token_hash;
  csrf_token_hash = input.csrf_token_hash;
  created_at = input.created_at;
  last_seen_at = input.last_seen_at;
  idle_expires_at = input.idle_expires_at;
  absolute_expires_at = input.absolute_expires_at;
  revoked_at = none;
  revoked_reason = none;
  rotated_at = none;
  ip = input.ip;
  user_agent = input.user_agent;
}

abbrev pub is_session_id : ℕ → SessionRecord → Bool
is_session_id id s = s.id == id

abbrev pub has_token_hash : ℕ → SessionRecord → Bool
has_token_hash hash s = s.token_hash == hash

abbrev pub add_session : SessionRecord → AuthDb → AuthDb
add_session s db = record db { sessions = db.sessions ++ s ∷ [] }

unfoldable pub create_session : ℕ → CreateSessionInput → Action AuthDb SessionRecord
create_session id input = do
  same_id ← gets (λ db. any (is_session_id id) db.sessions)
  same_hash ← gets (λ db. any (has_token_hash input.token_hash) db.sessions)
  throw_if (same_id || same_hash) (failure database_error)
  modify (add_session (new_session id input))
  pure (new_session id input)

abbrev pub find_session_by_token_hash : ℕ → Action AuthDb (Option SessionRecord)
find_session_by_token_hash hash = gets λ db. find_where (has_token_hash hash) db.sessions

abbrev pub is_listed : ℕ → ℕ → SessionRecord → Bool
is_listed user_id now s =
    s.user_id == user_id
    && is_none s.revoked_at
    && is_none s.rotated_at
    && ltb now s.idle_expires_at
    && ltb now s.absolute_expires_at

-- `ORDER BY last_seen_at DESC, id ASC`
abbrev pub listed_before : SessionRecord → SessionRecord → Bool
listed_before a b =
    ltb b.last_seen_at a.last_seen_at || a.last_seen_at == b.last_seen_at && leb a.id b.id

pub insert_listed : SessionRecord → List SessionRecord → List SessionRecord
insert_listed s [] = s ∷ []
insert_listed s (x ∷ xs) = if listed_before s x then s ∷ x ∷ xs else x ∷ insert_listed s xs

pub sort_listed : List SessionRecord → List SessionRecord
sort_listed [] = []
sort_listed (x ∷ xs) = insert_listed x (sort_listed xs)

abbrev pub list_active_sessions : ℕ → ℕ → Action AuthDb (List SessionRecord)
list_active_sessions user_id now =
    gets λ db. sort_listed (select_where (is_listed user_id now) db.sessions)

abbrev pub touched : ℕ → ℕ → SessionRecord → SessionRecord
touched last idle s = record s { last_seen_at = last; idle_expires_at = idle }

abbrev pub touch_session : ℕ → ℕ → ℕ → Action AuthDb (Unit {0})
touch_session id last idle =
    modify
      λ db. record db { sessions = update_where (is_session_id id) (touched last idle) db.sessions }

abbrev pub with_csrf : ℕ → SessionRecord → SessionRecord
with_csrf hash s = record s { csrf_token_hash = hash }

abbrev pub rotate_session_csrf : ℕ → ℕ → Action AuthDb (Unit {0})
rotate_session_csrf id hash =
    modify
      λ db. record db { sessions = update_where (is_session_id id) (with_csrf hash) db.sessions }

-- Revokes the rows that satisfy the condition; `count === 1` writes the event and is the answer.
abbrev pub revoke_one :
    ℕ → SessionRevokedReason → (SessionRecord → Bool) → Option AuthEntry → Action AuthDb Bool
revoke_one now reason p audit = transaction do
  count ← gets (λ db. count_where p db.sessions)
  modify (revoke_where now reason p)
  modify (add_optional_log (if count == 1 then audit else none) now)
  pure (count == 1)

abbrev pub is_revocable : ℕ → SessionRecord → Bool
is_revocable id s = s.id == id && is_none s.revoked_at

unfoldable pub revoke_session : ℕ → ℕ → SessionRevokedReason → Option AuthEntry → Action AuthDb Bool
revoke_session now id reason audit = revoke_one now reason (is_revocable id) audit

abbrev pub is_own_valid : ℕ → ℕ → ℕ → SessionRecord → Bool
is_own_valid id user_id now s =
    s.id == id
    && s.user_id == user_id
    && is_none s.revoked_at
    && ltb now s.idle_expires_at
    && ltb now s.absolute_expires_at

-- The clock of the API when the request is checked, and the instant of the revocation.
unfoldable pub revoke_own_session :
    ℕ → ℕ → ℕ → ℕ → SessionRevokedReason → Option AuthEntry → Action AuthDb Bool
revoke_own_session at id user_id now reason audit =
    revoke_one at reason (is_own_valid id user_id now) audit

unfoldable pub revoke_all_own_sessions :
    ℕ → ℕ → SessionRevokedReason → Option AuthEntry → Action AuthDb ℕ
revoke_all_own_sessions now user_id reason audit = transaction do
  count ← gets (λ db. count_where (is_unrevoked_of user_id) db.sessions)
  modify (revoke_where now reason (is_unrevoked_of user_id))
  modify (add_optional_log (if ltb 0 count then audit else none) now)
  pure count

pub record RotateSessionInput : Type 0 where
  pub previous_session_id : ℕ
  pub user_id : ℕ
  pub now : ℕ
  pub grace_ms : ℕ
  pub new_session : CreateSessionInput

abbrev pub is_rotatable : RotateSessionInput → SessionRecord → Bool
is_rotatable input s =
    s.id == input.previous_session_id
    && s.user_id == input.user_id
    && is_none s.revoked_at
    && is_none s.rotated_at

abbrev pub rotated : ℕ → SessionRecord → SessionRecord
rotated now s = record s { rotated_at = some now }

-- `rotated_at <= now - grace`, false when it is NULL
abbrev pub rotated_before : ℕ → ℕ → Option ℕ → Bool
rotated_before now grace none = false
rotated_before now grace (some t) = leb (t + grace) now

abbrev pub is_past_grace : RotateSessionInput → SessionRecord → Bool
is_past_grace input s =
    s.user_id == input.user_id
    && is_none s.revoked_at
    && rotated_before input.now input.grace_ms s.rotated_at

abbrev pub mark_rotated : RotateSessionInput → AuthDb → AuthDb
mark_rotated input db = record db {
  sessions = update_where (is_rotatable input) (rotated input.now) db.sessions;
}

abbrev pub replace_session : ℕ → RotateSessionInput → Action AuthDb (Option SessionRecord)
replace_session id input = do
  modify (revoke_where input.now rotated_reason (is_past_grace input))
  s ← create_session id input.new_session
  pure (some s)

unfoldable pub rotate_session : ℕ → RotateSessionInput → Action AuthDb (Option SessionRecord)
rotate_session id input = transaction do
  count ← gets (λ db. count_where (is_rotatable input) db.sessions)
  modify (mark_rotated input)
  if count == 1 then replace_session id input else pure none
