-- ===== src/Auth/Repository/Accounts.antt =====
-- Users of `PrismaAuthRepository`. An insert that the unique email refuses is P2002.
use Prim.Native.String.{String}
use legaltech_colombia.Prelude.{ℕ, Bool, Option, none, [], ◌∷◌, ◌++◌, ◌==◌, any, find_where}
use legaltech_colombia.Common.{
  Action, pure, gets, modify, throw_if, transaction, ◌>>=◌, ◌>>◌, failure, duplicate_email, user,
  active,
}
use legaltech_colombia.Auth.Tables.{
  UserRecord, AuthDb, AuthEntry, add_log, enqueue_email, email_verification,
}

pub record CreateUserInput : Type 0 where
  pub email : ℕ
  pub password_hash : ℕ
  pub full_name : String

abbrev pub has_email : ℕ → UserRecord → Bool
has_email email u = u.email == email

abbrev pub is_user_id : ℕ → UserRecord → Bool
is_user_id id u = u.id == id

abbrev pub find_user_by_email : ℕ → Action AuthDb (Option UserRecord)
find_user_by_email email = gets λ db. find_where (has_email email) db.users

abbrev pub find_user_by_id : ℕ → Action AuthDb (Option UserRecord)
find_user_by_id id = gets λ db. find_where (is_user_id id) db.users

-- The columns that the insert leaves to the database: `role` USER, `status` ACTIVE.
abbrev pub new_user : ℕ → ℕ → CreateUserInput → UserRecord
new_user id now input = record {
  id = id;
  email = input.email;
  password_hash = input.password_hash;
  full_name = input.full_name;
  role = user;
  status = active;
  email_verified_at = none;
  created_at = now;
}

abbrev pub add_user : UserRecord → AuthDb → AuthDb
add_user u db = record db { users = db.users ++ u ∷ [] }

unfoldable pub create_user : ℕ → ℕ → CreateUserInput → Action AuthDb UserRecord
create_user id now input = do
  taken ← gets (λ db. any (has_email input.email) db.users)
  throw_if taken (failure duplicate_email)
  modify (add_user (new_user id now input))
  pure (new_user id now input)

-- The id of the user and of the email, and the instant.
unfoldable pub create_user_with_email_verification :
    ℕ → ℕ → ℕ → CreateUserInput → Action AuthDb UserRecord
create_user_with_email_verification id email_id now input = transaction do
  taken ← gets (λ db. any (has_email input.email) db.users)
  throw_if taken (failure duplicate_email)
  modify (add_user (new_user id now input))
  modify (enqueue_email email_id now email_verification id)
  pure (new_user id now input)

abbrev pub write_audit_log : ℕ → AuthEntry → Action AuthDb (Unit {0})
write_audit_log now e = modify (add_log e now)
