-- ===== src/Auth/Repository.antt =====
-- apps/api/src/modules/auth/auth.repository.ts: `PrismaAuthRepository`. A statement of the database
-- that fails for another reason than a constraint is left out; generated ids and instants are
-- arguments.
mod Accounts
mod Tokens
mod Sessions
mod Attempts
unfoldable pub use Accounts.*
unfoldable pub use Tokens.*
unfoldable pub use Sessions.*
unfoldable pub use Attempts.*
