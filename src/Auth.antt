-- ===== src/Auth.antt =====
-- apps/api/src/modules/auth and packages/database/prisma/schema.prisma: users, sessions and the tokens
-- of the emails. Instants and durations are milliseconds, as those of a `Date`. Emails, passwords,
-- tokens and hashes are only compared: they are naturals, and an absent or empty cookie is `none`.
pub mod Tables
pub mod Settings
pub mod Policy
pub mod Repository
pub mod Session
pub mod Service
pub mod Routes
pub mod Guards
pub mod Evolution
pub mod Sound
pub mod Progress
pub mod Validity
pub mod Logins
pub mod Refusals
pub mod Rotation
pub mod Enumeration
pub mod Closing
pub mod Resets
