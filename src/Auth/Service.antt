-- ===== src/Auth/Service.antt =====
-- apps/api/src/modules/auth/auth.service.ts and auth.mapper.ts. The emails' formats and the
-- `Date`s' texts are left out: a public user or session has the values themselves.
mod Types
mod Accounts
mod Login
mod Current
mod Delays
unfoldable pub use Types.*
unfoldable pub use Accounts.*
unfoldable pub use Login.*
unfoldable pub use Current.*
unfoldable pub use Delays.*
