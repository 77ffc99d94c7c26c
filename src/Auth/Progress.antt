-- ===== src/Auth/Progress.antt =====
-- Every statement of the repository on the sessions, and every operation of the service, progresses.
pub mod Statements
pub mod Operations
pub mod Logins
pub mod Reach
