-- ===== src/Tests.antt =====
-- Runs of the model at concrete inputs.
mod Data
mod Treatments
mod Rows
mod Services
mod Texts
mod Uploads
mod Accounts
mod Logins
mod Runs
mod Replies
