-- ===== src/Notifications.antt =====
-- apps/api/src/modules/notifications: the outbox of emails, its composers and its dispatch. Only the
-- intent to send an email is stored; its token is made when it is sent.
pub mod Composers
pub mod Dispatch
pub mod Pending
pub mod Iterations
pub mod Runs
pub mod Settled
pub mod Links
