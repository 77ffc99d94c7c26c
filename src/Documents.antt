-- ===== src/Documents.antt =====
-- Documents of a case: apps/api/src/modules/documents.
pub mod FileType
pub mod Policy
pub mod Repository
pub mod Service
pub mod Rights
pub mod Access
pub mod Quota
pub mod Uploads
