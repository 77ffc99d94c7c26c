-- ===== src/Database.antt =====
-- The tables of PostgreSQL that the cases, documents and worker code reads and writes
-- (packages/database/prisma/schema.prisma, and the record types of the modules), with the jobs that
-- pg-boss keeps in the same database.
mod Cases
mod Documents
mod Audit
pub mod Sound
pub use Cases.*
pub use Documents.*
pub use Audit.*
use legaltech_colombia.Prelude.{List, ◌++◌, ◌∷◌, []}

pub record Db : Type 0 where
  pub cases : List CaseRecord
  pub status_history : List CaseStatusChange
  pub documents : List DocumentRecord
  pub ocr_results : List OcrResult
  pub ocr_result_pages : List OcrResultPage
  pub audit_logs : List AuditLog
  pub jobs : List Job

-- A row is added at the end; the jobs are in the order of `boss.send`.
abbrev pub add_audit : AuditLog → Db → Db
add_audit a db = record db { audit_logs = db.audit_logs ++ a ∷ [] }

abbrev pub add_job : Job → Db → Db
add_job j db = record db { jobs = db.jobs ++ j ∷ [] }
