-- ===== src/Database/Audit.antt =====
-- The audit log and the jobs: `AuditLogEntry` of apps/api/src/modules/auth/auth.types.ts, the rows
-- that `auditLogData` and the worker's statements write, and the payloads of
-- packages/contracts/src/documents.ts. The values are those that the modelled code records.
use Prim.Native.String.{String}
use legaltech_colombia.Prelude.{ℕ, Option, none, some}
use legaltech_colombia.Common.{Role}
use legaltech_colombia.Database.Cases.{CaseType, CaseStatus}
use legaltech_colombia.Database.Documents.{DocumentFileType, DocumentStatus, OcrErrorCode}

pub data AuditAction : Type 0 where
  case_created document_uploaded : AuditAction
  document_reprocess_requested document_ocr_reprocess_requested : AuditAction
  document_scan_clean document_scan_infected document_scan_failed : AuditAction
  document_scan_reprocessed : AuditAction
  document_ocr_completed document_ocr_failed document_ocr_reprocessed : AuditAction

pub data EntityType : Type 0 where
  case_entity document_entity : EntityType

-- `newValue` and `metadata`, by the fields that they hold.
pub data AuditValue : Type 0 where
  no_value : AuditValue
  reason_value : String → AuditValue
  case_value : CaseType → CaseStatus → AuditValue
  document_value : DocumentFileType → ℕ → DocumentStatus → AuditValue
  scan_value : DocumentStatus → AuditValue
  signature_value : DocumentStatus → String → AuditValue
  attempts_value : DocumentStatus → ℕ → AuditValue
  ocr_completed_value : ℕ → ℕ → AuditValue
  ocr_failed_value : OcrErrorCode → ℕ → AuditValue
  ocr_reprocessed_value : ℕ → AuditValue

pub record AuditLogEntry : Type 0 where
  pub actor_user_id : Option ℕ
  pub actor_role : Option Role
  pub action : AuditAction
  pub entity_type : EntityType
  pub entity_id : ℕ
  pub case_id : Option ℕ
  pub value : AuditValue
  pub request_id : Option String
  pub ip : Option String
  pub user_agent : Option String

pub record AuditLog : Type 0 where
  pub entry : AuditLogEntry
  pub open entry use *
  pub occurred_at : ℕ

-- `{ ...auditLogData(entry), caseId, occurredAt }`
abbrev pub audit_log_row : AuditLogEntry → ℕ → ℕ → AuditLog
audit_log_row e case_id now = record {
  entry = record e { case_id = some case_id };
  occurred_at = now;
}

-- An event of the worker: the system acts, so there is no actor.
abbrev pub system_event : AuditAction → ℕ → ℕ → AuditValue → ℕ → AuditLog
system_event action document case_id value now = record {
  entry = record {
    actor_user_id = none;
    actor_role = none;
    action = action;
    entity_type = document_entity;
    entity_id = document;
    case_id = some case_id;
    value = value;
    request_id = none;
    ip = none;
    user_agent = none;
  };
  occurred_at = now;
}

-- Jobs of pg-boss, by queue; an OCR job starts after a delay in seconds.
pub data Job : Type 0 where
  document_scan document_reprocess document_ocr_reprocess : ℕ → Job
  document_ocr : ℕ → ℕ → Job
