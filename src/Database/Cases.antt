-- ===== src/Database/Cases.antt =====
-- packages/contracts/src/cases.ts and apps/api/src/modules/cases/cases.types.ts: cases and the
-- history of their status.
use legaltech_colombia.Prelude.{ℕ, Option, Bool, true, false}

pub data CaseType : Type 0 where
  traffic_citation infraction photo_enforcement transport : CaseType
  notification administrative_proceeding other : CaseType

pub data CaseStatus : Type 0 where
  draft documents_pending preliminary_analysis payment_pending paid : CaseStatus
  legal_review document_preparation ready_to_file filed waiting_response : CaseStatus
  response_received follow_up resolved closed cancelled : CaseStatus

abbrev pub is_draft : CaseStatus → Bool
is_draft draft = true
is_draft _ = false

-- `CaseRecord`
pub record CaseRecord : Type 0 where
  pub id : ℕ
  pub user_id : ℕ
  pub type : CaseType
  pub status : CaseStatus
  pub created_at : ℕ
  pub updated_at : ℕ

-- A row of `case_status_history`: `CaseStatusChangeRecord` with its case.
pub record CaseStatusChange : Type 0 where
  pub case_id : ℕ
  pub from_status : Option CaseStatus
  pub to_status : CaseStatus
  pub changed_by_user_id : ℕ
  pub changed_at : ℕ
