-- ===== src/Ocr/Repository.antt =====
-- apps/worker/src/ocr/ocr.types.ts and ocr.repository.ts: the statements by which the worker claims
-- a document for its OCR and records how the execution ended. `now` is `clock_timestamp()`.
use Prim.Native.String.{String}
use legaltech_colombia.Prelude.{
  ℕ, suc, Bool, true, false, ◌&&◌, ◌||◌, not, Option, none, some, List, [], ◌∷◌, ◌++◌, ◌==◌,
  if◌then◌else◌, length, find_where, count_where, update_where,
}
use legaltech_colombia.Common.{
  Action, pure, gets, modify, transaction, throw_if, failure, job_not_enqueued, pages_mismatch,
  ◌>>=◌, ◌>>◌,
}
use legaltech_colombia.Database.{
  Db, DocumentRecord, DocumentFileType, is_clean, DocumentOcrStatus, pending, processing, completed,
  failed, excluded, is_pending, is_processing, StorageKey, OcrRepresentation, OcrErrorCode,
  OcrOutcome, OcrResult, OcrResultPage, AuditAction, document_ocr_completed, document_ocr_failed,
  AuditValue, ocr_completed_value, ocr_failed_value, system_event, add_audit, add_job, document_ocr,
}
use legaltech_colombia.Scan.Repository.{older_than, same_instant}

pub record OcrClaim : Type 0 where
  pub document_id : ℕ
  pub case_id : ℕ
  pub file_type : DocumentFileType
  pub storage_key : StorageKey
  pub sanitized_storage_key : Option StorageKey
  pub file_size : ℕ
  pub attempts : ℕ
  pub token : ℕ

-- `OcrExecution`
pub record OcrExecution : Type 0 where
  pub id : ℕ
  pub engine : String
  pub engine_version : Option String
  pub representation : OcrRepresentation
  pub processed_sha256 : Option ℕ

abbrev pub claimable : ℕ → ℕ → ℕ → DocumentRecord → Bool
claimable now lease id d =
    d.id == id
    && (is_clean d.status
        && (is_pending d.ocr_status
            || is_processing d.ocr_status && older_than now lease d.ocr_started_at))

abbrev pub claimed : ℕ → DocumentRecord → DocumentRecord
claimed now d = record d {
  ocr_status = processing;
  ocr_attempts = suc d.ocr_attempts;
  ocr_started_at = some now;
}

abbrev pub claim_of : ℕ → DocumentRecord → OcrClaim
claim_of now d = record {
  document_id = d.id;
  case_id = d.case_id;
  file_type = d.file_type;
  storage_key = d.storage_key;
  sanitized_storage_key = d.sanitized_storage_key;
  file_size = d.file_size;
  attempts = suc d.ocr_attempts;
  token = now;
}

abbrev claim_row : ℕ → Option DocumentRecord → Option OcrClaim
claim_row now none = none
claim_row now (some d) = some (claim_of now d)

unfoldable pub claim : ℕ → ℕ → ℕ → Action Db (Option OcrClaim)
claim now id lease = do
  row ← gets (λ db. find_where (claimable now lease id) db.documents)
  modify (λ db. record db {
    documents = update_where (claimable now lease id) (claimed now) db.documents;
  })
  pure (claim_row now row)

-- The row that the claim holds.
abbrev pub held : OcrClaim → DocumentRecord → Bool
held c d =
    d.id == c.document_id && (is_processing d.ocr_status && same_instant c.token d.ocr_started_at)

abbrev pub set_excluded : DocumentRecord → DocumentRecord
set_excluded d = record d { ocr_status = excluded }

unfoldable pub mark_excluded : OcrClaim → Action Db Bool
mark_excluded c = do
  count ← gets (λ db. count_where (held c) db.documents)
  modify (λ db. record db { documents = update_where (held c) set_excluded db.documents })
  pure (count == 1)

abbrev pub released : DocumentRecord → DocumentRecord
released d = record d { ocr_status = pending; ocr_started_at = none }

send_ocr : Bool → ℕ → ℕ → Action Db Bool
send_ocr sent id delay = do
  throw_if (not sent) (failure job_not_enqueued)
  modify (add_job (document_ocr id delay))
  pure true

-- `sent` says whether pg-boss takes the job.
unfoldable pub release_for_retry : Bool → OcrClaim → ℕ → Action Db Bool
unfolding send_ocr
release_for_retry sent c delay = transaction do
  count ← gets (λ db. count_where (held c) db.documents)
  modify (λ db. record db { documents = update_where (held c) released db.documents })
  if not (count == 1) then pure false else send_ocr sent c.document_id delay

-- How an execution ended: with its pages, or with a code.
pub data OcrEnd : Type 0 where
  with_pages : List (List ℕ) → OcrEnd
  with_code : OcrErrorCode → OcrEnd

abbrev pub end_status : OcrEnd → DocumentOcrStatus
end_status (with_pages _) = completed
end_status (with_code _) = failed

abbrev pub end_outcome : OcrEnd → OcrOutcome
end_outcome (with_pages _) = OcrOutcome.completed
end_outcome (with_code _) = OcrOutcome.failed

abbrev pub end_pages : OcrEnd → Option ℕ
end_pages (with_pages texts) = some (length texts)
end_pages (with_code _) = none

abbrev pub end_code : OcrEnd → Option OcrErrorCode
end_code (with_pages _) = none
end_code (with_code code) = some code

abbrev pub end_action : OcrEnd → AuditAction
end_action (with_pages _) = document_ocr_completed
end_action (with_code _) = document_ocr_failed

abbrev pub end_value : OcrClaim → OcrEnd → AuditValue
end_value c (with_pages texts) = ocr_completed_value (length texts) c.attempts
end_value c (with_code code) = ocr_failed_value code c.attempts

-- The pages are numbered from 1.
abbrev pub numbered : ℕ → ℕ → List (List ℕ) → List OcrResultPage
numbered id n [] = []
numbered id n (text ∷ texts) =
    record { ocr_result_id = id; page_number = n; text = text } ∷ numbered id (suc n) texts

abbrev pub page_rows : ℕ → OcrEnd → List OcrResultPage
page_rows id (with_pages texts) = numbered id 1 texts
page_rows id (with_code _) = []

abbrev pub result_row : ℕ → OcrClaim → OcrExecution → OcrEnd → OcrResult
result_row now c x r = record {
  id = x.id;
  document_id = c.document_id;
  outcome = end_outcome r;
  engine = x.engine;
  engine_version = x.engine_version;
  representation = some x.representation;
  processed_sha256 = x.processed_sha256;
  pages = end_pages r;
  attempts = c.attempts;
  started_at = some c.token;
  finished_at = now;
  error_code = end_code r;
}

abbrev pub ended : OcrEnd → DocumentRecord → DocumentRecord
ended r d = record d { ocr_status = end_status r }

record_end : ℕ → OcrClaim → OcrExecution → OcrEnd → Action Db Bool
record_end now c x r = do
  modify (λ db. record db { ocr_results = db.ocr_results ++ result_row now c x r ∷ [] })
  modify (λ db. record db { ocr_result_pages = db.ocr_result_pages ++ page_rows x.id r })
  modify (add_audit (system_event (end_action r) c.document_id c.case_id (end_value c r) now))
  pure true

unfoldable pub finish : ℕ → OcrClaim → OcrExecution → OcrEnd → Action Db Bool
unfolding record_end
finish now c x r = transaction do
  count ← gets (λ db. count_where (held c) db.documents)
  modify (λ db. record db { documents = update_where (held c) (ended r) db.documents })
  if not (count == 1) then pure false else record_end now c x r

-- `execution.pages` is the number of pages that the caller names.
unfoldable pub mark_completed : ℕ → OcrClaim → OcrExecution → ℕ → List (List ℕ) → Action Db Bool
unfolding finish
mark_completed now c x pages texts = do
  throw_if (not (length texts == pages)) (failure pages_mismatch)
  finish now c x (with_pages texts)

unfoldable pub mark_failed : ℕ → OcrClaim → OcrExecution → OcrErrorCode → Action Db Bool
unfolding finish
mark_failed now c x code = finish now c x (with_code code)
