-- ===== src/Scan/Repository.antt =====
-- apps/worker/src/scan/scan.types.ts and scan.repository.ts: the statements by which the worker
-- claims a document and records the result of its treatment. `now` is `clock_timestamp()`.
use Prim.Native.String.{String}
use legaltech_colombia.Prelude.{
  ℕ, suc, ◌+◌, ◌*◌, Bool, true, false, ◌&&◌, ◌||◌, not, Option, none, some, ltb, ◌==◌,
  if◌then◌else◌, find_where, count_where, update_where,
}
use legaltech_colombia.Common.{
  Action, pure, gets, modify, transaction, throw_if, failure, job_not_enqueued, ◌>>=◌, ◌>>◌,
}
use legaltech_colombia.Database.{
  Db, DocumentRecord, DocumentFileType, is_pdf, DocumentStatus, pending_scan, scanning, clean,
  infected, scan_failed, is_pending_scan, is_scanning, DocumentOcrStatus, pending, not_applicable,
  excluded, StorageKey, AuditAction, document_scan_clean, document_scan_infected,
  document_scan_failed, AuditValue, scan_value, signature_value, attempts_value, system_event,
  add_audit, add_job, document_ocr,
}

pub record ScanClaim : Type 0 where
  pub document_id : ℕ
  pub case_id : ℕ
  pub file_type : DocumentFileType
  pub storage_key : StorageKey
  pub file_size : ℕ
  pub attempts : ℕ
  pub token : ℕ

-- Whether a PDF enters the OCR, and whether pg-boss takes the job: `send` answers null otherwise.
pub record ScanOcrActivation : Type 0 where
  pub pdf_enabled : Bool
  pub sent : Bool

-- `started_at < clock_timestamp() - make_interval(secs => lease)`, false when it is NULL
abbrev pub older_than : ℕ → ℕ → Option ℕ → Bool
older_than now lease none = false
older_than now lease (some t) = ltb (t + lease * 1000000) now

-- `started_at = token`, false when it is NULL
abbrev pub same_instant : ℕ → Option ℕ → Bool
same_instant token none = false
same_instant token (some t) = t == token

abbrev pub claimable : ℕ → ℕ → ℕ → DocumentRecord → Bool
claimable now lease id d =
    d.id == id
    && (is_pending_scan d.status || is_scanning d.status && older_than now lease d.scan_started_at)

abbrev pub claimed : ℕ → DocumentRecord → DocumentRecord
claimed now d = record d {
  status = scanning;
  scan_attempts = suc d.scan_attempts;
  scan_started_at = some now;
}

abbrev pub claim_of : ℕ → DocumentRecord → ScanClaim
claim_of now d = record {
  document_id = d.id;
  case_id = d.case_id;
  file_type = d.file_type;
  storage_key = d.storage_key;
  file_size = d.file_size;
  attempts = suc d.scan_attempts;
  token = now;
}

abbrev claim_row : ℕ → Option DocumentRecord → Option ScanClaim
claim_row now none = none
claim_row now (some d) = some (claim_of now d)

unfoldable pub claim : ℕ → ℕ → ℕ → Action Db (Option ScanClaim)
claim now id lease = do
  row ← gets (λ db. find_where (claimable now lease id) db.documents)
  modify (λ db. record db {
    documents = update_where (claimable now lease id) (claimed now) db.documents;
  })
  pure (claim_row now row)

-- The row that the claim holds.
abbrev pub held : ScanClaim → DocumentRecord → Bool
held c d = d.id == c.document_id && (is_scanning d.status && same_instant c.token d.scan_started_at)

abbrev pub released : DocumentRecord → DocumentRecord
released d = record d { status = pending_scan; scan_started_at = none }

unfoldable pub release : ScanClaim → Action Db Bool
release c = do
  count ← gets (λ db. count_where (held c) db.documents)
  modify (λ db. record db { documents = update_where (held c) released db.documents })
  pure (count == 1)

-- The final results, as `finish` is called with them.
pub data ScanResult : Type 0 where
  found_clean : Option StorageKey → ScanResult
  found_infected : String → ScanResult
  gave_up : ScanResult

abbrev pub final_status : ScanResult → DocumentStatus
final_status (found_clean _) = clean
final_status (found_infected _) = infected
final_status gave_up = scan_failed

abbrev pub final_copy : ScanResult → Option StorageKey
final_copy (found_clean key) = key
final_copy (found_infected _) = none
final_copy gave_up = none

abbrev pub final_signature : ScanResult → Option String
final_signature (found_clean _) = none
final_signature (found_infected signature) = some signature
final_signature gave_up = none

abbrev pub final_action : ScanResult → AuditAction
final_action (found_clean _) = document_scan_clean
final_action (found_infected _) = document_scan_infected
final_action gave_up = document_scan_failed

abbrev pub final_value : ScanClaim → ScanResult → AuditValue
final_value c (found_clean _) = scan_value clean
final_value c (found_infected signature) = signature_value infected signature
final_value c gave_up = attempts_value scan_failed c.attempts

-- `ocrStatusFor`
abbrev pub ocr_status_for :
    Option ScanOcrActivation → ScanClaim → ScanResult → Option DocumentOcrStatus
ocr_status_for none c r = none
ocr_status_for (some ocr) c (found_infected _) = some not_applicable
ocr_status_for (some ocr) c gave_up = none
ocr_status_for (some ocr) c (found_clean _) =
    some (if is_pdf c.file_type && not ocr.pdf_enabled then excluded else pending)

abbrev ocr_or : Option DocumentOcrStatus → DocumentOcrStatus → DocumentOcrStatus
ocr_or none s = s
ocr_or (some s') s = s'

abbrev pub finished : ℕ → ScanResult → Option DocumentOcrStatus → DocumentRecord → DocumentRecord
finished now r ocr d = record d {
  status = final_status r;
  scanned_at = some now;
  scan_signature = final_signature r;
  sanitized_storage_key = final_copy r;
  ocr_status = ocr_or ocr d.ocr_status;
}

-- `if (ocrStatus === "PENDING") await this.ocr!.enqueue(tx, …)`
abbrev enqueue_ocr : Option ScanOcrActivation → Option DocumentOcrStatus → ℕ → Action Db (Unit {0})
enqueue_ocr (some ocr) (some pending) id = do
  throw_if (not ocr.sent) (failure job_not_enqueued)
  modify (add_job (document_ocr id 0))
enqueue_ocr _ _ id = pure tt

record_result : ℕ → Option ScanOcrActivation → ScanClaim → ScanResult → Action Db Bool
record_result now ocr c r = do
  enqueue_ocr ocr (ocr_status_for ocr c r) c.document_id
  modify (add_audit (system_event (final_action r) c.document_id c.case_id (final_value c r) now))
  pure true

unfoldable pub finish : ℕ → Option ScanOcrActivation → ScanClaim → ScanResult → Action Db Bool
unfolding record_result
finish now ocr c r = transaction do
  count ← gets (λ db. count_where (held c) db.documents)
  modify (λ db. record db {
    documents = update_where (held c) (finished now r (ocr_status_for ocr c r)) db.documents;
  })
  if not (count == 1) then pure false else record_result now ocr c r

unfoldable pub mark_clean :
    ℕ → Option ScanOcrActivation → ScanClaim → Option StorageKey → Action Db Bool
unfolding finish
mark_clean now ocr c key = finish now ocr c (found_clean key)

unfoldable pub mark_infected : ℕ → Option ScanOcrActivation → ScanClaim → String → Action Db Bool
unfolding finish
mark_infected now ocr c signature = finish now ocr c (found_infected signature)

unfoldable pub mark_failed : ℕ → Option ScanOcrActivation → ScanClaim → Action Db Bool
unfolding finish
mark_failed now ocr c = finish now ocr c gave_up
