-- ===== src/Documents/Repository.antt =====
-- apps/api/src/modules/documents/documents.types.ts and documents.repository.ts, with the job queue of
-- apps/api/src/jobs/job-queue.ts. `now` is `clock_timestamp()`, and `sent` says whether pg-boss takes
-- the job. The advisory lock serialises a user's uploads, so a transaction is one step.
use Prim.Native.String.{String}
use legaltech_colombia.Prelude.{
  ℕ, ◌+◌, Bool, true, false, ◌&&◌, ◌||◌, not, Option, none, some, List, [], ◌∷◌, ◌++◌, ltb, ◌==◌,
  if◌then◌else◌, select_where, find_where, any,
}
use legaltech_colombia.Common.{
  Action, pure, gets, modify, transaction, throw_if, failure, database_error, job_not_enqueued,
  ◌>>=◌, ◌>>◌,
}
use legaltech_colombia.Database.{
  Db, CaseRecord, is_draft, DocumentRecord, DocumentFileType, StorageKey, pending_scan, not_started,
  DocumentOcrStatus, is_completed, completed, OcrOutcome, OcrResult, OcrResultPage, AuditLogEntry,
  audit_log_row, add_audit, add_job, Job, document_scan, document_reprocess, document_ocr_reprocess,
}

pub record CreateDocumentInput : Type 0 where
  pub id : ℕ
  pub case_id : ℕ
  pub user_id : ℕ
  pub file_name : String
  pub file_type : DocumentFileType
  pub storage_key : StorageKey
  pub file_size : ℕ
  pub quota_bytes : ℕ
  pub audit : DocumentRecord → AuditLogEntry

pub data CreateDocumentResult : Type 0 where
  created : DocumentRecord → CreateDocumentResult
  case_not_writable quota_exceeded : CreateDocumentResult

-- The columns that are not given have their defaults.
abbrev pub new_document : ℕ → CreateDocumentInput → DocumentRecord
new_document now input = record {
  id = input.id;
  case_id = input.case_id;
  file_name = input.file_name;
  file_type = input.file_type;
  storage_key = input.storage_key;
  file_size = input.file_size;
  uploaded_by_user_id = input.user_id;
  created_at = now;
  status = pending_scan;
  ocr_status = not_started;
  scan_attempts = 0;
  scan_started_at = none;
  scanned_at = none;
  scan_signature = none;
  sanitized_storage_key = none;
  ocr_attempts = 0;
  ocr_started_at = none;
}

abbrev pub is_writable : CreateDocumentInput → CaseRecord → Bool
is_writable input c = c.id == input.case_id && (c.user_id == input.user_id && is_draft c.status)

-- `JOIN cases c ON c.id = d.case_id WHERE c.user_id = …`
abbrev pub owns_case : ℕ → ℕ → CaseRecord → Bool
owns_case user_id case_id c = c.id == case_id && c.user_id == user_id

abbrev pub is_of_user : List CaseRecord → ℕ → DocumentRecord → Bool
is_of_user cases user_id d = any (owns_case user_id d.case_id) cases

-- `coalesce(sum(d.file_size), 0)`
abbrev pub sum_sizes : (DocumentRecord → Bool) → List DocumentRecord → ℕ
sum_sizes p [] = 0
sum_sizes p (d ∷ ds) = (if p d then d.file_size else 0) + sum_sizes p ds

abbrev pub used_in : Db → ℕ → ℕ
used_in db user_id = sum_sizes (is_of_user db.cases user_id) db.documents

unfoldable pub used_bytes : ℕ → Action Db ℕ
used_bytes user_id = gets (λ db. used_in db user_id)

enqueue : Bool → Job → Action Db (Unit {0})
enqueue sent job = do throw_if (not sent) (failure job_not_enqueued); modify (add_job job)

-- The primary key must be new; the storage key holds it, and is new with it.
insert_document : ℕ → Bool → CreateDocumentInput → Action Db CreateDocumentResult
unfolding enqueue
insert_document now sent input = do
  let row = new_document now input
  clash ← gets (λ db. any (λ d. d.id == input.id) db.documents)
  throw_if clash (failure database_error)
  modify (λ db. record db { documents = db.documents ++ row ∷ [] })
  modify (add_audit (audit_log_row (input.audit row) input.case_id now))
  enqueue sent (document_scan input.id)
  pure (created row)

within_quota : ℕ → Bool → CreateDocumentInput → Action Db CreateDocumentResult
unfolding insert_document
within_quota now sent input = do
  used ← gets (λ db. used_in db input.user_id)
  if ltb input.quota_bytes (used + input.file_size)
      then pure quota_exceeded
      else insert_document now sent input

unfoldable pub create_document : ℕ → Bool → CreateDocumentInput → Action Db CreateDocumentResult
unfolding within_quota
create_document now sent input = transaction do
  owned ← gets (λ db. any (is_writable input) db.cases)
  if not owned then pure case_not_writable else within_quota now sent input

-- `orderBy: [{ createdAt: "desc" }, { id: "desc" }]`
abbrev pub precedes : DocumentRecord → DocumentRecord → Bool
precedes a b = ltb b.created_at a.created_at || a.created_at == b.created_at && ltb b.id a.id

pub insert_sorted : DocumentRecord → List DocumentRecord → List DocumentRecord
insert_sorted d [] = d ∷ []
insert_sorted d (x ∷ xs) = if precedes d x then d ∷ x ∷ xs else x ∷ insert_sorted d xs

pub sort_documents : List DocumentRecord → List DocumentRecord
unfolding insert_sorted
sort_documents [] = []
sort_documents (x ∷ xs) = insert_sorted x (sort_documents xs)

abbrev pub is_in_own_case : List CaseRecord → ℕ → ℕ → DocumentRecord → Bool
is_in_own_case cases case_id user_id d = d.case_id == case_id && is_of_user cases user_id d

unfoldable pub list_own_case_documents : ℕ → ℕ → Action Db (List DocumentRecord)
list_own_case_documents case_id user_id =
    gets
      (λ db. sort_documents (select_where (is_in_own_case db.cases case_id user_id) db.documents))

abbrev pub is_own : List CaseRecord → ℕ → ℕ → ℕ → DocumentRecord → Bool
is_own cases id case_id user_id d = d.id == id && is_in_own_case cases case_id user_id d

unfoldable pub find_own_document : ℕ → ℕ → ℕ → Action Db (Option DocumentRecord)
find_own_document id case_id user_id =
    gets (λ db. find_where (is_own db.cases id case_id user_id) db.documents)

unfoldable pub find_document_for_administration : ℕ → Action Db (Option DocumentRecord)
find_document_for_administration id = gets (λ db. find_where (λ d. d.id == id) db.documents)

pub record DocumentOcrRead : Type 0 where
  pub ocr_status : DocumentOcrStatus
  pub pages : List (ℕ × List ℕ)

-- `ORDER BY r.finished_at DESC, r.id DESC LIMIT 1`
abbrev pub later_result : OcrResult → OcrResult → Bool
later_result a b =
    ltb b.finished_at a.finished_at || a.finished_at == b.finished_at && ltb b.id a.id

pub latest : Option OcrResult → List OcrResult → Option OcrResult
latest best [] = best
latest none (r ∷ rs) = latest (some r) rs
latest (some b) (r ∷ rs) = latest (some (if later_result r b then r else b)) rs

abbrev pub is_completed_outcome : OcrOutcome → Bool
is_completed_outcome OcrOutcome.completed = true
is_completed_outcome OcrOutcome.failed = false

abbrev pub is_completed_of : ℕ → OcrResult → Bool
is_completed_of id r = r.document_id == id && is_completed_outcome r.outcome

insert_page : OcrResultPage → List OcrResultPage → List OcrResultPage
insert_page p [] = p ∷ []
insert_page p (x ∷ xs) =
    if ltb p.page_number x.page_number then p ∷ x ∷ xs else x ∷ insert_page p xs

sort_pages : List OcrResultPage → List OcrResultPage
unfolding insert_page
sort_pages [] = []
sort_pages (x ∷ xs) = insert_page x (sort_pages xs)

abbrev page_texts : List OcrResultPage → List (ℕ × List ℕ)
page_texts [] = []
page_texts (p ∷ ps) = (p.page_number, p.text) ∷ page_texts ps

pub pages_of : Db → Option OcrResult → List (ℕ × List ℕ)
unfolding sort_pages
pages_of db none = []
pages_of db (some r) =
    page_texts (sort_pages (select_where (λ p. p.ocr_result_id == r.id) db.ocr_result_pages))

pub read_of : Db → Option DocumentRecord → Option DocumentOcrRead
unfolding latest pages_of
read_of db none = none
read_of db (some d) =
    if not (is_completed d.ocr_status)
    then some (record { ocr_status = d.ocr_status; pages = [] })
    else some (record {
      ocr_status = completed;
      pages = pages_of db (latest none (select_where (is_completed_of d.id) db.ocr_results));
    })

-- The two statements see one state; the second repeats the first one's conditions.
unfoldable pub find_own_document_ocr : ℕ → ℕ → ℕ → Action Db (Option DocumentOcrRead)
unfolding read_of
find_own_document_ocr id case_id user_id =
    gets (λ db. read_of db (find_where (is_own db.cases id case_id user_id) db.documents))

pub record RequestReprocessInput : Type 0 where
  pub document_id : ℕ
  pub case_id : ℕ
  pub audit : AuditLogEntry

unfoldable pub request_reprocess : ℕ → Bool → RequestReprocessInput → Action Db (Unit {0})
unfolding enqueue
request_reprocess now sent input = transaction do
  modify (add_audit (audit_log_row input.audit input.case_id now))
  enqueue sent (document_reprocess input.document_id)

unfoldable pub request_ocr_reprocess : ℕ → Bool → RequestReprocessInput → Action Db (Unit {0})
unfolding enqueue
request_ocr_reprocess now sent input = transaction do
  modify (add_audit (audit_log_row input.audit input.case_id now))
  enqueue sent (document_ocr_reprocess input.document_id)
