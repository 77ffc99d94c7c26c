-- ===== src/Documents/Service/Access.antt =====
-- Access to a case and its documents, downloads, the text of the OCR and the requests of an
-- administrator: apps/api/src/modules/documents/documents.service.ts and documents.mapper.ts.
use Prim.Native.String.{String}
use legaltech_colombia.Prelude.{
  ℕ, ◌+◌, ◌*◌, Bool, ◌||◌, not, Option, none, some, List, map, if◌then◌else◌,
}
use legaltech_colombia.Common.{
  RequestContext, allowed, Error, http, forbidden, Action, pure, throw, throw_if, ◌>>=◌, ◌>>◌,
}
use legaltech_colombia.Database.{
  Db, CaseRecord, DocumentRecord, DocumentFileType, is_pdf, DocumentStatus, is_clean,
  is_scan_failed, DocumentOcrStatus, is_failed, StorageKey, AuditLogEntry,
  document_reprocess_requested, document_ocr_reprocess_requested, document_entity, reason_value,
  AuditAction,
}
use legaltech_colombia.Cases.Repository.{CaseWithHistory, find_own_case}
use legaltech_colombia.Cases.Service.{CurrentUser, not_found_error}
use legaltech_colombia.Documents.Policy.{
  DocumentAction, list, download, read_ocr, reprocess, reprocess_ocr, can,
}
use legaltech_colombia.Documents.Repository.{
  list_own_case_documents, find_own_document, find_own_document_ocr, DocumentOcrRead,
  find_document_for_administration, RequestReprocessInput, request_reprocess, request_ocr_reprocess,
}

pub record Document : Type 0 where
  pub id : ℕ
  pub file_name : String
  pub file_type : DocumentFileType
  pub file_size : ℕ
  pub status : DocumentStatus
  pub ocr_status : DocumentOcrStatus
  pub created_at : ℕ

abbrev pub to_public_document : DocumentRecord → Document
to_public_document d = record {
  id = d.id;
  file_name = d.file_name;
  file_type = d.file_type;
  file_size = d.file_size;
  status = d.status;
  ocr_status = d.ocr_status;
  created_at = d.created_at;
}

abbrev pub forbidden_error : Error
forbidden_error = http 403 forbidden none

unfoldable pub downloadable_key : DocumentRecord → Option StorageKey
downloadable_key d =
    if not (is_clean d.status)
    then none
    else if is_pdf d.file_type
    then some d.storage_key
    else d.sanitized_storage_key

abbrev check_owner : CurrentUser → DocumentAction → Option CaseWithHistory → Action Db CaseRecord
check_owner current action none = throw not_found_error
check_owner current action (some f) = do
  throw_if (not (allowed (can current.actor action f.found.user_id))) not_found_error
  pure f.found

unfoldable pub own_case : CurrentUser → ℕ → DocumentAction → Action Db CaseRecord
own_case current case_id action = do
  throw_if (not (allowed (can current.actor action current.user_id))) not_found_error
  found ← find_own_case case_id current.user_id
  check_owner current action found

unfoldable pub list_documents : CurrentUser → ℕ → Action Db (List Document)
unfolding own_case
list_documents current case_id = do
  _ ← own_case current case_id list
  documents ← list_own_case_documents case_id current.user_id
  pure (map to_public_document documents)

-- What a download URL is made of. The storage signs it: `createDownloadUrl` is left out.
pub record DownloadUrl : Type 0 where
  pub key : StorageKey
  pub file_name : String
  pub content_type : DocumentFileType
  pub expires_in_seconds : ℕ
  pub expires_at : ℕ

abbrev pub url_of : ℕ → ℕ → DocumentRecord → Option StorageKey → Action Db DownloadUrl
url_of now ttl d none = throw forbidden_error
url_of now ttl d (some key) = pure (record {
  key = key;
  file_name = d.file_name;
  content_type = d.file_type;
  expires_in_seconds = ttl;
  expires_at = now + ttl * 1000000;
})

abbrev pub serve : ℕ → ℕ → Option DocumentRecord → Action Db DownloadUrl
serve now ttl none = throw not_found_error
serve now ttl (some d) = url_of now ttl d (downloadable_key d)

unfoldable pub create_download_url : ℕ → ℕ → CurrentUser → ℕ → ℕ → Action Db DownloadUrl
unfolding own_case
create_download_url now ttl current case_id document_id = do
  _ ← own_case current case_id download
  document ← find_own_document document_id case_id current.user_id
  serve now ttl document

abbrev pub or_not_found : {A : Type 0} → Option A → Action Db A
or_not_found none = throw not_found_error
or_not_found (some a) = pure a

unfoldable pub read_document_ocr : CurrentUser → ℕ → ℕ → Action Db DocumentOcrRead
unfolding own_case
read_document_ocr current case_id document_id = do
  _ ← own_case current case_id read_ocr
  ocr ← find_own_document_ocr document_id case_id current.user_id
  or_not_found ocr

unfoldable pub assert_can_reprocess : CurrentUser → Action Db (Unit {0})
assert_can_reprocess current =
    throw_if (not (allowed (can current.actor reprocess current.user_id))) not_found_error

unfoldable pub assert_can_reprocess_ocr : CurrentUser → Action Db (Unit {0})
assert_can_reprocess_ocr current =
    throw_if (not (allowed (can current.actor reprocess_ocr current.user_id))) not_found_error

abbrev pub request_event :
    CurrentUser → RequestContext → AuditAction → String → DocumentRecord → AuditLogEntry
request_event current context action reason d = record {
  actor_user_id = some current.user_id;
  actor_role = some current.user_role;
  action = action;
  entity_type = document_entity;
  entity_id = d.id;
  case_id = some d.case_id;
  value = reason_value reason;
  request_id = some context.request_id;
  ip = context.ip;
  user_agent = context.user_agent;
}

abbrev pub request_input :
    CurrentUser → RequestContext → AuditAction → String → DocumentRecord → RequestReprocessInput
request_input current context action reason d = record {
  document_id = d.id;
  case_id = d.case_id;
  audit = request_event current context action reason d;
}

-- `DocumentsService.requestReprocess`
unfoldable pub ask_reprocess :
    ℕ → Bool → CurrentUser → ℕ → String → RequestContext → Action Db (Unit {0})
unfolding assert_can_reprocess
ask_reprocess now sent current document_id reason context = do
  assert_can_reprocess current
  document ← find_document_for_administration document_id
  d ← or_not_found document
  throw_if (not (is_scan_failed d.status)) forbidden_error
  request_reprocess now sent (request_input current context document_reprocess_requested reason d)

-- `DocumentsService.requestOcrReprocess`
unfoldable pub ask_ocr_reprocess :
    ℕ → Bool → CurrentUser → ℕ → String → RequestContext → Action Db (Unit {0})
unfolding assert_can_reprocess_ocr
ask_ocr_reprocess now sent current document_id reason context = do
  assert_can_reprocess_ocr current
  document ← find_document_for_administration document_id
  d ← or_not_found document
  throw_if (not (is_clean d.status) || not (is_failed d.ocr_status)) forbidden_error
  request_ocr_reprocess now sent
      (request_input current context document_ocr_reprocess_requested reason d)
