-- ===== src/Documents/Service/Upload.antt =====
-- `uploadDocument` of apps/api/src/modules/documents/documents.service.ts.
use Prim.Native.String.{String}
use legaltech_colombia.Prelude.{ℕ, ◌+◌, ◌*◌, Bool, not, Option, none, some, ltb, ◌==◌, length}
use legaltech_colombia.Common.{
  RequestContext, Error, http, validation_error, payload_too_large, service_unavailable, Action,
  pure, throw, throw_if, try_catch, modify, ◌>>=◌, ◌>>◌,
}
use legaltech_colombia.Database.{
  is_draft, DocumentRecord, DocumentFileType, StorageKey, document_key, AuditLogEntry,
  document_uploaded, document_entity, document_value,
}
use legaltech_colombia.Sanitize.Bytes.{Bytes}
use legaltech_colombia.World.{World, StorageProvider, on_db, add_log, orphan_object, not_stored}
use legaltech_colombia.Cases.Service.{CurrentUser, not_found_error}
use legaltech_colombia.Documents.FileType.{detect_file_type}
use legaltech_colombia.Documents.Policy.{upload}
use legaltech_colombia.Documents.Repository.{
  CreateDocumentInput, CreateDocumentResult, created, case_not_writable, quota_exceeded, used_bytes,
  create_document,
}
use legaltech_colombia.Documents.Service.Access.{
  Document, to_public_document, forbidden_error, own_case,
}

abbrev pub document_max_bytes : ℕ
document_max_bytes = 10 * (1024 * 1024)

abbrev pub document_quota_bytes : ℕ
document_quota_bytes = 100 * (1024 * 1024)

-- The instants, the id, whether pg-boss takes the job, and the upload limit of the service.
pub record UploadSetting : Type 0 where
  pub now : ℕ
  pub id : ℕ
  pub sent : Bool
  pub limit : ℕ

pub record UploadedFile : Type 0 where
  pub file_name : String
  pub content : Bytes

abbrev pub quota_error : Error
quota_error = forbidden_error

abbrev pub storage_error_503 : Error
storage_error_503 = http 503 service_unavailable none

abbrev pub upload_event : CurrentUser → RequestContext → DocumentRecord → AuditLogEntry
upload_event current context d = record {
  actor_user_id = some current.user_id;
  actor_role = some current.user_role;
  action = document_uploaded;
  entity_type = document_entity;
  entity_id = d.id;
  case_id = none;
  value = document_value d.file_type d.file_size d.status;
  request_id = some context.request_id;
  ip = context.ip;
  user_agent = context.user_agent;
}

-- The object of an upload whose row was not written is removed, or logged.
unfoldable pub remove_orphan : StorageProvider → StorageKey → Action World (Unit {0})
remove_orphan storage key =
    try_catch (storage.delete_object key) (λ e. modify (add_log (orphan_object key)))

unfoldable pub after_failed_put : StorageProvider → StorageKey → Action World (Unit {0})
unfolding remove_orphan
after_failed_put storage key = do
  modify (add_log (not_stored key))
  remove_orphan storage key
  throw storage_error_503

unfoldable pub after_failed_create :
    StorageProvider → StorageKey → Error → Action World CreateDocumentResult
unfolding remove_orphan
after_failed_create storage key e = do remove_orphan storage key; throw e

unfoldable pub answer : StorageProvider → StorageKey → CreateDocumentResult → Action World Document
unfolding remove_orphan
answer storage key (created d) = pure (to_public_document d)
answer storage key case_not_writable = do remove_orphan storage key; throw not_found_error
answer storage key quota_exceeded = do remove_orphan storage key; throw quota_error

abbrev pub upload_input :
    UploadSetting
    → CurrentUser
    → ℕ
    → UploadedFile
    → DocumentFileType
    → RequestContext
    → CreateDocumentInput
upload_input s current case_id file type context = record {
  id = s.id;
  case_id = case_id;
  user_id = current.user_id;
  file_name = file.file_name;
  file_type = type;
  storage_key = document_key case_id s.id;
  file_size = length file.content;
  quota_bytes = document_quota_bytes;
  audit = upload_event current context;
}

-- From the write to storage on.
unfoldable pub store_and_create :
    StorageProvider
    → UploadSetting
    → CurrentUser
    → ℕ
    → UploadedFile
    → RequestContext
    → DocumentFileType
    → Action World Document
unfolding after_failed_put after_failed_create answer
store_and_create storage s current case_id file context type = do
  try_catch (storage.put_object (document_key case_id s.id) file.content)
      (λ e. after_failed_put storage (document_key case_id s.id))
  result ←
      try_catch
        (on_db (create_document s.now s.sent (upload_input s current case_id file type context)))
        (after_failed_create storage (document_key case_id s.id))
  answer storage (document_key case_id s.id) result

-- `if (!fileType) throw …`
abbrev pub or_unsupported : Option DocumentFileType → Action World DocumentFileType
or_unsupported none = throw (http 400 validation_error none)
or_unsupported (some type) = pure type

unfoldable pub upload_document :
    StorageProvider
    → UploadSetting
    → CurrentUser
    → ℕ
    → UploadedFile
    → RequestContext
    → Action World Document
unfolding store_and_create
upload_document storage s current case_id file context = do
  owned ← on_db (own_case current case_id upload)
  throw_if (not (is_draft owned.status)) forbidden_error
  throw_if (length file.content == 0) (http 400 validation_error none)
  throw_if (ltb s.limit (length file.content)) (http 413 payload_too_large none)
  type ← or_unsupported (detect_file_type file.content)
  used ← on_db (used_bytes current.user_id)
  throw_if (ltb document_quota_bytes (used + length file.content)) quota_error
  store_and_create storage s current case_id file context type
