-- ===== src/Database/Documents.antt =====
-- packages/contracts/src/documents.ts and apps/api/src/modules/documents/documents.types.ts, with
-- the OCR columns of packages/database/prisma/schema.prisma.
use Prim.Native.String.{String}
use legaltech_colombia.Prelude.{ℕ, Option, List, Bool, true, false}

pub data DocumentFileType : Type 0 where
  pdf jpeg png : DocumentFileType

abbrev pub is_pdf : DocumentFileType → Bool
is_pdf pdf = true
is_pdf jpeg = false
is_pdf png = false

pub data DocumentStatus : Type 0 where
  uploaded pending_scan scanning clean infected scan_failed : DocumentStatus

pub data DocumentOcrStatus : Type 0 where
  not_started pending processing completed failed not_applicable excluded : DocumentOcrStatus

-- `cases/${caseId}/documents/${id}`, and the same with `.sanitized` behind it. The two templates
-- are injective, as ids hold no slash and no dot.
pub data StorageKey : Type 0 where
  document_key : ℕ → ℕ → StorageKey
  sanitized : StorageKey → StorageKey

-- `DocumentRecord`. `scan_started_at` and `ocr_started_at` are the tokens of the claims.
pub record DocumentRecord : Type 0 where
  pub id : ℕ
  pub case_id : ℕ
  pub file_name : String
  pub file_type : DocumentFileType
  pub storage_key : StorageKey
  pub file_size : ℕ
  pub uploaded_by_user_id : ℕ
  pub created_at : ℕ
  pub status : DocumentStatus
  pub ocr_status : DocumentOcrStatus
  pub scan_attempts : ℕ
  pub scan_started_at : Option ℕ
  pub scanned_at : Option ℕ
  pub scan_signature : Option String
  pub sanitized_storage_key : Option StorageKey
  pub ocr_attempts : ℕ
  pub ocr_started_at : Option ℕ

abbrev pub is_uploaded : DocumentStatus → Bool
is_uploaded uploaded = true
is_uploaded _ = false

abbrev pub is_pending_scan : DocumentStatus → Bool
is_pending_scan pending_scan = true
is_pending_scan _ = false

abbrev pub is_scanning : DocumentStatus → Bool
is_scanning scanning = true
is_scanning _ = false

abbrev pub is_clean : DocumentStatus → Bool
is_clean clean = true
is_clean _ = false

abbrev pub is_infected : DocumentStatus → Bool
is_infected infected = true
is_infected _ = false

abbrev pub is_scan_failed : DocumentStatus → Bool
is_scan_failed scan_failed = true
is_scan_failed _ = false

abbrev pub is_not_started : DocumentOcrStatus → Bool
is_not_started not_started = true
is_not_started _ = false

abbrev pub is_pending : DocumentOcrStatus → Bool
is_pending pending = true
is_pending _ = false

abbrev pub is_processing : DocumentOcrStatus → Bool
is_processing processing = true
is_processing _ = false

abbrev pub is_completed : DocumentOcrStatus → Bool
is_completed completed = true
is_completed _ = false

abbrev pub is_failed : DocumentOcrStatus → Bool
is_failed failed = true
is_failed _ = false

-- apps/worker/src/ocr/ocr.types.ts and ocr-provider.ts
pub data OcrRepresentation : Type 0 where
  original sanitized_copy : OcrRepresentation

pub data OcrErrorKind : Type 0 where
  transient permanent : OcrErrorKind

pub data OcrErrorCode : Type 0 where
  timeout rate_limited provider_unavailable provider_error : OcrErrorCode
  unsupported_document too_many_pages invalid_response object_missing : OcrErrorCode
  object_mismatch storage_unavailable text_store_unavailable abandoned : OcrErrorCode

pub data OcrOutcome : Type 0 where
  completed failed : OcrOutcome

-- A row of `ocr_results`.
pub record OcrResult : Type 0 where
  pub id : ℕ
  pub document_id : ℕ
  pub outcome : OcrOutcome
  pub engine : String
  pub engine_version : Option String
  pub representation : Option OcrRepresentation
  pub processed_sha256 : Option ℕ
  pub pages : Option ℕ
  pub attempts : ℕ
  pub started_at : Option ℕ
  pub finished_at : ℕ
  pub error_code : Option OcrErrorCode

-- A row of `ocr_result_pages`: a text is the list of its code units.
pub record OcrResultPage : Type 0 where
  pub ocr_result_id : ℕ
  pub page_number : ℕ
  pub text : List ℕ
