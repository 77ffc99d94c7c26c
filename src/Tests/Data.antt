-- ===== src/Tests/Data.antt =====
-- The rows, users and providers of the tests.
use legaltech_colombia.Prelude.{ℕ, none, some, [], ◌∷◌}
use legaltech_colombia.Common.{RequestContext, user, admin, active, ok}
use legaltech_colombia.Database.{
  Db, CaseRecord, draft, transport, DocumentRecord, pdf, png, document_key, pending_scan, clean,
  not_started, scan_failed,
}
use legaltech_colombia.World.{World, StorageProvider, clean_verdict, on_db}
use legaltech_colombia.Cases.Service.{CurrentUser}
use legaltech_colombia.Documents.Repository.{CreateDocumentInput}
use legaltech_colombia.Documents.Service.{upload_event}
use legaltech_colombia.Scan.Repository
use legaltech_colombia.Scan
use legaltech_colombia.Scan.Treatment.{ScanRepository, ScanDocumentDeps}

abbrev pub owner : CurrentUser
owner = record {
  user_id = 7;
  user_role = user;
  actor = record { id = 7; role = user; status = active };
}

abbrev pub administrator : CurrentUser
administrator = record {
  user_id = 3;
  user_role = admin;
  actor = record { id = 3; role = admin; status = active };
}

abbrev pub context : RequestContext
context = record { ip = none; user_agent = none; request_id = "r" }

abbrev pub case_1 : CaseRecord
case_1 = record {
  id = 1;
  user_id = 7;
  type = transport;
  status = draft;
  created_at = 5;
  updated_at = 5;
}

abbrev pub pending_document : DocumentRecord
pending_document = record {
  id = 11;
  case_id = 1;
  file_name = "a";
  file_type = pdf;
  storage_key = document_key 1 11;
  file_size = 3;
  uploaded_by_user_id = 7;
  created_at = 6;
  status = pending_scan;
  ocr_status = not_started;
  scan_attempts = 0;
  scan_started_at = none;
  scanned_at = none;
  scan_signature = none;
  sanitized_storage_key = none;
  ocr_attempts = 0;
  ocr_started_at = none;
}

abbrev pub with_document : DocumentRecord → Db
with_document d = record {
  cases = case_1 ∷ [];
  status_history = [];
  documents = d ∷ [];
  ocr_results = [];
  ocr_result_pages = [];
  audit_logs = [];
  jobs = [];
}

abbrev pub pending_db : Db
pending_db = with_document pending_document

abbrev pub clean_document : DocumentRecord
clean_document = record pending_document {
  status = clean;
  scan_attempts = 1;
  scan_started_at = some 8;
  scanned_at = some 9;
}

abbrev pub failed_document : DocumentRecord
failed_document = record pending_document {
  status = scan_failed;
  scan_attempts = 3;
  scan_started_at = some 8;
  scanned_at = some 9;
}

abbrev pub empty_db : Db
empty_db = record pending_db { documents = [] }

abbrev pub input : CreateDocumentInput
input = record {
  id = 12;
  case_id = 1;
  user_id = 7;
  file_name = "b";
  file_type = png;
  storage_key = document_key 1 12;
  file_size = 40;
  quota_bytes = 100;
  audit = upload_event owner context;
}

abbrev pub world : World
world = record { db = pending_db; objects = []; log = [] }

abbrev pub storage : StorageProvider
storage = record {
  put_object = λ key body w. (ok tt, record w { objects = (key, body) ∷ w.objects });
  get_object = λ key w. (ok (1 ∷ 2 ∷ 3 ∷ []), w);
  delete_object = λ key w. (ok tt, record w { objects = [] });
}

-- The statements of the worker, at one instant.
abbrev pub repository : ℕ → ScanRepository
repository now = record {
  claim = λ id lease. on_db (Scan.Repository.claim now id lease);
  mark_clean = λ c key. on_db (Scan.Repository.mark_clean now none c key);
  mark_infected = λ c signature. on_db (Scan.Repository.mark_infected now none c signature);
  mark_failed = λ c. on_db (Scan.Repository.mark_failed now none c);
  release = λ c. on_db (Scan.Repository.release c);
}

abbrev pub deps : ScanDocumentDeps
deps = record {
  repository = repository 20;
  storage = storage;
  scan = λ content w. (ok clean_verdict, w);
  max_attempts = 3;
  lease_seconds = 60;
}
