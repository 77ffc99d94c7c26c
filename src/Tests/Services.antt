-- ===== src/Tests/Services.antt =====
-- Calls of the services at concrete inputs.
use legaltech_colombia.Cases.Repository.{new_case}
use legaltech_colombia.Cases.Policy.{case_create}
use legaltech_colombia.Prelude.{
  List, arith, ℕ, ◌≡◌, ◌⊎◌, ◌≤◌, refl, none, some, false, true, [], ◌∷◌, find_where,
}
use legaltech_colombia.Common.{job_not_enqueued, failure, Error, ok, err, Result}
use legaltech_colombia.Database.{pdf, Db, DocumentRecord, transport, draft, clean, document_key}
use legaltech_colombia.World.{World}
use legaltech_colombia.Cases.Policy
use legaltech_colombia.Cases
use legaltech_colombia.Cases.Service.{to_public_case, Case, create, read_own}
use legaltech_colombia.Cases.Creation.{create-read_own, opened, input_of}
use legaltech_colombia.Documents
use legaltech_colombia.Documents.Policy.{can}
use legaltech_colombia.Documents.Repository.{
  CreateDocumentResult, create_document, created, used_in, new_document, is_own, DocumentOcrRead,
}
use legaltech_colombia.Documents.Service.{
  DownloadUrl, create_download_url, read_document_ocr, ask_reprocess, ask_ocr_reprocess,
  UploadSetting, UploadedFile, store_and_create,
}
use legaltech_colombia.Documents.Quota.{Creation, create_document_atomic, quota_kept, inserted}
use legaltech_colombia.Documents.Access.{ServedFrom, Owns, download_guarded}
use legaltech_colombia.Documents.Uploads.{Removed, creation, no_silent_orphan}
use legaltech_colombia.Tests.Data.{
  owner, context, pending_db, input, clean_document, failed_document, with_document, storage, world,
}

create_document_atomic_example : Creation 6 true input pending_db
create_document_atomic_example = create_document_atomic 6 true input pending_db

creates :
    create_document 6 true input pending_db
    ≡ (ok (created (new_document 6 input)), inserted 6 input pending_db)
unfolding create_document
creates = refl

quota_kept_example : used_in (create_document 6 true input pending_db).1 7 ≤ 100
quota_kept_example = quota_kept 6 true input pending_db 7 (tt, tt) (omega arith)

abbrev no_pages : List (ℕ × List ℕ)
no_pages = []

abbrev clean_db : Db
clean_db = with_document clean_document

abbrev url : DownloadUrl
url = record {
  key = document_key 1 11;
  file_name = "a";
  content_type = clean_document.file_type;
  expires_in_seconds = 60;
  expires_at = 60000050;
}

downloads : create_download_url 50 60 owner 1 11 clean_db ≡ (ok url, clean_db)
unfolding create_download_url Documents.Repository.find_own_document Cases.Repository.find_own_case
    can Documents.Service.downloadable_key
downloads = refl

download_guarded_example :
    Owns owner 1 clean_db
    × (clean_db ≡ clean_db)
    × ((d : DocumentRecord) × (find_where (is_own clean_db.cases 11 1 7) clean_db.documents
          ≡ some d)
        × (d.status ≡ clean)
        × ServedFrom d (document_key 1 11))
download_guarded_example = download_guarded clean_db owner 1 50 60 11 url clean_db downloads

reads :
    read_document_ocr owner 1 11 clean_db
    ≡ (ok (record { ocr_status = clean_document.ocr_status; pages = no_pages }), clean_db)
unfolding read_document_ocr Documents.Repository.find_own_document_ocr
    Cases.Repository.find_own_case can
reads = refl

abbrev failed_db : Db
failed_db = with_document failed_document

abbrev not_created : Result CreateDocumentResult
not_created = err (failure job_not_enqueued)

abbrev setting : UploadSetting
setting = record { now = 90; id = 12; sent = false; limit = 1000 }

abbrev file : UploadedFile
file = record { file_name = "b"; content = 1 ∷ 2 ∷ [] }

abbrev stored_world : World
stored_world = record world { objects = (document_key 1 12, 1 ∷ 2 ∷ []) ∷ [] }

-- The queue takes no job.
fails_to_create :
    creation storage setting owner 1 file context pdf stored_world
    ≡ (err (failure job_not_enqueued), stored_world)
unfolding create_document
fails_to_create = refl

no_silent_orphan_example :
    ((d : DocumentRecord) × (not_created ≡ ok (created d)))
    ⊎ ((q : Error × World) × (store_and_create storage setting owner 1 file context pdf world
          ≡ (err q.0, q.1))
        × Removed storage (document_key 1 12) stored_world q.1)
no_silent_orphan_example =
    no_silent_orphan storage setting owner 1 file context pdf world stored_world stored_world
      not_created refl fails_to_create

abbrev second_case : Case
second_case = to_public_case (new_case 95 2 (input_of owner transport context))

opens :
    create 95 2 owner transport context pending_db
    ≡ (ok second_case, opened 95 2 owner transport context pending_db)
unfolding create Cases.Repository.create_case Cases.Policy.can
opens = refl

create-read_own_example : read_own owner 2 (opened 95 2 owner transport context pending_db) ≡ (
  ok (record {
    detail = second_case;
    status_history = record { from_status = none; to_status = draft; changed_at = 95 } ∷ [];
  }),
  opened 95 2 owner transport context pending_db,
)
create-read_own_example =
    create-read_own 95 2 owner transport context pending_db second_case
      (opened 95 2 owner transport context pending_db) refl opens
