-- ===== src/Tests/Uploads.antt =====
-- A whole upload at concrete inputs.
use legaltech_colombia.Prelude.{◌≡◌, refl, true, [], ◌∷◌}
use legaltech_colombia.Common.{ok}
use legaltech_colombia.Database.{pdf}
use legaltech_colombia.World.{World}
use legaltech_colombia.Cases
use legaltech_colombia.Documents
use legaltech_colombia.Documents.Service.{
  UploadSetting, UploadedFile, Document, to_public_document, upload_document, upload_input,
}
use legaltech_colombia.Documents.Uploads.{UploadRun, upload_outcome}
use legaltech_colombia.Tests.Data.{owner, context, storage, world}

abbrev setting : UploadSetting
setting = record { now = 90; id = 12; sent = true; limit = 1000 }

abbrev file : UploadedFile
file = record { file_name = "c"; content = 0x25 ∷ 0x50 ∷ 0x44 ∷ 0x46 ∷ 0x2d ∷ 1 ∷ [] }

abbrev document : Document
document =
    to_public_document
      (Documents.Repository.new_document 90 (upload_input setting owner 1 file pdf context))

abbrev after : World
after = (upload_document storage setting owner 1 file context world).1

uploads : upload_document storage setting owner 1 file context world ≡ (ok document, after)
unfolding upload_document Documents.Service.own_case Cases.Repository.find_own_case
    Documents.Policy.can Documents.FileType.detect_file_type Documents.Repository.used_bytes
    Documents.Repository.create_document
uploads = refl

upload_outcome_example : UploadRun storage setting owner 1 file context world after document
upload_outcome_example =
    upload_outcome storage setting owner 1 file context world after document uploads
