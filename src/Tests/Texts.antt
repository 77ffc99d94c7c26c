-- ===== src/Tests/Texts.antt =====
-- Contents, texts and executions of the OCR at concrete inputs.
use legaltech_colombia.Prelude.{
  ◌<◌, ◌≡◌, ◌≢◌, ◌↔◌, ◌⊎◌, ◌≤◌, refl, Bool, none, some, true, [], ◌∷◌, ◌++◌,
}
use legaltech_colombia.Common.{ok}
use legaltech_colombia.Database.{transient, pdf, document_key, original, OcrErrorCode, permanent}
use legaltech_colombia.Sanitize.Bytes.{Bytes, stripped, exhausted}
use legaltech_colombia.Sanitize.Png.{
  is_removed_type, is_end_type, strip_chunks, strip_png_metadata, png_signature,
}
use legaltech_colombia.Sanitize.Png.Spec.{
  Described, strip_png_metadata_iff, strip_png_metadata_idempotent,
}
use legaltech_colombia.Sanitize.Jpeg.{strip_jpeg_metadata}
use legaltech_colombia.Sanitize.Jpeg.Totality.{strip_jpeg_metadata-total}
use legaltech_colombia.Ocr.Repository.{OcrClaim}
use legaltech_colombia.Ocr.Execution.{
  other_error, nothing_known, OcrDocumentDeps, OcrJobOutcome, OcrFailure, OcrRepository, threw,
  execute,
}
use legaltech_colombia.Ocr.Process.{ocr_document}
use legaltech_colombia.Ocr.Outcome.{failed_execution, logged}
use legaltech_colombia.Tests.Data.{storage, world}

-- A PNG with a text and its end.
abbrev image : Bytes
image =
    png_signature
    ++ (0 ∷ 0 ∷ 0 ∷ 1 ∷ 0x74 ∷ 0x45 ∷ 0x58 ∷ 0x74 ∷ 65 ∷ 9 ∷ 9 ∷ 9 ∷ 9 ∷ 0 ∷ 0 ∷ 0 ∷ 0 ∷ 0x49 ∷ 0x45
        ∷ 0x4e ∷ 0x44 ∷ 8 ∷ 8 ∷ 8 ∷ 8 ∷ 7 ∷ [])

abbrev bare_image : Bytes
bare_image = png_signature ++ (0 ∷ 0 ∷ 0 ∷ 0 ∷ 0x49 ∷ 0x45 ∷ 0x4e ∷ 0x44 ∷ 8 ∷ 8 ∷ 8 ∷ 8 ∷ [])

strips : strip_png_metadata image ≡ stripped bare_image
unfolding strip_png_metadata strip_chunks is_end_type is_removed_type
strips = refl

strip_png_metadata_iff_example :
    (strip_png_metadata image ≡ stripped bare_image) ↔ Described image bare_image
strip_png_metadata_iff_example = strip_png_metadata_iff image bare_image

strip_png_metadata_idempotent_example : strip_png_metadata bare_image ≡ stripped bare_image
strip_png_metadata_idempotent_example = strip_png_metadata_idempotent image bare_image strips

strip_jpeg_metadata-total_example : strip_jpeg_metadata (0xff ∷ 0xd8 ∷ 0xff ∷ []) ≢ exhausted
strip_jpeg_metadata-total_example = strip_jpeg_metadata-total (0xff ∷ 0xd8 ∷ 0xff ∷ [])

abbrev ocr_claim : OcrClaim
ocr_claim = record {
  document_id = 11;
  case_id = 1;
  file_type = pdf;
  storage_key = document_key 1 11;
  sanitized_storage_key = none;
  file_size = 4;
  attempts = 1;
  token = 5;
}

abbrev ocr_repository : OcrRepository
ocr_repository = record {
  claim = λ id lease w. (ok (some ocr_claim), w);
  mark_completed = λ c x n ts w. (ok true, w);
  mark_failed = λ c x code w. (ok true, w);
  release_for_retry = λ c delay w. (ok true, w);
  mark_excluded = λ c w. (ok true, w);
}

-- The storage answers three bytes where the claim has four.
abbrev ocr_deps : Bool → OcrDocumentDeps
ocr_deps allowed = record {
  repository = ocr_repository;
  storage = storage;
  provider = record { engine = "e"; recognize = λ i w. (other_error, w) };
  image_representation = original;
  pdf_allowed = allowed;
  max_attempts = 3;
  lease_seconds = 60;
  max_pages = 5;
  retry_delay_seconds = 30;
  new_id = 77;
  sha256 = λ b. 1;
  nfc = λ t. t;
}

abbrev mismatch : OcrFailure
mismatch = record { kind = permanent; code = OcrErrorCode.object_mismatch; http_status = none }

mismatches :
    execute (ocr_deps true) ocr_claim original world
    ≡ (record { result = threw mismatch; locals = nothing_known }, world)
unfolding execute
mismatches = refl

failed_execution_example :
    (((permanent ≡ permanent) ⊎ (3 ≤ 1))
      × (ocr_document (ocr_deps true) 11 world
          ≡ (ok OcrJobOutcome.failed, logged (ocr_deps true) ocr_claim mismatch world)))
    ⊎ ((permanent ≡ transient)
        × (1 < 3)
        × (30 ≤ 3600)
        × (ocr_document (ocr_deps true) 11 world
            ≡ (ok OcrJobOutcome.retry, logged (ocr_deps true) ocr_claim mismatch world)))
failed_execution_example =
    failed_execution (ocr_deps true) 11 ocr_claim mismatch nothing_known true true world world world
      (logged (ocr_deps true) ocr_claim mismatch world)
      (logged (ocr_deps true) ocr_claim mismatch world) refl refl mismatches refl refl
