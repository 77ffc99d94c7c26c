-- ===== src/Tests/Rows.antt =====
-- Databases that are reached, and the activation of the OCR, at concrete inputs.
use mathlib.Core.List.{Memᴰ}
use legaltech_colombia.Prelude.{false, arith, ◌≡◌, refl, none, some, true, [], All}
use legaltech_colombia.Common.{ok}
use legaltech_colombia.Database.{
  original, OcrErrorCode, pending, document_key, DocumentRecord, sanitized, Db,
}
use legaltech_colombia.Scan
use legaltech_colombia.Scan.Repository.{claim_of, found_clean, claim}
use legaltech_colombia.Documents
use legaltech_colombia.Ocr
use legaltech_colombia.Ocr.Repository.{
  OcrClaim, OcrExecution, with_code, release_for_retry, mark_excluded,
}
use legaltech_colombia.Ocr.Fencing.{stale_ocr_claim_loses}
use legaltech_colombia.Scan.Fencing.{HasDistinctIds}
use legaltech_colombia.Ocr.Activation.{activate_ocr, count_violations}
use legaltech_colombia.Ocr.Activated.{activation_settles}
use legaltech_colombia.Lifecycle.Reach.{
  System, Step, start, next, Reachable, IsSoundSystem, Reachable-IsSoundSystem, IsServedSafely,
  Reachable-downloads, after_claim, writes,
}
use legaltech_colombia.Tests.Data.{empty_db, input, clean_document, with_document}

abbrev first : System
first = record { db = empty_db; claims = [] }

abbrev uploaded_system : System
uploaded_system = writes first (Documents.Repository.create_document 6 true input)

abbrev claimed_system : System
claimed_system = after_claim uploaded_system (claim 20 12 60 uploaded_system.db)

abbrev new_row : DocumentRecord
new_row = Documents.Repository.new_document 6 input

-- The image is uploaded, claimed and found clean.
abbrev clean_system : System
clean_system = writes claimed_system (
    Scan.Repository.finish 30 none (claim_of 20 new_row)
      (found_clean (some (sanitized (document_key 1 12)))))

reached : Reachable clean_system
unfolding Documents.Repository.create_document claim
reached =
    next
      (next (next (start {s = first} (refl, refl)) (Step.create_document 6 true input))
        (Step.scan_claim 20 12 60))
      (Step.scan_finish 30 none (claim_of 20 new_row)
        (found_clean (some (sanitized (document_key 1 12)))) (Memᴰ.head refl) refl)

Reachable-IsSoundSystem_example : IsSoundSystem clean_system
Reachable-IsSoundSystem_example = Reachable-IsSoundSystem reached

Reachable-downloads_example : All IsServedSafely clean_system.db.documents
Reachable-downloads_example = Reachable-downloads reached

abbrev old_db : Db
old_db = with_document clean_document

activation_settles_example :
    ((activate_ocr old_db).0 ≡ ok (record { excluded_count = 1; not_applicable_count = 0 }))
    × ((count_violations (activate_ocr old_db).1).0 ≡ ok 0)
    × (activate_ocr (activate_ocr old_db).1
        ≡ (ok (record { excluded_count = 0; not_applicable_count = 0 }), (activate_ocr old_db).1))
activation_settles_example = activation_settles old_db

abbrev ocr_db : Db
ocr_db = with_document (record clean_document { ocr_status = pending })

abbrev first_claim : OcrClaim
first_claim = Ocr.Repository.claim_of 50 (record clean_document { ocr_status = pending })

abbrev ocr_claimed_db : Db
ocr_claimed_db = (Ocr.Repository.claim 50 11 60 ocr_db).1

ocr_claims : Ocr.Repository.claim 50 11 60 ocr_db ≡ (ok (some first_claim), ocr_claimed_db)
unfolding Ocr.Repository.claim
ocr_claims = refl

abbrev ocr_taken_db : Db
ocr_taken_db = (Ocr.Repository.claim 70000000 11 60 ocr_claimed_db).1

abbrev next_claim : OcrClaim
next_claim = record first_claim { attempts = 2; token = 70000000 }

ocr_takes_over :
    Ocr.Repository.claim 70000000 11 60 ocr_claimed_db ≡ (ok (some next_claim), ocr_taken_db)
unfolding Ocr.Repository.claim
ocr_takes_over = refl

ocr_claimed_distinct : HasDistinctIds ocr_claimed_db
unfolding Ocr.Repository.claim
ocr_claimed_distinct = (tt, tt)

abbrev execution : OcrExecution
execution = record {
  id = 5;
  engine = "e";
  engine_version = none;
  representation = original;
  processed_sha256 = none;
}

stale_ocr_claim_loses_example :
    (Ocr.Repository.finish 80000000 first_claim execution
        (with_code OcrErrorCode.timeout)
        ocr_taken_db
      ≡ (ok false, ocr_taken_db))
    × (release_for_retry true first_claim 30 ocr_taken_db ≡ (ok false, ocr_taken_db))
    × (mark_excluded first_claim ocr_taken_db ≡ (ok false, ocr_taken_db))
stale_ocr_claim_loses_example =
    stale_ocr_claim_loses first_claim next_claim 70000000 60 80000000 30 true execution
      (with_code OcrErrorCode.timeout) ocr_claimed_db ocr_taken_db ocr_claimed_distinct
      ocr_takes_over (omega arith)
