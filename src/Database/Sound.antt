-- ===== src/Database/Sound.antt =====
-- What every row of `documents` satisfies, whatever the treatment and the OCR have done to it.
use legaltech_colombia.Prelude.{
  ℕ, ◌≤◌, ◌≡◌, Bool, true, false, Option, none, some, is_some, if◌then◌else◌,
}
use legaltech_colombia.Database.Documents.{
  DocumentRecord, is_pdf, StorageKey, sanitized, DocumentStatus, uploaded, pending_scan, scanning,
  clean, infected, scan_failed, DocumentOcrStatus, not_started, pending, processing, completed,
  failed, not_applicable, excluded,
}

-- The copy that a CLEAN document has.
abbrev pub copy_of : DocumentRecord → Option StorageKey
copy_of d = if is_pdf d.file_type then none else some (sanitized d.storage_key)

-- The columns of the treatment, by status.
pub record Treatment (token ended signature : Bool) (copy : Option StorageKey) (d : DocumentRecord)
    : Type 0 where
  pub token_set : is_some d.scan_started_at ≡ token
  pub ended_set : is_some d.scanned_at ≡ ended
  pub signature_set : is_some d.scan_signature ≡ signature
  pub copy_set : d.sanitized_storage_key ≡ copy

abbrev pub Treated : DocumentStatus → DocumentRecord → Type 0
Treated uploaded d = Treatment false false false none d
Treated pending_scan d = Treatment false false false none d
Treated scanning d = Treatment true false false none d × (1 ≤ d.scan_attempts)
Treated clean d = Treatment true true false (copy_of d) d
Treated infected d = Treatment true true true none d
Treated scan_failed d = Treatment true true false none d

-- Only a CLEAN document is in the OCR; an INFECTED one can only be NOT_APPLICABLE.
abbrev pub OcrFits : DocumentStatus → DocumentOcrStatus → Option ℕ → Type 0
OcrFits s not_started t = t ≡ none
OcrFits s pending t = (s ≡ clean) × (t ≡ none)
OcrFits s processing t = (s ≡ clean) × (is_some t ≡ true)
OcrFits s completed t = s ≡ clean
OcrFits s failed t = s ≡ clean
OcrFits s excluded t = s ≡ clean
OcrFits s not_applicable t = s ≡ infected

pub record IsSound (d : DocumentRecord) : Type 0 where
  pub treated : Treated d.status d
  pub ocr_fits : OcrFits d.status d.ocr_status d.ocr_started_at
