-- ===== src/Ocr/Invariant.antt =====
-- Each statement of the OCR keeps every row of `documents` sound.
use legaltech_colombia.Prelude.{ℕ, ◌≡◌, true, arith}
use legaltech_colombia.Database.{DocumentRecord}
use legaltech_colombia.Database.Sound.{IsSound}
use legaltech_colombia.Ocr.Repository.{
  OcrClaim, claimable, claimed, held, set_excluded, released, OcrEnd, ended,
}
use legaltech_colombia.Ocr.Recovery.{reprocessable, renewed}
use legaltech_colombia.Ocr.Activation.{old_clean, old_infected, set_not_applicable}
use legaltech_colombia.Ocr.Activation

pub claimed-IsSound :
    (now lease id : ℕ) (d : DocumentRecord)
    → IsSound d
    → claimable now lease id d ≡ true
    → IsSound (claimed now d)
claimed-IsSound now lease id d s h = ground arith

pub excluded-IsSound :
    (c : OcrClaim) (d : DocumentRecord) → IsSound d → held c d ≡ true → IsSound (set_excluded d)
excluded-IsSound c d s h = ground arith

pub released-IsSound :
    (c : OcrClaim) (d : DocumentRecord) → IsSound d → held c d ≡ true → IsSound (released d)
released-IsSound c d s h = ground arith

pub ended-IsSound :
    (c : OcrClaim) (r : OcrEnd) (d : DocumentRecord)
    → IsSound d
    → held c d ≡ true
    → IsSound (ended r d)
ended-IsSound c r d s h = ground arith

pub renewed-IsSound :
    (id : ℕ) (d : DocumentRecord) → IsSound d → reprocessable id d ≡ true → IsSound (renewed d)
renewed-IsSound id d s h = ground arith

pub old_clean-IsSound :
    (d : DocumentRecord) → IsSound d → old_clean d ≡ true → IsSound (Activation.set_excluded d)
old_clean-IsSound d s h = ground arith

pub old_infected-IsSound :
    (d : DocumentRecord) → IsSound d → old_infected d ≡ true → IsSound (set_not_applicable d)
old_infected-IsSound d s h = ground arith
