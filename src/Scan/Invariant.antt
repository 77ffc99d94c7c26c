-- ===== src/Scan/Invariant.antt =====
-- Each statement of the treatment keeps every row of `documents` sound.
use legaltech_colombia.Prelude.{ℕ, ◌≡◌, true, Option, arith}
use legaltech_colombia.Database.{DocumentRecord}
use legaltech_colombia.Database.Sound.{IsSound, copy_of}
use legaltech_colombia.Scan.Repository.{
  ScanClaim, claimable, claimed, held, released, ScanResult, found_clean, ScanOcrActivation,
  ocr_status_for, finished,
}
use legaltech_colombia.Scan.Recovery.{
  SweepOptions, exhausted, given_up, recoverable, requeued, reprocessable, renewed,
}

pub claimed-IsSound :
    (now lease id : ℕ) (d : DocumentRecord)
    → IsSound d
    → claimable now lease id d ≡ true
    → IsSound (claimed now d)
claimed-IsSound now lease id d s h = ground arith

pub released-IsSound :
    (c : ScanClaim) (d : DocumentRecord) → IsSound d → held c d ≡ true → IsSound (released d)
released-IsSound c d s h = ground arith

pub given_up-IsSound :
    (now : ℕ) (o : SweepOptions) (d : DocumentRecord)
    → IsSound d
    → exhausted now o d ≡ true
    → IsSound (given_up now d)
given_up-IsSound now o d s h = ground arith

pub requeued-IsSound :
    (now : ℕ) (o : SweepOptions) (d : DocumentRecord)
    → IsSound d
    → recoverable now o d ≡ true
    → IsSound (requeued d)
requeued-IsSound now o d s h = ground arith

pub renewed-IsSound :
    (id : ℕ) (d : DocumentRecord) → IsSound d → reprocessable id d ≡ true → IsSound (renewed d)
renewed-IsSound id d s h = ground arith

-- The copy that the result names is the one that the document's type asks for.
abbrev pub Names : ScanResult → DocumentRecord → Type 0
Names (found_clean key) d = key ≡ copy_of d
Names _ d = Unit {0}

pub finished-IsSound :
    (now : ℕ) (ocr : Option ScanOcrActivation) (c : ScanClaim) (r : ScanResult) (d : DocumentRecord)
    → Names r d
    → IsSound d
    → held c d ≡ true
    → IsSound (finished now r (ocr_status_for ocr c r) d)
finished-IsSound now ocr c r d n s h = ground arith
