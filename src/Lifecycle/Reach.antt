-- ===== src/Lifecycle/Reach.antt =====
-- The databases that the statements of the API and of the worker can reach, in any order and with any
-- instants, from one without documents. Beside the database stand the claims that the workers of the
-- treatment were given, live or not: a worker can use any of them at any time.
use mathlib.Core.List.{Memᴰ}
use legaltech_colombia.Prelude.{
  inr, sym, inl, subst, Option-cases, ℕ, ◌≡◌, Bool, Option, none, some, List, [], ◌∷◌, arith, All,
  find_where, if◌then◌else◌,
}
use legaltech_colombia.Common.{Action, Result, ok}
use legaltech_colombia.Database.{Db, DocumentRecord, is_clean, is_pdf, sanitized, StorageKey}
use legaltech_colombia.Database.Sound.{IsSound}
use legaltech_colombia.Scan
use legaltech_colombia.Scan.Repository.{ScanClaim, ScanResult, ScanOcrActivation, claim_of}
use legaltech_colombia.Ocr
use legaltech_colombia.Ocr.Repository.{OcrClaim, OcrExecution, OcrEnd}
use legaltech_colombia.Documents
use legaltech_colombia.Documents.Service.{downloadable_key}
use legaltech_colombia.Lifecycle.Rows.{
  Change, IsSoundTable, Change-IsSoundTable, Has, Change-Has, Has-Genuine,
}
use legaltech_colombia.Lifecycle.Statements.{
  scan_claim-Change, scan_release-Change, Suits, scan_finish-Change, scan_sweep-Change,
  scan_reprocess-Change, create-Change,
}
use legaltech_colombia.Lifecycle.OcrStatements.{
  ocr_claim-Change, mark_excluded-Change, release_for_retry-Change, ocr_finish-Change,
  ocr_reprocess-Change, activate-Change,
}
use legaltech_colombia.Lifecycle.OcrSweep.{ocr_sweep-Change}

pub record System : Type 0 where
  pub db : Db
  pub claims : List ScanClaim

-- The claims, once the statement that claims has answered.
abbrev pub with_claim : Result (Option ScanClaim) → List ScanClaim → List ScanClaim
with_claim (ok (some c)) cs = c ∷ cs
with_claim _ cs = cs

abbrev pub after_claim : System → Result (Option ScanClaim) × Db → System
after_claim s (r, db) = record { db = db; claims = with_claim r s.claims }

abbrev pub writes : {A : Type 0} → System → Action Db A → System
writes s m = record s { db = (m s.db).1 }

-- Every statement that writes the table `documents`.
pub data Step : System → System → Type 0 where
  create_document :
      {s : System} (now : ℕ) (sent : Bool) (input : Documents.Repository.CreateDocumentInput)
      → Step s (writes s (Documents.Repository.create_document now sent input))
  scan_claim :
      {s : System} (now id lease : ℕ)
      → Step s (after_claim s (Scan.Repository.claim now id lease s.db))
  scan_release : {s : System} (c : ScanClaim) → Step s (writes s (Scan.Repository.release c))
  scan_finish :
      {s : System} (now : ℕ) (ocr : Option ScanOcrActivation) (c : ScanClaim) (r : ScanResult)
      → Memᴰ c s.claims
      → Suits c r
      → Step s (writes s (Scan.Repository.finish now ocr c r))
  scan_sweep :
      {s : System} (now : ℕ) (sent : Bool) (o : Scan.Recovery.SweepOptions)
      → Step s (writes s (Scan.Recovery.sweep_untreated_documents now sent o))
  scan_reprocess :
      {s : System} (now : ℕ) (sent : Bool) (id : ℕ)
      → Step s (writes s (Scan.Recovery.reprocess_document now sent id))
  ocr_claim :
      {s : System} (now id lease : ℕ) → Step s (writes s (Ocr.Repository.claim now id lease))
  ocr_mark_excluded :
      {s : System} (c : OcrClaim) → Step s (writes s (Ocr.Repository.mark_excluded c))
  ocr_release :
      {s : System} (sent : Bool) (c : OcrClaim) (delay : ℕ)
      → Step s (writes s (Ocr.Repository.release_for_retry sent c delay))
  ocr_finish :
      {s : System} (now : ℕ) (c : OcrClaim) (x : OcrExecution) (r : OcrEnd)
      → Step s (writes s (Ocr.Repository.finish now c x r))
  ocr_sweep :
      {s : System} (now : ℕ) (sent : Bool) (fresh : ℕ → ℕ) (o : Ocr.Recovery.OcrSweepOptions)
      → Step s (writes s (Ocr.Recovery.sweep_abandoned_ocr now sent fresh o))
  ocr_reprocess :
      {s : System} (now : ℕ) (sent : Bool) (id : ℕ)
      → Step s (writes s (Ocr.Recovery.reprocess_ocr now sent id))
  ocr_activate : {s : System} → Step s (writes s Ocr.Activation.activate_ocr)

abbrev pub IsEmpty : System → Type 0
IsEmpty s = (s.db.documents ≡ []) × (s.claims ≡ [])

pub data Reachable : System → Type 0 where
  start : {s : System} → IsEmpty s → Reachable s
  next : {s s' : System} → Reachable s → Step s s' → Reachable s'

-- The row that a claim was given for is there.
abbrev ClaimFits : List DocumentRecord → ScanClaim → Type 0
ClaimFits xs c = Has c.document_id c.file_type c.storage_key xs

pub record IsSoundSystem (s : System) : Type 0 where
  pub table : IsSoundTable s.db.documents
  pub fits : All (ClaimFits s.db.documents) s.claims

Change-fits :
    {xs ys : List DocumentRecord}
    → Change xs ys
    → (cs : List ScanClaim) → All (ClaimFits xs) cs
    → All (ClaimFits ys) cs
Change-fits change [] h = tt
Change-fits change (c ∷ cs) h =
    (Change-Has c.document_id c.file_type c.storage_key change h.0, Change-fits change cs h.1)

Change-IsSoundSystem :
    (s : System) (db : Db)
    → Change s.db.documents db.documents
    → IsSoundSystem s
    → IsSoundSystem (record s { db = db })
Change-IsSoundSystem s db change h = record {
  table = Change-IsSoundTable change h.table;
  fits = Change-fits change s.claims h.fits;
}

found-Has :
    (p : DocumentRecord → Bool) (xs : List DocumentRecord) {d : DocumentRecord}
    → find_where p xs ≡ some d
    → Has d.id d.file_type d.storage_key xs
found-Has p [] e = cc
found-Has p (x ∷ xs) {d} e = ground (arith, found-Has p xs {d = d})

claimed-fits :
    (now id lease : ℕ) (db : Db) (cs : List ScanClaim)
    → All (ClaimFits db.documents) cs
    → All (ClaimFits db.documents) (with_claim (Scan.Repository.claim now id lease db).0 cs)
unfolding Scan.Repository.claim
claimed-fits now id lease db cs h =
    elim (Option-cases (find_where (Scan.Repository.claimable now lease id) db.documents)) [
      | inl e ↦ rw e h
      | inr (d, e) ↦ rw e (found-Has _ db.documents {d = d} e, h)
    ]

after_claim-IsSoundSystem :
    (s : System) (now id lease : ℕ)
    → IsSoundSystem s
    → IsSoundSystem (after_claim s (Scan.Repository.claim now id lease s.db))
after_claim-IsSoundSystem s now id lease h = record {
  table = Change-IsSoundTable (scan_claim-Change s.db now id lease) h.table;
  fits =
      Change-fits (scan_claim-Change s.db now id lease) _
        (claimed-fits now id lease s.db s.claims h.fits);
}

given-Has :
    {c : ScanClaim} (xs : List DocumentRecord) {cs : List ScanClaim}
    → Memᴰ c cs
    → All (ClaimFits xs) cs
    → ClaimFits xs c
given-Has xs {cs = []} m h = elim m [ ]
given-Has xs {cs = c' ∷ cs} (Memᴰ.head e) h = subst (ClaimFits xs) (sym e) h.0
given-Has xs {cs = c' ∷ cs} (Memᴰ.tail m) h = given-Has xs m h.1

Step-IsSoundSystem : {s s' : System} → Step s s' → IsSoundSystem s → IsSoundSystem s'
Step-IsSoundSystem (create_document {s} now sent input) =
    Change-IsSoundSystem s _ (create-Change s.db now sent input)
Step-IsSoundSystem (scan_claim {s} now id lease) = after_claim-IsSoundSystem s now id lease
Step-IsSoundSystem (scan_release {s} c) = Change-IsSoundSystem s _ (scan_release-Change s.db c)
Step-IsSoundSystem (scan_finish {s} now ocr c r m f) = λ h.
    Change-IsSoundSystem s _
      (scan_finish-Change s.db now ocr c r f (
        Has-Genuine c.document_id c.file_type c.storage_key s.db.documents h.table.distinct
          (given-Has s.db.documents m h.fits)))
      h
Step-IsSoundSystem (scan_sweep {s} now sent o) =
    Change-IsSoundSystem s _ (scan_sweep-Change s.db now sent o)
Step-IsSoundSystem (scan_reprocess {s} now sent id) =
    Change-IsSoundSystem s _ (scan_reprocess-Change s.db now sent id)
Step-IsSoundSystem (ocr_claim {s} now id lease) =
    Change-IsSoundSystem s _ (ocr_claim-Change s.db now id lease)
Step-IsSoundSystem (ocr_mark_excluded {s} c) =
    Change-IsSoundSystem s _ (mark_excluded-Change s.db c)
Step-IsSoundSystem (ocr_release {s} sent c delay) =
    Change-IsSoundSystem s _ (release_for_retry-Change s.db sent c delay)
Step-IsSoundSystem (ocr_finish {s} now c x r) =
    Change-IsSoundSystem s _ (ocr_finish-Change s.db now c x r)
Step-IsSoundSystem (ocr_sweep {s} now sent fresh o) =
    λ h. Change-IsSoundSystem s _ (ocr_sweep-Change now sent fresh o s.db h.table.distinct) h
Step-IsSoundSystem (ocr_reprocess {s} now sent id) =
    Change-IsSoundSystem s _ (ocr_reprocess-Change s.db now sent id)
Step-IsSoundSystem (ocr_activate {s}) = Change-IsSoundSystem s _ (activate-Change s.db)

-- Whatever statements have run, in whatever order: ids are distinct, every row has the columns of the
-- treatment and of the OCR that its status asks for, and the row of each claim is still there.
pub Reachable-IsSoundSystem : {s : System} → Reachable s → IsSoundSystem s
Reachable-IsSoundSystem (start {s} (d, c)) = record {
  table = rw d (record { sound = tt; distinct = tt });
  fits = rw c tt;
}
Reachable-IsSoundSystem (next r step) = Step-IsSoundSystem step (Reachable-IsSoundSystem r)

-- The key that a download of the document gives, by its type.
abbrev pub safe_key : DocumentRecord → StorageKey
safe_key d = if is_pdf d.file_type then d.storage_key else sanitized d.storage_key

abbrev pub IsServedSafely : DocumentRecord → Type 0
IsServedSafely d = downloadable_key d ≡ (if is_clean d.status then some (safe_key d) else none)

sound-IsServedSafely : (d : DocumentRecord) → IsSound d → IsServedSafely d
unfolding downloadable_key
sound-IsServedSafely d h = ground arith

All-served : (xs : List DocumentRecord) → All IsSound xs → All IsServedSafely xs
All-served [] h = tt
All-served (d ∷ ds) h = (sound-IsServedSafely d h.0, All-served ds h.1)

-- Whatever statements have run, in whatever order, a document can be downloaded exactly when it is
-- CLEAN: a PDF as it was uploaded, an image only as the copy without metadata.
pub Reachable-downloads : {s : System} → Reachable s → All IsServedSafely s.db.documents
Reachable-downloads {s} r = All-served s.db.documents (Reachable-IsSoundSystem r).table.sound
