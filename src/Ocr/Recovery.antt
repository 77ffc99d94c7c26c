-- ===== src/Ocr/Recovery.antt =====
-- apps/worker/src/ocr/ocr-queue.ts: the sweep of abandoned OCR claims and the explicit reprocessing.
use Prim.Native.String.{String}
use legaltech_colombia.Prelude.{
  ℕ, Bool, ◌&&◌, not, Option, none, some, List, [], ◌∷◌, ◌++◌, leb, ◌==◌, if◌then◌else◌, find_where,
  select_where, update_where,
}
use legaltech_colombia.Common.{
  Action, pure, gets, modify, transaction, throw_if, failure, job_not_enqueued, ◌>>=◌, ◌>>◌,
}
use legaltech_colombia.Database.{
  Db, DocumentRecord, is_clean, pending, failed, is_processing, is_failed, OcrOutcome, OcrResult,
  abandoned, document_ocr_failed, document_ocr_reprocessed, ocr_failed_value, ocr_reprocessed_value,
  system_event, add_audit, add_job, document_ocr,
}
use legaltech_colombia.Scan.Recovery.{Reprocessed, reprocessed, skipped}
use legaltech_colombia.Scan.Repository.{older_than}

pub record OcrSweepOptions : Type 0 where
  pub lease_seconds : ℕ
  pub max_attempts : ℕ
  pub engine : String

pub record OcrSweepResult : Type 0 where
  pub requeued : List ℕ
  pub failed : List ℕ

abbrev pub is_abandoned : ℕ → OcrSweepOptions → DocumentRecord → Bool
is_abandoned now o d = is_processing d.ocr_status && older_than now o.lease_seconds d.ocr_started_at

abbrev pub has_id : ℕ → DocumentRecord → Bool
has_id id d = d.id == id

abbrev pub set_failed : DocumentRecord → DocumentRecord
set_failed d = record d { ocr_status = failed }

abbrev pub set_pending : DocumentRecord → DocumentRecord
set_pending d = record d { ocr_status = pending; ocr_started_at = none }

enqueue_ocr : Bool → ℕ → Action Db (Unit {0})
enqueue_ocr sent id = do
  throw_if (not sent) (failure job_not_enqueued)
  modify (add_job (document_ocr id 0))

abandoned_row : ℕ → OcrSweepOptions → ℕ → DocumentRecord → OcrResult
abandoned_row now o id d = record {
  id = id;
  document_id = d.id;
  outcome = OcrOutcome.failed;
  engine = o.engine;
  engine_version = none;
  representation = none;
  processed_sha256 = none;
  pages = none;
  attempts = d.ocr_attempts;
  started_at = d.ocr_started_at;
  finished_at = now;
  error_code = some abandoned;
}

-- No attempts left.
fail_row : ℕ → OcrSweepOptions → ℕ → DocumentRecord → Action Db (Unit {0})
unfolding abandoned_row
fail_row now o fresh d = do
  modify (λ db. record db { documents = update_where (has_id d.id) set_failed db.documents })
  modify (λ db. record db { ocr_results = db.ocr_results ++ abandoned_row now o fresh d ∷ [] })
  modify (
      add_audit (
        system_event document_ocr_failed d.id d.case_id (ocr_failed_value abandoned d.ocr_attempts)
          now))

requeue_row : Bool → DocumentRecord → Action Db (Unit {0})
unfolding enqueue_ocr
requeue_row sent d = do
  modify (λ db. record db { documents = update_where (has_id d.id) set_pending db.documents })
  enqueue_ocr sent d.id

abbrev add_failed : ℕ → OcrSweepResult → OcrSweepResult
add_failed id r = record r { failed = r.failed ++ id ∷ [] }

abbrev add_requeued : ℕ → OcrSweepResult → OcrSweepResult
add_requeued id r = record r { requeued = r.requeued ++ id ∷ [] }

-- One abandoned row. `fresh` gives the id of its result (`randomUUID()`).
unfoldable pub sweep_row :
    ℕ → Bool → (ℕ → ℕ) → OcrSweepOptions → DocumentRecord → Action Db (Unit {0})
unfolding fail_row requeue_row
sweep_row now sent fresh o d =
    if leb o.max_attempts d.ocr_attempts then fail_row now o (fresh d.id) d else requeue_row sent d

abbrev pub add_row : OcrSweepOptions → DocumentRecord → OcrSweepResult → OcrSweepResult
add_row o d r = if leb o.max_attempts d.ocr_attempts then add_failed d.id r else add_requeued d.id r

-- The loop over the abandoned rows.
unfoldable pub sweep_rows :
    ℕ
    → Bool
    → (ℕ → ℕ)
    → OcrSweepOptions
    → OcrSweepResult
    → List DocumentRecord
    → Action Db OcrSweepResult
sweep_rows now sent fresh o r [] = pure r
sweep_rows now sent fresh o r (d ∷ ds) =
    sweep_row now sent fresh o d >> sweep_rows now sent fresh o (add_row o d r) ds

-- No other sweep holds a row: the rows are all that the condition names.
unfoldable pub sweep_abandoned_ocr : ℕ → Bool → (ℕ → ℕ) → OcrSweepOptions → Action Db OcrSweepResult
unfolding sweep_rows
sweep_abandoned_ocr now sent fresh o = transaction do
  rows ← gets (λ db. select_where (is_abandoned now o) db.documents)
  sweep_rows now sent fresh o (record { requeued = []; failed = [] }) rows

abbrev pub reprocessable : ℕ → DocumentRecord → Bool
reprocessable id d = d.id == id && (is_clean d.status && is_failed d.ocr_status)

abbrev pub renewed : DocumentRecord → DocumentRecord
renewed d = record d { ocr_status = pending; ocr_attempts = 0; ocr_started_at = none }

after_reprocess : ℕ → Bool → Option DocumentRecord → Action Db Reprocessed
unfolding enqueue_ocr
after_reprocess now sent none = pure skipped
after_reprocess now sent (some d) = do
  enqueue_ocr sent d.id
  modify (
      add_audit (
        system_event document_ocr_reprocessed d.id d.case_id (ocr_reprocessed_value d.ocr_attempts)
          now))
  pure reprocessed

unfoldable pub reprocess_ocr : ℕ → Bool → ℕ → Action Db Reprocessed
unfolding after_reprocess
reprocess_ocr now sent id = transaction do
  row ← gets (λ db. find_where (reprocessable id) db.documents)
  modify (λ db. record db { documents = update_where (reprocessable id) renewed db.documents })
  after_reprocess now sent row
