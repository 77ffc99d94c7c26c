-- ===== src/Scan/Recovery.antt =====
-- apps/worker/src/queue.ts: the sweep of abandoned treatments and the explicit reprocessing.
use legaltech_colombia.Prelude.{
  ℕ, Bool, ◌&&◌, ◌||◌, not, Option, none, some, List, [], ◌∷◌, ◌++◌, map, ltb, leb, ◌==◌,
  find_where, select_where, update_where,
}
use legaltech_colombia.Common.{
  Action, pure, gets, modify, transaction, throw_if, failure, job_not_enqueued, ◌>>=◌, ◌>>◌,
}
use legaltech_colombia.Database.{
  Db, DocumentRecord, pending_scan, scan_failed, is_uploaded, is_scanning, is_scan_failed,
  document_scan_failed, document_scan_reprocessed, attempts_value, AuditLog, system_event,
  add_audit, add_job, document_scan,
}
use legaltech_colombia.Scan.Repository.{older_than}

pub record SweepOptions : Type 0 where
  pub lease_seconds : ℕ
  pub max_attempts : ℕ

pub record SweepResult : Type 0 where
  pub requeued : List ℕ
  pub failed : List ℕ

abbrev pub exhausted : ℕ → SweepOptions → DocumentRecord → Bool
exhausted now o d =
    is_scanning d.status
    && (older_than now o.lease_seconds d.scan_started_at && leb o.max_attempts d.scan_attempts)

abbrev pub given_up : ℕ → DocumentRecord → DocumentRecord
given_up now d = record d { status = scan_failed; scanned_at = some now }

abbrev pub recoverable : ℕ → SweepOptions → DocumentRecord → Bool
recoverable now o d =
    is_uploaded d.status
    || is_scanning d.status
      && (older_than now o.lease_seconds d.scan_started_at && ltb d.scan_attempts o.max_attempts)

abbrev pub requeued : DocumentRecord → DocumentRecord
requeued d = record d { status = pending_scan; scan_started_at = none }

abbrev pub ids : List DocumentRecord → List ℕ
ids = map λ d. d.id

abbrev pub failed_event : ℕ → DocumentRecord → AuditLog
failed_event now d =
    system_event document_scan_failed d.id d.case_id (attempts_value scan_failed d.scan_attempts)
      now

-- `boss.send` for each row; `sent` says whether pg-boss takes the jobs.
unfoldable pub enqueue_scans : Bool → List DocumentRecord → Action Db (Unit {0})
enqueue_scans sent [] = pure tt
enqueue_scans sent (d ∷ ds) = do
  throw_if (not sent) (failure job_not_enqueued)
  modify (add_job (document_scan d.id))
  enqueue_scans sent ds

-- No other sweep holds a row: the rows are all that the conditions name.
unfoldable pub sweep_untreated_documents : ℕ → Bool → SweepOptions → Action Db SweepResult
unfolding enqueue_scans
sweep_untreated_documents now sent o = transaction do
  failed ← gets (λ db. select_where (exhausted now o) db.documents)
  modify
      (λ db. record db { documents = update_where (exhausted now o) (given_up now) db.documents })
  modify (λ db. record db { audit_logs = db.audit_logs ++ map (failed_event now) failed })
  back ← gets (λ db. select_where (recoverable now o) db.documents)
  modify (λ db. record db { documents = update_where (recoverable now o) requeued db.documents })
  enqueue_scans sent back
  pure (record { requeued = ids back; failed = ids failed })

pub data Reprocessed : Type 0 where
  reprocessed skipped : Reprocessed

abbrev pub reprocessable : ℕ → DocumentRecord → Bool
reprocessable id d = d.id == id && is_scan_failed d.status

abbrev pub renewed : DocumentRecord → DocumentRecord
renewed d = record d {
  status = pending_scan;
  scan_attempts = 0;
  scan_started_at = none;
  scanned_at = none;
  scan_signature = none;
  sanitized_storage_key = none;
}

abbrev after_reprocess : ℕ → Bool → Option DocumentRecord → Action Db Reprocessed
after_reprocess now sent none = pure skipped
after_reprocess now sent (some d) = do
  throw_if (not sent) (failure job_not_enqueued)
  modify (add_job (document_scan d.id))
  modify (
      add_audit (
        system_event document_scan_reprocessed d.id d.case_id
          (attempts_value pending_scan d.scan_attempts) now))
  pure reprocessed

unfoldable pub reprocess_document : ℕ → Bool → ℕ → Action Db Reprocessed
reprocess_document now sent id = transaction do
  row ← gets (λ db. find_where (reprocessable id) db.documents)
  modify (λ db. record db { documents = update_where (reprocessable id) renewed db.documents })
  after_reprocess now sent row
