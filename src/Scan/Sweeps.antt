-- ===== src/Scan/Sweeps.antt =====
-- What a sweep of the abandoned treatments leaves.
use mathlib.Core.List.{append-nil}
use legaltech_colombia.Prelude.{
  ℕ, ◌≡◌, refl, true, List, [], ◌∷◌, ◌++◌, map, arith, count_where, select_where, update_where,
}
use legaltech_colombia.Common.{ok}
use legaltech_colombia.Database.{Db, DocumentRecord, Job, document_scan}
use legaltech_colombia.Scan.Recovery.{
  SweepOptions, exhausted, given_up, recoverable, requeued, failed_event, enqueue_scans,
  sweep_untreated_documents, ids,
}

abbrev pub scan_jobs : List DocumentRecord → List Job
scan_jobs [] = []
scan_jobs (d ∷ ds) = document_scan d.id ∷ scan_jobs ds

append_one : {A : Type 0} (xs : List A) (x : A) (ys : List A) → (xs ++ x ∷ []) ++ ys ≡ xs ++ x ∷ ys
append_one [] x ys = refl
append_one (y ∷ xs) x ys = rw (append_one xs x ys) refl

enqueue_scans-sent :
    (ds : List DocumentRecord) (db : Db)
    → enqueue_scans true ds db ≡ (ok tt, record db { jobs = db.jobs ++ scan_jobs ds })
unfolding enqueue_scans
enqueue_scans-sent [] db = rw (append-nil db.jobs) refl
enqueue_scans-sent (d ∷ ds) db =
    rw
      (
        enqueue_scans-sent ds (record db { jobs = db.jobs ++ document_scan d.id ∷ [] }),
        append_one db.jobs (document_scan d.id) (scan_jobs ds),
      )
      refl

module _ (now : ℕ) (o : SweepOptions) where
  abbrev pub swept_rows : List DocumentRecord → List DocumentRecord
  swept_rows xs =
      update_where (recoverable now o) requeued (update_where (exhausted now o) (given_up now) xs)

  select-recoverable :
      (xs : List DocumentRecord)
      → select_where (recoverable now o) (update_where (exhausted now o) (given_up now) xs)
        ≡ select_where (recoverable now o) xs
  select-recoverable [] = refl
  select-recoverable (x ∷ xs) = ground (arith, select-recoverable xs)

  exhausted-none : (xs : List DocumentRecord) → count_where (exhausted now o) (swept_rows xs) ≡ 0
  exhausted-none [] = refl
  exhausted-none (x ∷ xs) = ground (arith, exhausted-none xs)

  recoverable-none :
      (xs : List DocumentRecord) → count_where (recoverable now o) (swept_rows xs) ≡ 0
  recoverable-none [] = refl
  recoverable-none (x ∷ xs) = ground (arith, recoverable-none xs)

  -- The database after a sweep.
  abbrev pub swept : Db → Db
  swept db = record db {
    documents = swept_rows db.documents;
    audit_logs =
        db.audit_logs ++ map (failed_event now) (select_where (exhausted now o) db.documents);
    jobs = db.jobs ++ scan_jobs (select_where (recoverable now o) db.documents);
  }

  -- A sweep whose jobs are taken always answers: it names the documents that were abandoned, those
  -- without attempts left as failed, with one audit event each, and the others as back in the queue,
  -- with one job each; and it leaves no abandoned document of either kind.
  pub sweep_settles :
      (db : Db)
      → (sweep_untreated_documents now true o db ≡ (
        ok (record {
          requeued = ids (select_where (recoverable now o) db.documents);
          failed = ids (select_where (exhausted now o) db.documents);
        }),
        swept db,
      ))
        × (count_where (exhausted now o) (swept db).documents ≡ 0)
        × (count_where (recoverable now o) (swept db).documents ≡ 0)
  unfolding sweep_untreated_documents
  sweep_settles db = (
    rw (select-recoverable db.documents, sent, select-recoverable db.documents) refl,
    exhausted-none db.documents,
    recoverable-none db.documents,
  )
    where
      rows : List DocumentRecord
      rows = select_where (recoverable now o) db.documents

      sent :
          enqueue_scans true rows (record (swept db) { jobs = db.jobs })
          ≡ (ok tt, record (swept db) { jobs = db.jobs ++ scan_jobs rows })
      sent = enqueue_scans-sent rows (record (swept db) { jobs = db.jobs })
