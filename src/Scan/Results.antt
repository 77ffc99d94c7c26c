-- ===== src/Scan/Results.antt =====
-- What recording a result does to the database, and that a live claim excludes another.
use mathlib.Core.List.{append-nil}
use legaltech_colombia.Prelude.{
  ℕ, zero, suc, ◌+◌, ◌*◌, ◌≤◌, ◌≡◌, refl, ◌⊎◌, inl, inr, true, false, Option, none, some, List, [],
  ◌∷◌, ◌++◌, arith, count_where, find_where-none, update_where, update_where_none,
  count_where-le_one,
}
use legaltech_colombia.Common.{ok, err, failure, job_not_enqueued}
use legaltech_colombia.Database.{
  Db, DocumentRecord, DocumentOcrStatus, pending, Job, document_ocr, system_event,
}
use legaltech_colombia.Scan.Repository.{
  ScanClaim, claimable, claimed, claim, held, ScanResult, final_action, final_value,
  ScanOcrActivation, ocr_status_for, finished, finish,
}
use legaltech_colombia.Scan.Fencing.{
  claim-none, HasDistinctIds, id_of, held-names, claimable-names, finish-not_held,
}

-- The job that a result brings: only a document that enters the OCR has one.
abbrev pub ocr_jobs : Option DocumentOcrStatus → ℕ → List Job
ocr_jobs (some pending) id = document_ocr id 0 ∷ []
ocr_jobs _ id = []

abbrev pub recorded : ℕ → Option ScanOcrActivation → ScanClaim → ScanResult → Db → Db
recorded now ocr c r db = record db {
  documents = update_where (held c) (finished now r (ocr_status_for ocr c r)) db.documents;
  audit_logs =
      db.audit_logs
      ++ system_event (final_action r) c.document_id c.case_id (final_value c r) now ∷ [];
  jobs = db.jobs ++ ocr_jobs (ocr_status_for ocr c r) c.document_id;
}

finish-held :
    (now : ℕ) (ocr : Option ScanOcrActivation) (c : ScanClaim) (r : ScanResult) (db : Db)
    → count_where (held c) db.documents ≡ 1
    → (finish now ocr c r db ≡ (ok true, recorded now ocr c r db))
      ⊎ (finish now ocr c r db ≡ (err (failure job_not_enqueued), db))
unfolding finish
finish-held now ocr c r db h = ground (arith, append-nil db.jobs)

-- A result is recorded whole or not at all. Either exactly one row holds the claim, and it changes
-- together with one audit event and, when the document enters the OCR, one `document.ocr` job; or
-- the answer is false and nothing changes; or the job is not taken and nothing changes.
pub finish_atomic :
    (now : ℕ) (ocr : Option ScanOcrActivation) (c : ScanClaim) (r : ScanResult) (db : Db)
    → HasDistinctIds db
    → ((count_where (held c) db.documents ≡ 1)
        × ((finish now ocr c r db ≡ (ok true, recorded now ocr c r db))
            ⊎ (finish now ocr c r db ≡ (err (failure job_not_enqueued), db))))
      ⊎ ((count_where (held c) db.documents ≡ 0) × (finish now ocr c r db ≡ (ok false, db)))
finish_atomic now ocr c r db u = split (count_where (held c) db.documents) refl
  where
    most : count_where (held c) db.documents ≤ 1
    most = count_where-le_one id_of c.document_id (held c) (held-names c) db.documents u

    split :
        (n : ℕ)
        → count_where (held c) db.documents ≡ n
        → ((count_where (held c) db.documents ≡ 1)
            × ((finish now ocr c r db ≡ (ok true, recorded now ocr c r db))
                ⊎ (finish now ocr c r db ≡ (err (failure job_not_enqueued), db))))
          ⊎ ((count_where (held c) db.documents ≡ 0) × (finish now ocr c r db ≡ (ok false, db)))
    split zero e = inr (e, finish-not_held now ocr c r db e)
    split (suc zero) e = inl (e, finish-held now ocr c r db e)
    split (suc (suc n)) e = absurd (omega (arith, most, e))

taken-not_claimable :
    (now again lease id : ℕ) (d : DocumentRecord)
    → again ≤ now + lease * 1000000
    → claimable now lease id d ≡ true
    → claimable again lease id (claimed now d) ≡ false
taken-not_claimable now again lease id d fresh h = ground arith

-- While the lease of a claim runs, a second claim of the document finds nothing and changes nothing.
pub claim_exclusive :
    (now again lease id : ℕ) (a : ScanClaim) (db db' : Db)
    → HasDistinctIds db
    → claim now id lease db ≡ (ok (some a), db')
    → again ≤ now + lease * 1000000
    → claim again id lease db' ≡ (ok none, db')
unfolding claim
claim_exclusive now again lease id a db db' u e fresh =
    let gone =
      claim-none now lease id a db db' (claimable again lease id) u e
        (claimable-names again lease id)
        (λ d h. taken-not_claimable now again lease id d fresh h) in
    ground (
      arith,
      gone,
      find_where-none (claimable again lease id) db'.documents,
      update_where_none (claimable again lease id) (claimed again) db'.documents,
    )
