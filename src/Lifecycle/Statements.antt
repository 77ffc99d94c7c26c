-- ===== src/Lifecycle/Statements.antt =====
-- What each statement of the treatment, of the OCR and of an upload does to the table of documents.
use legaltech_colombia.Database.Sound.{IsSound}
use legaltech_colombia.Prelude.{
  true, map, select_where, ◌++◌, Absent, ◌==◌, false, Bool, any, ℕ, ◌≡◌, refl, ◌⊎◌, inl, inr,
  Option, none, some, List, [], ◌∷◌, arith, All, if◌then◌else◌, update_where,
}
use legaltech_colombia.Database.{Db, DocumentRecord, is_pdf, sanitized}
use legaltech_colombia.Scan
use legaltech_colombia.Documents
use legaltech_colombia.Database
use legaltech_colombia.Scan.Repository.{
  ScanClaim, ScanResult, found_clean, ScanOcrActivation, ocr_status_for, finished, held,
}
use legaltech_colombia.Scan.Fencing.{id_of}
use legaltech_colombia.Lifecycle.Rows.{
  Change-eq, Change-or, keeps, add, both, KeepsSound, Change, update, Genuine, updates,
}

-- The jobs of a sweep leave the rows as they are.
enqueued-documents :
    (sent : Bool) (ds : List DocumentRecord) (db : Db)
    → (Scan.Recovery.enqueue_scans sent ds db).1.documents ≡ db.documents
unfolding Scan.Recovery.enqueue_scans
enqueued-documents sent [] db = refl
enqueued-documents false (d ∷ ds) db = refl
enqueued-documents true (d ∷ ds) db =
    enqueued-documents true ds (Database.add_job (Database.document_scan d.id) db)

-- The result of a treatment, for a claim of a row of the table: a copy is recorded where the
-- file's type asks for one, under the key of the original.
abbrev pub Suits : ScanClaim → ScanResult → Type 0
Suits c (found_clean key) =
    key ≡ (if is_pdf c.file_type then none else some (sanitized c.storage_key))
Suits c _ = Unit {0}

module _ (db : Db) where
  pub scan_claim-Change :
      (now id lease : ℕ) → Change db.documents (Scan.Repository.claim now id lease db).1.documents
  unfolding Scan.Repository.claim
  scan_claim-Change now id lease =
      updates (Scan.Repository.claimable now lease id) (Scan.Repository.claimed now)
        (keeps _ (λ d. refl) (λ d. refl) (λ d. refl)) (Scan.Invariant.claimed-IsSound now lease id)
        db.documents

  pub scan_release-Change :
      (c : ScanClaim) → Change db.documents (Scan.Repository.release c db).1.documents
  unfolding Scan.Repository.release
  scan_release-Change c =
      updates (held c) Scan.Repository.released (keeps _ (λ d. refl) (λ d. refl) (λ d. refl))
        (Scan.Invariant.released-IsSound c) db.documents

  finished-KeepsSound :
      (now : ℕ) (ocr : Option ScanOcrActivation) (c : ScanClaim) (r : ScanResult)
      → Suits c r
      → (xs : List DocumentRecord) → Genuine c.document_id c.file_type c.storage_key xs
      → All (KeepsSound (held c) (finished now r (ocr_status_for ocr c r))) xs
  finished-KeepsSound now ocr c r s [] g = tt
  finished-KeepsSound now ocr c r s (d ∷ ds) g = (
    (λ sound h.
        Scan.Invariant.finished-IsSound now ocr c r d
          (named r s (g.0 (Scan.Fencing.held-names c d h))) sound h),
    finished-KeepsSound now ocr c r s ds g.1,
  )
    where
      named :
          (r : ScanResult)
          → Suits c r
          → (d.file_type ≡ c.file_type) × (d.storage_key ≡ c.storage_key)
          → Scan.Invariant.Names r d
      named (found_clean key) s e = rw (e.0, e.1) s
      named _ s e = tt

  finish-documents :
      (now : ℕ) (ocr : Option ScanOcrActivation) (c : ScanClaim) (r : ScanResult)
      → ((Scan.Repository.finish now ocr c r db).1.documents ≡ db.documents)
        ⊎ ((Scan.Repository.finish now ocr c r db).1.documents
            ≡ update_where (held c) (finished now r (ocr_status_for ocr c r)) db.documents)
  unfolding Scan.Repository.finish
  finish-documents now ocr c r = ground arith

  pub scan_finish-Change :
      (now : ℕ) (ocr : Option ScanOcrActivation) (c : ScanClaim) (r : ScanResult)
      → Suits c r
      → Genuine c.document_id c.file_type c.storage_key db.documents
      → Change db.documents (Scan.Repository.finish now ocr c r db).1.documents
  scan_finish-Change now ocr c r s g = Change-or db.documents _ _ (finish-documents now ocr c r) (
      update (held c) (finished now r (ocr_status_for ocr c r))
        (keeps _ (λ d. refl) (λ d. refl) (λ d. refl))
        (finished-KeepsSound now ocr c r s db.documents g))

  sweep-documents :
      (now : ℕ) (sent : Bool) (o : Scan.Recovery.SweepOptions)
      → ((Scan.Recovery.sweep_untreated_documents now sent o db).1.documents ≡ db.documents)
        ⊎ ((Scan.Recovery.sweep_untreated_documents now sent o db).1.documents
            ≡ update_where (Scan.Recovery.recoverable now o) Scan.Recovery.requeued (
                update_where
                  (Scan.Recovery.exhausted now o)
                  (Scan.Recovery.given_up now)
                  db.documents))
  unfolding Scan.Recovery.sweep_untreated_documents
  sweep-documents now sent o = ground (
    arith,
    enqueued-documents sent
        (select_where (Scan.Recovery.recoverable now o)
          (update_where (Scan.Recovery.exhausted now o) (Scan.Recovery.given_up now) db.documents))
        (record db {
          documents = update_where (Scan.Recovery.recoverable now o) Scan.Recovery.requeued (
              update_where (Scan.Recovery.exhausted now o) (Scan.Recovery.given_up now)
                db.documents);
          audit_logs =
              db.audit_logs
              ++ map (Scan.Recovery.failed_event now)
                  (select_where (Scan.Recovery.exhausted now o) db.documents);
        }),
  )

  reprocess-documents :
      (now : ℕ) (sent : Bool) (id : ℕ)
      → ((Scan.Recovery.reprocess_document now sent id db).1.documents ≡ db.documents)
        ⊎ ((Scan.Recovery.reprocess_document now sent id db).1.documents
            ≡ update_where (Scan.Recovery.reprocessable id) Scan.Recovery.renewed db.documents)
  unfolding Scan.Recovery.reprocess_document
  reprocess-documents now sent id = ground arith

  pub scan_sweep-Change :
      (now : ℕ) (sent : Bool) (o : Scan.Recovery.SweepOptions)
      → Change db.documents (Scan.Recovery.sweep_untreated_documents now sent o db).1.documents
  scan_sweep-Change now sent o = Change-or db.documents _ _ (sweep-documents now sent o) (
      both
        (updates (Scan.Recovery.exhausted now o) (Scan.Recovery.given_up now)
          (keeps _ (λ d. refl) (λ d. refl) (λ d. refl)) (Scan.Invariant.given_up-IsSound now o)
          db.documents)
        (updates (Scan.Recovery.recoverable now o) Scan.Recovery.requeued
          (keeps _ (λ d. refl) (λ d. refl) (λ d. refl)) (Scan.Invariant.requeued-IsSound now o) _))

  pub scan_reprocess-Change :
      (now : ℕ) (sent : Bool) (id : ℕ)
      → Change db.documents (Scan.Recovery.reprocess_document now sent id db).1.documents
  scan_reprocess-Change now sent id = Change-or db.documents _ _ (reprocess-documents now sent id) (
      updates (Scan.Recovery.reprocessable id) Scan.Recovery.renewed
        (keeps _ (λ d. refl) (λ d. refl) (λ d. refl)) (Scan.Invariant.renewed-IsSound id)
        db.documents)

  create-documents :
      (now : ℕ) (sent : Bool) (input : Documents.Repository.CreateDocumentInput)
      → ((Documents.Repository.create_document now sent input db).1.documents ≡ db.documents)
        ⊎ ((any (λ (d : DocumentRecord). d.id == input.id) db.documents ≡ false)
            × ((Documents.Repository.create_document now sent input db).1.documents
                ≡ db.documents ++ Documents.Repository.new_document now input ∷ []))
  unfolding Documents.Repository.create_document
  create-documents now sent input = ground arith

  fresh-Absent :
      (id : ℕ) (xs : List DocumentRecord)
      → any (λ (d : DocumentRecord). d.id == id) xs ≡ false
      → Absent id_of id xs
  fresh-Absent id [] h = tt
  fresh-Absent id (x ∷ xs) h = ground (arith, fresh-Absent id xs)

  new_document-IsSound :
      (now : ℕ) (input : Documents.Repository.CreateDocumentInput)
      → IsSound (Documents.Repository.new_document now input)
  new_document-IsSound now input = ground arith

  pub create-Change :
      (now : ℕ) (sent : Bool) (input : Documents.Repository.CreateDocumentInput)
      → Change db.documents (Documents.Repository.create_document now sent input db).1.documents
  create-Change now sent input = elim (create-documents now sent input) [
    | inl e ↦ Change-eq _ _ e
    | inr e ↦ Change-or _ _ _ (inr e.1) (
        add (Documents.Repository.new_document now input) (new_document-IsSound now input)
          (fresh-Absent input.id db.documents e.0))
  ]
