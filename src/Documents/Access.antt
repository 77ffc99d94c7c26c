-- ===== src/Documents/Access.antt =====
-- What the service answers and to whom: downloads, the text of the OCR, and the requests of an
-- administrator.
use Prim.Native.String.{String}
use legaltech_colombia.Prelude.{
  none, not, if◌then◌else◌, Option, subst, ◌≢◌, ◌&&◌, Bool-cases, ◌==◌, inr, inl, List, ℕ, ◌≡◌, ◌⊎◌,
  refl, true, false, Bool, some, arith, [], ◌∷◌, ◌++◌, find_where, any, Option-cases,
}
use legaltech_colombia.Common.{
  job_not_enqueued, failure, allowed, ◌>>=◌, active, user, admin, RequestContext, Error, ok, err,
}
use legaltech_colombia.Common.Runs.{bind-ok}
use legaltech_colombia.Database.{
  jpeg, is_pdf, DocumentFileType, pdf, StorageKey, png, is_failed, is_clean, is_scan_failed, Job,
  AuditAction, Db, DocumentRecord, CaseRecord, clean, scan_failed, completed, document_reprocess,
  document_ocr_reprocess, failed, audit_log_row, document_reprocess_requested,
  document_ocr_reprocess_requested,
}
use legaltech_colombia.Cases
use legaltech_colombia.Cases.Service.{CurrentUser, not_found_error}
use legaltech_colombia.Documents.Policy.{
  reprocess_ocr, reprocess, can, DocumentAction, download, read_ocr,
}
use legaltech_colombia.Documents.Repository.{
  request_reprocess, request_ocr_reprocess, find_document_for_administration, find_own_document,
  find_own_document_ocr, is_own, DocumentOcrRead,
}
use legaltech_colombia.Documents.Service.{
  forbidden_error, request_event, serve, or_not_found, own_case, DownloadUrl, create_download_url,
  downloadable_key, read_document_ocr, ask_reprocess, ask_ocr_reprocess,
}

-- The actions of a case's owner.
abbrev is_owner_action : DocumentAction → Bool
is_owner_action reprocess = false
is_owner_action reprocess_ocr = false
is_owner_action _ = true

-- The object that a document is downloaded from: the upload of a PDF, the copy without metadata of an
-- image.
pub ServedFrom : DocumentRecord → StorageKey → Type 0
ServedFrom d key =
    ((d.file_type ≡ pdf) × (d.storage_key ≡ key))
    ⊎ ((d.file_type ≢ pdf) × (d.sanitized_storage_key ≡ some key))

-- An active user who owns a case with this id.
pub record Owns (current : CurrentUser) (case_id : ℕ) (db : Db) : Type 0 where
  pub is_active : current.actor.status ≡ active
  pub is_user : current.actor.role ≡ user
  pub is_same : current.user_id ≡ current.actor.id
  pub owned : any (Cases.Repository.is_own case_id current.user_id) db.cases ≡ true

module _ (db : Db) (current : CurrentUser) (case_id : ℕ) where
  found-any :
      (p : CaseRecord → Bool) (cs : List CaseRecord) {c : CaseRecord}
      → find_where p cs ≡ some c
      → any p cs ≡ true
  found-any p [] e = cc
  found-any p (x ∷ xs) {c} e = ground (arith, found-any p xs {c = c})

  own_case-Owns :
      (db' : Db) (action : DocumentAction) {c : CaseRecord}
      → is_owner_action action ≡ true
      → own_case current case_id action db ≡ (ok c, db')
      → Owns current case_id db × (db' ≡ db)
  unfolding own_case can Cases.Repository.find_own_case
  own_case-Owns db' action {c} a h =
      elim (Option-cases (find_where (Cases.Repository.is_own case_id current.user_id) db.cases)) [
        | inl e ↦ ground arith
        | inr (f, e) ↦
            ground (
              arith,
              found-any (Cases.Repository.is_own case_id current.user_id) db.cases {c = f} e,
            )
      ]

  key_of_type :
      (t : DocumentFileType) (a : StorageKey) (s : Option StorageKey) (key : StorageKey)
      → (if is_pdf t then some a else s) ≡ some key
      → ((t ≡ pdf) × (a ≡ key)) ⊎ ((t ≢ pdf) × (s ≡ some key))
  key_of_type pdf a s key h = inl (refl, cc)
  key_of_type jpeg a s key h = inr ((λ e. cc), h)
  key_of_type png a s key h = inr ((λ e. cc), h)

  key-ServedFrom :
      (d : DocumentRecord) (key : StorageKey) → downloadable_key d ≡ some key → ServedFrom d key
  unfolding downloadable_key ServedFrom
  key-ServedFrom d key h = elim (Bool-cases (is_clean d.status)) [
    | inl c ↦ key_of_type d.file_type d.storage_key d.sanitized_storage_key key (
        subst
          (λ b.
            (if not b
              then none
              else if is_pdf d.file_type
              then some d.storage_key
              else d.sanitized_storage_key)
            ≡ some key)
          c h)
    | inr c ↦ ground arith
  ]

  served :
      (now ttl document_id : ℕ) (url : DownloadUrl) (db1 db' : Db)
      → db1 ≡ db
      → (find_own_document document_id case_id current.user_id >>= serve now ttl) db1
        ≡ (ok url, db')
      → (db' ≡ db)
        × ((d : DocumentRecord) × (find_where
                (is_own db.cases document_id case_id current.user_id)
                db.documents
              ≡ some d)
            × (d.status ≡ clean)
            × ServedFrom d url.key)
  unfolding find_own_document downloadable_key
  served now ttl document_id url db1 db' s h =
      elim (Option-cases
        (find_where (is_own db.cases document_id case_id current.user_id) db.documents)) [
          | inl e ↦ ground arith
          | inr (d, e) ↦
              (ground arith, (d, e, ground arith, key-ServedFrom d url.key (ground arith)))
        ]

  read :
      (document_id : ℕ) (ocr : DocumentOcrRead) (db1 db' : Db)
      → db1 ≡ db
      → (find_own_document_ocr document_id case_id current.user_id >>= or_not_found) db1
        ≡ (ok ocr, db')
      → (db' ≡ db)
        × ((d : DocumentRecord) × (find_where
                (is_own db.cases document_id case_id current.user_id)
                db.documents
              ≡ some d)
            × (ocr.ocr_status ≡ d.ocr_status)
            × ((d.ocr_status ≡ completed) ⊎ (ocr.pages ≡ [])))
  unfolding find_own_document_ocr
  read document_id ocr db1 db' s h =
      elim (Option-cases
        (find_where (is_own db.cases document_id case_id current.user_id) db.documents)) [
          | inl e ↦ ground arith
          | inr (d, e) ↦ (ground arith, (d, e, ground arith, ground arith))
        ]

  -- A download URL is given only to the active owner of the document's case, for a CLEAN document of
  -- that case, and for the uploaded object of a PDF or the sanitized copy of an image; the database stays
  -- as it was.
  pub download_guarded :
      (now ttl document_id : ℕ) (url : DownloadUrl) (db' : Db)
      → create_download_url now ttl current case_id document_id db ≡ (ok url, db')
      → Owns current case_id db
        × (db' ≡ db)
        × ((d : DocumentRecord) × (find_where
                (is_own db.cases document_id case_id current.user_id)
                db.documents
              ≡ some d)
            × (d.status ≡ clean)
            × ServedFrom d url.key)
  unfolding create_download_url
  download_guarded now ttl document_id url db' h =
      let (c, o, r) = bind-ok (own_case current case_id download) _ db db' h in
      let (owns, same) = own_case-Owns c.1 download {c = c.0} refl o in
      let (keep, found) = served now ttl document_id url c.1 db' same r in (owns, keep, found)

  -- The text of the OCR is given only to the active owner of the document's case, and has no page
  -- unless the OCR of the document is completed; the database stays as it was.
  pub ocr_text_guarded :
      (document_id : ℕ) (ocr : DocumentOcrRead) (db' : Db)
      → read_document_ocr current case_id document_id db ≡ (ok ocr, db')
      → Owns current case_id db
        × (db' ≡ db)
        × ((d : DocumentRecord) × (find_where
                (is_own db.cases document_id case_id current.user_id)
                db.documents
              ≡ some d)
            × (ocr.ocr_status ≡ d.ocr_status)
            × ((d.ocr_status ≡ completed) ⊎ (ocr.pages ≡ [])))
  unfolding read_document_ocr
  ocr_text_guarded document_id ocr db' h =
      let (c, o, r) = bind-ok (own_case current case_id read_ocr) _ db db' h in
      let (owns, same) = own_case-Owns c.1 read_ocr {c = c.0} refl o in
      let (keep, found) = read document_id ocr c.1 db' same r in (owns, keep, found)

-- An active administrator.
abbrev pub IsActiveAdmin : CurrentUser → Type 0
IsActiveAdmin current = (current.actor.status ≡ active) × (current.actor.role ≡ admin)

module _ (now : ℕ) (current : CurrentUser) (id : ℕ) (reason : String) (context : RequestContext)
    (db : Db) where
  -- The database once an administrator's request is written: one audit event and one job.
  abbrev pub requested : AuditAction → Job → DocumentRecord → Db
  requested action job d = record db {
    audit_logs =
        db.audit_logs
        ++ audit_log_row (request_event current context action reason d) d.case_id now ∷ [];
    jobs = db.jobs ++ job ∷ [];
  }

  -- A request to reprocess a treatment is either refused with an error, and nothing changes, or it is
  -- an active administrator's, for a document in SCAN_FAILED, and leaves one audit event and one
  -- `document.reprocess` job, and no other change: the document is left to the worker.
  pub ask_reprocess_guarded :
      (sent : Bool)
      → ((e : Error) × (ask_reprocess now sent current id reason context db ≡ (err e, db)))
        ⊎ (IsActiveAdmin current
            × ((d : DocumentRecord) × (find_where (λ (d : DocumentRecord). d.id == id) db.documents
                  ≡ some d)
                × (d.status ≡ scan_failed)
                × (ask_reprocess now sent current id reason context db
                    ≡ (ok tt, requested document_reprocess_requested (document_reprocess d.id) d))))
  unfolding ask_reprocess can find_document_for_administration request_reprocess
  ask_reprocess_guarded sent =
      elim (Bool-cases (allowed (can current.actor reprocess current.user_id))) [
        | inr fails ↦ inl (not_found_error, ground arith)
        | inl allows ↦
            elim (Option-cases (find_where (λ (d : DocumentRecord). d.id == id) db.documents)) [
              | inl e ↦ inl (not_found_error, ground arith)
              | inr (d, e) ↦ elim (Bool-cases (is_scan_failed d.status)) [
                | inr fails ↦ inl (forbidden_error, ground arith)
                | inl holds ↦ elim (Bool-cases sent) [
                  | inr fails ↦ inl (failure job_not_enqueued, ground arith)
                  | inl taken ↦ inr (ground arith, (d, e, ground arith, ground arith))
                ]
              ]
            ]
      ]

  -- A request to reprocess an OCR is either refused with an error, and nothing changes, or it is an
  -- active administrator's, for a CLEAN document whose OCR has FAILED, and leaves one audit event and
  -- one `document.ocr-reprocess` job, and no other change.
  pub ask_ocr_reprocess_guarded :
      (sent : Bool)
      → ((e : Error) × (ask_ocr_reprocess now sent current id reason context db ≡ (err e, db)))
        ⊎ (IsActiveAdmin current
            × ((d : DocumentRecord) × (find_where (λ (d : DocumentRecord). d.id == id) db.documents
                  ≡ some d)
                × (d.status ≡ clean)
                × (d.ocr_status ≡ failed)
                × (ask_ocr_reprocess now sent current id reason context db ≡ (
                  ok tt,
                  requested document_ocr_reprocess_requested (document_ocr_reprocess d.id) d,
                ))))
  unfolding ask_ocr_reprocess can find_document_for_administration request_ocr_reprocess
  ask_ocr_reprocess_guarded sent =
      elim (Bool-cases (allowed (can current.actor reprocess_ocr current.user_id))) [
        | inr fails ↦ inl (not_found_error, ground arith)
        | inl allows ↦
            elim (Option-cases (find_where (λ (d : DocumentRecord). d.id == id) db.documents)) [
              | inl e ↦ inl (not_found_error, ground arith)
              | inr (d, e) ↦ elim (Bool-cases (is_clean d.status && is_failed d.ocr_status)) [
                | inr fails ↦ inl (forbidden_error, ground arith)
                | inl holds ↦ elim (Bool-cases sent) [
                  | inr fails ↦ inl (failure job_not_enqueued, ground arith)
                  | inl taken ↦ inr (ground arith, (d, e, ground arith, ground arith, ground arith))
                ]
              ]
            ]
      ]
