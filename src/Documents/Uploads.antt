-- ===== src/Documents/Uploads.antt =====
-- What an upload leaves behind, for any storage.
use legaltech_colombia.Documents.FileType.{detect_file_type}
use legaltech_colombia.Prelude.{
  ap, ◌+◌, ◌≤◌, ltb, false, ◌==◌, some, length, true, not, Option, sym, ◌∙◌, arith, ℕ, ◌≡◌, ◌⊎◌,
  inl, inr, refl,
}
use legaltech_colombia.Common.{try_catch, modify, Error, ok, err, RequestContext, Action, Result}
use legaltech_colombia.Common.Runs.{throw_if-ok, bind-ok, catch-cases}
use legaltech_colombia.Database.{
  is_draft, CaseRecord, DocumentRecord, DocumentFileType, StorageKey, document_key,
}
use legaltech_colombia.World.{not_stored, World, StorageProvider, on_db, add_log, orphan_object}
use legaltech_colombia.Cases.Service.{not_found_error, CurrentUser}
use legaltech_colombia.Documents.Policy.{upload}
use legaltech_colombia.Documents.Repository.{
  used_bytes, CreateDocumentResult, created, case_not_writable, quota_exceeded, create_document,
}
use legaltech_colombia.Documents.Service.{
  document_quota_bytes, forbidden_error, or_unsupported, own_case, upload_document,
  to_public_document, after_failed_create, Document, after_failed_put, quota_error, UploadSetting,
  UploadedFile, upload_input, remove_orphan, answer, store_and_create,
}

-- The object is gone, or the log has its key.
abbrev pub Removed : StorageProvider → StorageKey → World → World → Type 0
Removed storage key w w' =
    (storage.delete_object key w ≡ (ok tt, w'))
    ⊎ ((q : Error × World) × (storage.delete_object key w ≡ (err q.0, q.1))
        × (w' ≡ add_log (orphan_object key) q.1))

remove-Removed :
    (storage : StorageProvider) (key : StorageKey) (w : World)
    → (w' : World) × (remove_orphan storage key w ≡ (ok tt, w')) × Removed storage key w w'
unfolding remove_orphan
remove-Removed storage key w =
    elim (catch-cases (storage.delete_object key) (λ e. modify (add_log (orphan_object key))) w) [
      | inl (q, t, f) ↦ (q.1, f, inl t)
      | inr (q, t, f) ↦ (add_log (orphan_object key) q.1, f, inr (q, t, refl))
    ]

module _ (storage : StorageProvider) (s : UploadSetting) (current : CurrentUser) (case_id : ℕ)
    (file : UploadedFile) (context : RequestContext) (type : DocumentFileType) where
  -- The transaction of an upload.
  abbrev pub creation : Action World CreateDocumentResult
  creation = on_db (create_document s.now s.sent (upload_input s current case_id file type context))

  -- An upload whose object was stored but whose row was not written leaves no object without a row:
  -- the object is removed, or its key is in the log; and the upload throws.
  pub no_silent_orphan :
      (w w1 w2 : World) (r : Result CreateDocumentResult)
      → storage.put_object (document_key case_id s.id) file.content w ≡ (ok tt, w1)
      → creation w1 ≡ (r, w2)
      → ((d : DocumentRecord) × (r ≡ ok (created d)))
        ⊎ ((q : Error × World) × (store_and_create storage s current case_id file context type w
              ≡ (err q.0, q.1))
            × Removed storage (document_key case_id s.id) w2 q.1)
  unfolding store_and_create answer
  no_silent_orphan w w1 w2 (ok (created d)) put make = inl (d, refl)
  no_silent_orphan w w1 w2 (ok case_not_writable) put make =
      let (w3, f, gone) = remove-Removed storage (document_key case_id s.id) w2 in
      inr ((not_found_error, w3), rw (put, make, f) refl, gone)
  no_silent_orphan w w1 w2 (ok quota_exceeded) put make =
      let (w3, f, gone) = remove-Removed storage (document_key case_id s.id) w2 in
      inr ((quota_error, w3), rw (put, make, f) refl, gone)
  no_silent_orphan w w1 w2 (err e) put make =
      let (w3, f, gone) = remove-Removed storage (document_key case_id s.id) w2 in
      inr ((e, w3), rw (put, make, f) refl, gone)

  -- The error of a write to storage is never swallowed.
  stored-put :
      (w w1 : World)
      → try_catch
          (storage.put_object (document_key case_id s.id) file.content)
          (λ e. after_failed_put storage (document_key case_id s.id))
          w
        ≡ (ok tt, w1)
      → storage.put_object (document_key case_id s.id) file.content w ≡ (ok tt, w1)
  unfolding after_failed_put
  stored-put w w1 h =
      elim (catch-cases (storage.put_object (document_key case_id s.id) file.content)
        (λ e. after_failed_put storage (document_key case_id s.id)) w) [
          | inl (q, t, f) ↦ t ∙ (sym f ∙ h)
          | inr (q, t, f) ↦
              let (w3, gone, _) =
                remove-Removed storage (document_key case_id s.id)
                  (add_log (not_stored (document_key case_id s.id)) q.1) in
              absurd (put-throws q.1 w1 w3 gone (sym f ∙ h))
        ]
    where
      put-throws :
          (w w1 w3 : World)
          → remove_orphan storage
              (document_key case_id s.id)
              (add_log (not_stored (document_key case_id s.id)) w)
            ≡ (ok tt, w3)
          → after_failed_put storage (document_key case_id s.id) w ≡ (ok tt, w1)
          → ⊥
      put-throws w w1 w3 gone h = cc

  created-creation :
      (w w1 : World) (r : CreateDocumentResult)
      → try_catch creation (after_failed_create storage (document_key case_id s.id)) w ≡ (ok r, w1)
      → creation w ≡ (ok r, w1)
  unfolding after_failed_create
  created-creation w w1 r h =
      elim (catch-cases creation (after_failed_create storage (document_key case_id s.id)) w) [
        | inl (q, t, f) ↦ t ∙ (sym f ∙ h)
        | inr (q, t, f) ↦
            let (w3, gone, _) = remove-Removed storage (document_key case_id s.id) q.1 in
            absurd (create-throws q.0 q.1 w3 gone (sym f ∙ h))
      ]
    where
      create-throws :
          (e : Error) (w w3 : World)
          → remove_orphan storage (document_key case_id s.id) w ≡ (ok tt, w3)
          → after_failed_create storage (document_key case_id s.id) e w ≡ (ok r, w1)
          → ⊥
      create-throws e w w3 gone h = cc

  refuses :
      (w w3 w' : World) (document : Document)
      → answer storage (document_key case_id s.id) case_not_writable w ≡ (ok document, w')
      → remove_orphan storage (document_key case_id s.id) w ≡ (ok tt, w3)
      → ⊥
  unfolding answer
  refuses w w3 w' document h gone = cc

  exceeds :
      (w w3 w' : World) (document : Document)
      → answer storage (document_key case_id s.id) quota_exceeded w ≡ (ok document, w')
      → remove_orphan storage (document_key case_id s.id) w ≡ (ok tt, w3)
      → ⊥
  unfolding answer
  exceeds w w3 w' document h gone = cc

  answer-created :
      (r : CreateDocumentResult) (w w' : World) (document : Document)
      → answer storage (document_key case_id s.id) r w ≡ (ok document, w')
      → (d : DocumentRecord) × (r ≡ created d) × (document ≡ to_public_document d) × (w' ≡ w)
  unfolding answer
  answer-created (created d) w w' document h = (d, refl, ground arith, ground arith)
  answer-created case_not_writable w w' document h =
      let (w3, gone, _) = remove-Removed storage (document_key case_id s.id) w in
      absurd (refuses w w3 w' document h gone)
  answer-created quota_exceeded w w' document h =
      let (w3, gone, _) = remove-Removed storage (document_key case_id s.id) w in
      absurd (exceeds w w3 w' document h gone)

  store_and_create-run :
      (w w' : World) (document : Document)
      → store_and_create storage s current case_id file context type w ≡ (ok document, w')
      → (row : DocumentRecord) × (w1 : World) × (storage.put_object
            (document_key case_id s.id)
            file.content
            w
          ≡ (ok tt, w1))
        × (creation w1 ≡ (ok (created row), w'))
        × (document ≡ to_public_document row)
  unfolding store_and_create
  store_and_create-run w w' document h =
      let (p, put, r) =
        bind-ok
          (try_catch (storage.put_object (document_key case_id s.id) file.content)
            (λ e. after_failed_put storage (document_key case_id s.id)))
          _ w w' h in
      let (k, made, r2) =
        bind-ok (try_catch creation (after_failed_create storage (document_key case_id s.id))) _ p.1
          w' r in
      let (row, is, answered, same) = answer-created k.0 k.1 w' document r2 in
      (
        row,
        p.1,
        stored-put w p.1 put,
        rw (sym is, same) (created-creation p.1 k.1 k.0 made),
        answered,
      )

supported :
    (o : Option DocumentFileType) (type : DocumentFileType) (w w' : World)
    → or_unsupported o w ≡ (ok type, w')
    → (o ≡ some type) × (w' ≡ w)
supported o type w w' h = ground arith

reads_used : (user_id n : ℕ) (w w' : World) → on_db (used_bytes user_id) w ≡ (ok n, w') → w' ≡ w
unfolding used_bytes
reads_used user_id n w w' h = ground arith

-- A whole upload, call by call: an owned DRAFT case, a content of an allowed type and size, the object
-- stored, and then the row recorded.
pub record UploadRun (storage : StorageProvider) (s : UploadSetting) (current : CurrentUser)
    (case_id : ℕ) (file : UploadedFile) (context : RequestContext) (w w' : World)
    (document : Document) : Type 0 where
  pub owned : CaseRecord
  pub type : DocumentFileType
  pub row : DocumentRecord
  pub w0 : World
  pub w1 : World
  pub owns : on_db (own_case current case_id upload) w ≡ (ok owned, w0)
  pub writable : is_draft owned.status ≡ true
  pub nonempty : (length file.content == 0) ≡ false
  pub small : length file.content ≤ s.limit
  pub typed : detect_file_type file.content ≡ some type
  pub stored : storage.put_object (document_key case_id s.id) file.content w0 ≡ (ok tt, w1)
  pub recorded : creation storage s current case_id file context type w1 ≡ (ok (created row), w')
  pub answered : document ≡ to_public_document row

-- An upload that answers did everything: the case was the caller's and a DRAFT, the content was of an
-- allowed type, not empty and within the limit, the object was stored under the document's key before
-- the row, and the answer is the row that was recorded.
pub upload_outcome :
    (storage : StorageProvider) (s : UploadSetting) (current : CurrentUser) (case_id : ℕ)
    (file : UploadedFile) (context : RequestContext) (w w' : World) (document : Document)
    → upload_document storage s current case_id file context w ≡ (ok document, w')
    → UploadRun storage s current case_id file context w w' document
unfolding upload_document
upload_outcome storage s current case_id file context w w' document h =
    let (c, owns, r1) = bind-ok (on_db (own_case current case_id upload)) _ w w' h in
    let (draft, r2) = throw_if-ok (not (is_draft c.0.status)) forbidden_error _ c.1 w' r1 in
    let (nonempty, r3) = throw_if-ok (length file.content == 0) _ _ c.1 w' r2 in
    let (small, r4) = throw_if-ok (ltb s.limit (length file.content)) _ _ c.1 w' r3 in
    let (t, typed, r5) = bind-ok (or_unsupported (detect_file_type file.content)) _ c.1 w' r4 in
    let (detected, same) = supported (detect_file_type file.content) t.0 c.1 t.1 typed in
    let (u, used, r6) = bind-ok (on_db (used_bytes current.user_id)) _ t.1 w' r5 in
    let (room, r7) =
      throw_if-ok (ltb document_quota_bytes (u.0 + length file.content)) quota_error _ u.1 w' r6 in
    let (row, w1, put, made, answered) =
      store_and_create-run storage s current case_id file context t.0 u.1 w' document r7 in
    record {
      owned = c.0;
      type = t.0;
      row = row;
      w0 = u.1;
      w1 = w1;
      owns =
          owns ∙ ap (λ x. (ok c.0, x)) (sym (reads_used current.user_id u.0 t.1 u.1 used ∙ same));
      writable = ground arith;
      nonempty = nonempty;
      small = ground arith;
      typed = detected;
      stored = put;
      recorded = made;
      answered = answered;
    }
