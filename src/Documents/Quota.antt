-- ===== src/Documents/Quota.antt =====
-- The quota of a user's uploads, and what `createDocument` does to the database.
use legaltech_colombia.Prelude.{
  inl, ◌<◌, ◌==◌, inr, sym, ℕ, ◌≡◌, refl, true, false, Bool, arith, [], ◌∷◌, ◌++◌, any, ltb, ◌+◌,
  ◌≤◌, List, Bool-cases, DistinctBy, Absent, if◌then◌else◌,
}
use legaltech_colombia.Common.{job_not_enqueued, database_error, failure, Error, ok, err}
use legaltech_colombia.Database.{Db, DocumentRecord, CaseRecord, audit_log_row, document_scan}
use legaltech_colombia.Documents.Repository.{
  CreateDocumentInput, created, case_not_writable, quota_exceeded, create_document, new_document,
  is_writable, owns_case, is_of_user, sum_sizes, used_in,
}

abbrev pub case_id_of : CaseRecord → ℕ
case_id_of c = c.id

-- The database with the new row, its audit event and its job.
abbrev pub inserted : ℕ → CreateDocumentInput → Db → Db
inserted now input db = record db {
  documents = db.documents ++ new_document now input ∷ [];
  audit_logs =
      db.audit_logs ++ audit_log_row (input.audit (new_document now input)) input.case_id now ∷ [];
  jobs = db.jobs ++ document_scan input.id ∷ [];
}

-- What `createDocument` can do: write all, or nothing.
pub data Creation (now : ℕ) (sent : Bool) (input : CreateDocumentInput) (db : Db) : Type 0 where
  writes_all :
      any (is_writable input) db.cases ≡ true
      → used_in db input.user_id + input.file_size ≤ input.quota_bytes
      → any (λ (d : DocumentRecord). d.id == input.id) db.documents ≡ false
      → create_document now sent input db
        ≡ (ok (created (new_document now input)), inserted now input db)
      → Creation now sent input db
  refuses_case :
      any (is_writable input) db.cases ≡ false
      → create_document now sent input db ≡ (ok case_not_writable, db)
      → Creation now sent input db
  refuses_size :
      input.quota_bytes < used_in db input.user_id + input.file_size
      → create_document now sent input db ≡ (ok quota_exceeded, db)
      → Creation now sent input db
  throws :
      (e : Error) → create_document now sent input db ≡ (err e, db) → Creation now sent input db

-- A document is created whole or not at all: its row, the audit event and the `document.scan` job,
-- only in a writable case of the user and within the quota; every other end leaves the database as it
-- was, and says why.
pub create_document_atomic :
    (now : ℕ) (sent : Bool) (input : CreateDocumentInput) (db : Db) → Creation now sent input db
unfolding create_document
create_document_atomic now sent input db = elim (Bool-cases (any (is_writable input) db.cases)) [
  | inr no_case ↦ refuses_case no_case (ground arith)
  | inl owned ↦
      elim (Bool-cases (ltb input.quota_bytes (used_in db input.user_id + input.file_size))) [
        | inl large ↦ refuses_size (ground (arith, large)) (ground arith)
        | inr fits ↦
            elim (Bool-cases (any (λ (d : DocumentRecord). d.id == input.id) db.documents)) [
              | inl clash ↦ throws (failure database_error) (ground arith)
              | inr fresh ↦ elim (Bool-cases sent) [
                | inr lost ↦ throws (failure job_not_enqueued) (ground arith)
                | inl taken ↦ writes_all owned (ground (arith, fits)) fresh (ground arith)
              ]
            ]
      ]
]

sum_sizes-append :
    (p : DocumentRecord → Bool) (xs : List DocumentRecord) (d : DocumentRecord)
    → sum_sizes p (xs ++ d ∷ []) ≡ sum_sizes p xs + (if p d then d.file_size else 0)
sum_sizes-append p [] d = ground arith
sum_sizes-append p (x ∷ xs) d = ground (arith, sum_sizes-append p xs d)

writable-owns :
    (input : CreateDocumentInput) (cs : List CaseRecord)
    → any (is_writable input) cs ≡ true
    → any (owns_case input.user_id input.case_id) cs ≡ true
writable-owns input [] h = h
writable-owns input (c ∷ cs) h = ground (arith, writable-owns input cs)

Absent-owns :
    (user_id case_id : ℕ) (cs : List CaseRecord)
    → Absent case_id_of case_id cs
    → any (owns_case user_id case_id) cs ≡ false
Absent-owns user_id case_id [] a = refl
Absent-owns user_id case_id (c ∷ cs) a = ground (arith, a.0, Absent-owns user_id case_id cs a.1)

-- A case has one owner.
one_owner :
    (u v case_id : ℕ) (cs : List CaseRecord)
    → DistinctBy case_id_of cs
    → any (owns_case u case_id) cs ≡ true
    → any (owns_case v case_id) cs ≡ true
    → u ≡ v
one_owner u v case_id [] d h k = ground arith
one_owner u v case_id (c ∷ cs) d h k = ground (
  arith,
  one_owner u v case_id cs d.1,
  λ (e : c.id ≡ case_id). Absent-owns u case_id cs (rw (sym e) d.0),
  λ (e : c.id ≡ case_id). Absent-owns v case_id cs (rw (sym e) d.0),
)

used_in-inserted :
    (now : ℕ) (input : CreateDocumentInput) (db : Db) (user_id : ℕ)
    → used_in (inserted now input db) user_id
      ≡ used_in db user_id
        + (if any (owns_case user_id input.case_id) db.cases then input.file_size else 0)
used_in-inserted now input db user_id =
    sum_sizes-append (is_of_user db.cases user_id) db.documents (new_document now input)

inserted_size :
    (now : ℕ) (input : CreateDocumentInput) (db : Db)
    → any (is_writable input) db.cases ≡ true
    → used_in (inserted now input db) input.user_id ≡ used_in db input.user_id + input.file_size
inserted_size now input db owned =
    rw (used_in-inserted now input db input.user_id, writable-owns input db.cases owned) refl

-- A document that is created adds exactly its size to what its uploader uses, and that stays within
-- the quota.
pub created_size :
    (now : ℕ) (sent : Bool) (input : CreateDocumentInput) (db db' : Db) (d : DocumentRecord)
    → create_document now sent input db ≡ (ok (created d), db')
    → (used_in db' input.user_id ≡ used_in db input.user_id + input.file_size)
      × (used_in db' input.user_id ≤ input.quota_bytes)
created_size now sent input db db' d h = elim (create_document_atomic now sent input db) [
  | writes_all owned fits fresh e ↦
      let size = inserted_size now input db owned in
      let same : db' ≡ inserted now input db = ground arith in rw same (size, rw size fits)
  | refuses_case _ e ↦ ground arith
  | refuses_size _ e ↦ ground arith
  | throws x e ↦ ground arith
]

inserted_quota :
    (now : ℕ) (input : CreateDocumentInput) (db : Db) (user_id : ℕ)
    → DistinctBy case_id_of db.cases
    → any (is_writable input) db.cases ≡ true
    → used_in db input.user_id + input.file_size ≤ input.quota_bytes
    → used_in db user_id ≤ input.quota_bytes
    → used_in (inserted now input db) user_id ≤ input.quota_bytes
inserted_quota now input db user_id u owned fits h =
    elim (Bool-cases (any (owns_case user_id input.case_id) db.cases)) [
      | inl mine ↦
          let same =
            one_owner user_id input.user_id input.case_id db.cases u mine
              (writable-owns input db.cases owned) in
          rw (used_in-inserted now input db user_id, mine, same) fits
      | inr other ↦ rw (used_in-inserted now input db user_id, other) (ground arith)
    ]

-- The quota holds for everyone: whatever `createDocument` answers, a user who was within the quota
-- stays within it, the uploader and any other, as long as a case id has one row.
pub quota_kept :
    (now : ℕ) (sent : Bool) (input : CreateDocumentInput) (db : Db) (user_id : ℕ)
    → DistinctBy case_id_of db.cases
    → used_in db user_id ≤ input.quota_bytes
    → used_in (create_document now sent input db).1 user_id ≤ input.quota_bytes
quota_kept now sent input db user_id u h = elim (create_document_atomic now sent input db) [
  | writes_all owned fits fresh e ↦ rw e (inserted_quota now input db user_id u owned fits h)
  | refuses_case _ e ↦ rw e h
  | refuses_size _ e ↦ rw e h
  | throws x e ↦ rw e h
]
