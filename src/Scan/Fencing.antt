-- ===== src/Scan/Fencing.antt =====
-- Claims exclude one another, and only the holder of the latest claim records a result.
use legaltech_colombia.Prelude.{
  claimed-none, Bool, ℕ, ◌<◌, ◌≡◌, refl, inl, inr, true, false, Option, some, arith, Option-cases,
  count_where, find_where, update_where_none, DistinctBy,
}
use legaltech_colombia.Common.{ok}
use legaltech_colombia.Database.{Db, DocumentRecord}
use legaltech_colombia.Scan.Repository.{
  ScanClaim, claimable, claimed, claim, held, release, released, ScanResult, ScanOcrActivation,
  ocr_status_for, finished, finish,
}

abbrev pub HasDistinctIds : Db → Type 0
HasDistinctIds db = DistinctBy (λ (d : DocumentRecord). d.id) db.documents

pub held-names : (c : ScanClaim) (d : DocumentRecord) → held c d ≡ true → d.id ≡ c.document_id
held-names c d h = ground arith

pub claimable-names :
    (now lease id : ℕ) (d : DocumentRecord) → claimable now lease id d ≡ true → d.id ≡ id
claimable-names now lease id d h = ground arith

pub claimed-keeps : (now : ℕ) (d : DocumentRecord) → (claimed now d).id ≡ d.id
claimed-keeps now d = refl

abbrev pub id_of : DocumentRecord → ℕ
id_of d = d.id

taken-not_held :
    (a : ScanClaim) (now lease : ℕ) (d : DocumentRecord)
    → a.token < now
    → claimable now lease a.document_id d ≡ true
    → held a (claimed now d) ≡ false
taken-not_held a now lease d later h = ground arith

-- After a claim, the rows satisfy no condition that names the document and fails on claimed rows.
pub claim-none :
    (now lease id : ℕ) (b : ScanClaim) (db db' : Db) (p : DocumentRecord → Bool)
    → HasDistinctIds db
    → claim now id lease db ≡ (ok (some b), db')
    → ((d : DocumentRecord) → p d ≡ true → d.id ≡ id)
    → ((d : DocumentRecord) → claimable now lease id d ≡ true → p (claimed now d) ≡ false)
    → count_where p db'.documents ≡ 0
unfolding claim
claim-none now lease id b db db' p u e names loses =
    elim (Option-cases (find_where (claimable now lease id) db.documents)) [
      | inl missing ↦ ground arith
      | inr (d, found) ↦
          let gone =
            claimed-none id_of id (claimable now lease id) p (claimed now) (claimed-keeps now)
              (claimable-names now lease id) names loses db.documents {d = d} u found in
          ground (arith, gone)
    ]

-- A statement on a claim that no row holds changes nothing.
pub finish-not_held :
    (now : ℕ) (ocr : Option ScanOcrActivation) (c : ScanClaim) (r : ScanResult) (db : Db)
    → count_where (held c) db.documents ≡ 0
    → finish now ocr c r db ≡ (ok false, db)
unfolding finish
finish-not_held now ocr c r db h =
    ground
      (arith, update_where_none (held c) (finished now r (ocr_status_for ocr c r)) db.documents h)

pub release-not_held :
    (c : ScanClaim) (db : Db)
    → count_where (held c) db.documents ≡ 0
    → release c db ≡ (ok false, db)
unfolding release
release-not_held c db h = ground (arith, update_where_none (held c) released db.documents h)

-- When a second worker has claimed the document, at a later instant, the first can neither record
-- a result nor release it: its statements answer false and change nothing.
pub stale_claim_loses :
    (a b : ScanClaim) (now lease later : ℕ) (ocr : Option ScanOcrActivation) (r : ScanResult)
    (db db' : Db)
    → HasDistinctIds db
    → claim now a.document_id lease db ≡ (ok (some b), db')
    → a.token < now
    → (finish later ocr a r db' ≡ (ok false, db')) × (release a db' ≡ (ok false, db'))
stale_claim_loses a b now lease later ocr r db db' u e h =
    let gone =
      claim-none now lease a.document_id b db db' (held a) u e (held-names a)
        (λ d k. taken-not_held a now lease d h k) in
    (finish-not_held later ocr a r db' gone, release-not_held a db' gone)
