-- ===== src/Ocr/Fencing.antt =====
-- OCR claims exclude one another, and only the holder of the latest claim records a result.
use legaltech_colombia.Prelude.{
  ℕ, ◌<◌, ◌≤◌, ◌+◌, ◌*◌, ◌≡◌, refl, inl, inr, true, false, Bool, none, some, arith, Option-cases,
  count_where, find_where, find_where-none, update_where_none, claimed-none,
}
use legaltech_colombia.Common.{ok}
use legaltech_colombia.Database.{Db, DocumentRecord}
use legaltech_colombia.Scan.Fencing.{HasDistinctIds, id_of}
use legaltech_colombia.Ocr.Repository.{
  OcrClaim, OcrExecution, OcrEnd, claimable, claimed, claim, held, set_excluded, mark_excluded,
  released, release_for_retry, ended, finish,
}

held-names : (c : OcrClaim) (d : DocumentRecord) → held c d ≡ true → d.id ≡ c.document_id
held-names c d h = ground arith

claimable-names :
    (now lease id : ℕ) (d : DocumentRecord) → claimable now lease id d ≡ true → d.id ≡ id
claimable-names now lease id d h = ground arith

taken-not_held :
    (a : OcrClaim) (now lease : ℕ) (d : DocumentRecord)
    → a.token < now
    → claimable now lease a.document_id d ≡ true
    → held a (claimed now d) ≡ false
taken-not_held a now lease d later h = ground arith

taken-not_claimable :
    (now again lease id : ℕ) (d : DocumentRecord)
    → again ≤ now + lease * 1000000
    → claimable now lease id d ≡ true
    → claimable again lease id (claimed now d) ≡ false
taken-not_claimable now again lease id d fresh h = ground arith

finish-not_held :
    (now : ℕ) (c : OcrClaim) (x : OcrExecution) (r : OcrEnd) (db : Db)
    → count_where (held c) db.documents ≡ 0
    → finish now c x r db ≡ (ok false, db)
unfolding finish
finish-not_held now c x r db h = ground (arith, update_where_none (held c) (ended r) db.documents h)

retry-not_held :
    (sent : Bool) (c : OcrClaim) (delay : ℕ) (db : Db)
    → count_where (held c) db.documents ≡ 0
    → release_for_retry sent c delay db ≡ (ok false, db)
unfolding release_for_retry
retry-not_held sent c delay db h =
    ground (arith, update_where_none (held c) released db.documents h)

excluded-not_held :
    (c : OcrClaim) (db : Db)
    → count_where (held c) db.documents ≡ 0
    → mark_excluded c db ≡ (ok false, db)
unfolding mark_excluded
excluded-not_held c db h = ground (arith, update_where_none (held c) set_excluded db.documents h)

-- After a claim, the rows satisfy no condition that names the document and fails on claimed rows.
claim-none :
    (now lease id : ℕ) (b : OcrClaim) (db db' : Db) (p : DocumentRecord → Bool)
    → HasDistinctIds db
    → claim now id lease db ≡ (ok (some b), db')
    → ((d : DocumentRecord) → p d ≡ true → d.id ≡ id)
    → ((d : DocumentRecord) → claimable now lease id d ≡ true → p (claimed now d) ≡ false)
    → count_where p db'.documents ≡ 0
unfolding claim
claim-none now lease id b db db' p u e names loses =
    elim (Option-cases (find_where (claimable now lease id) db.documents)) [
      | inl missing ↦ ground arith
      | inr (d, found) ↦
          let gone =
            claimed-none id_of id (claimable now lease id) p (claimed now) (λ d. refl)
              (claimable-names now lease id) names loses db.documents {d = d} u found in
          ground (arith, gone)
    ]

-- When a second worker has claimed the document for its OCR, at a later instant, the first can record
-- no end, ask for no retry and exclude nothing: its statements answer false and change nothing.
pub stale_ocr_claim_loses :
    (a b : OcrClaim) (now lease later delay : ℕ) (sent : Bool) (x : OcrExecution) (r : OcrEnd)
    (db db' : Db)
    → HasDistinctIds db
    → claim now a.document_id lease db ≡ (ok (some b), db')
    → a.token < now
    → (finish later a x r db' ≡ (ok false, db'))
      × (release_for_retry sent a delay db' ≡ (ok false, db'))
      × (mark_excluded a db' ≡ (ok false, db'))
stale_ocr_claim_loses a b now lease later delay sent x r db db' u e less =
    let gone =
      claim-none now lease a.document_id b db db' (held a) u e (held-names a)
        (λ d h. taken-not_held a now lease d less h) in
    (
      finish-not_held later a x r db' gone,
      retry-not_held sent a delay db' gone,
      excluded-not_held a db' gone,
    )

-- While the lease of an OCR claim runs, a second claim of the document finds nothing and changes
-- nothing.
pub ocr_claim_exclusive :
    (now again lease id : ℕ) (a : OcrClaim) (db db' : Db)
    → HasDistinctIds db
    → claim now id lease db ≡ (ok (some a), db')
    → again ≤ now + lease * 1000000
    → claim again id lease db' ≡ (ok none, db')
unfolding claim
ocr_claim_exclusive now again lease id a db db' u e fresh =
    let gone =
      claim-none now lease id a db db' (claimable again lease id) u e
        (claimable-names again lease id)
        (λ d h. taken-not_claimable now again lease id d fresh h) in
    ground (
      arith,
      gone,
      find_where-none (claimable again lease id) db'.documents,
      update_where_none (claimable again lease id) (claimed again) db'.documents,
    )
