-- ===== src/Lifecycle/OcrStatements.antt =====
-- What each statement of the OCR does to the table of documents.
use legaltech_colombia.Prelude.{ℕ, ◌≡◌, refl, ◌⊎◌, Bool, arith, update_where}
use legaltech_colombia.Database.{Db}
use legaltech_colombia.Ocr.Repository.{
  OcrClaim, OcrEnd, OcrExecution, claimable, claimed, claim, held, set_excluded, mark_excluded,
  released, release_for_retry, ended, finish,
}
use legaltech_colombia.Ocr.Recovery.{reprocessable, renewed, reprocess_ocr}
use legaltech_colombia.Ocr.Activation.{old_clean, old_infected, set_not_applicable, activate_ocr}
use legaltech_colombia.Ocr.Activation
use legaltech_colombia.Ocr.Invariant.{
  claimed-IsSound, excluded-IsSound, released-IsSound, ended-IsSound, renewed-IsSound,
  old_clean-IsSound, old_infected-IsSound,
}
use legaltech_colombia.Lifecycle.Rows.{Change, both, updates, Change-or, keeps}

module _ (db : Db) where
  pub ocr_claim-Change :
      (now id lease : ℕ) → Change db.documents (claim now id lease db).1.documents
  unfolding claim
  ocr_claim-Change now id lease =
      updates (claimable now lease id) (claimed now) (keeps _ (λ d. refl) (λ d. refl) (λ d. refl))
        (claimed-IsSound now lease id) db.documents

  pub mark_excluded-Change : (c : OcrClaim) → Change db.documents (mark_excluded c db).1.documents
  unfolding mark_excluded
  mark_excluded-Change c =
      updates (held c) set_excluded (keeps _ (λ d. refl) (λ d. refl) (λ d. refl))
        (excluded-IsSound c) db.documents

  retry-documents :
      (sent : Bool) (c : OcrClaim) (delay : ℕ)
      → ((release_for_retry sent c delay db).1.documents ≡ db.documents)
        ⊎ ((release_for_retry sent c delay db).1.documents
            ≡ update_where (held c) released db.documents)
  unfolding release_for_retry
  retry-documents sent c delay = ground arith

  pub release_for_retry-Change :
      (sent : Bool) (c : OcrClaim) (delay : ℕ)
      → Change db.documents (release_for_retry sent c delay db).1.documents
  release_for_retry-Change sent c delay =
      Change-or db.documents _ _ (retry-documents sent c delay) (
        updates (held c) released (keeps _ (λ d. refl) (λ d. refl) (λ d. refl)) (released-IsSound c)
          db.documents)

  finish-documents :
      (now : ℕ) (c : OcrClaim) (x : OcrExecution) (r : OcrEnd)
      → ((finish now c x r db).1.documents ≡ db.documents)
        ⊎ ((finish now c x r db).1.documents ≡ update_where (held c) (ended r) db.documents)
  unfolding finish
  finish-documents now c x r = ground arith

  pub ocr_finish-Change :
      (now : ℕ) (c : OcrClaim) (x : OcrExecution) (r : OcrEnd)
      → Change db.documents (finish now c x r db).1.documents
  ocr_finish-Change now c x r = Change-or db.documents _ _ (finish-documents now c x r) (
      updates (held c) (ended r) (keeps _ (λ d. refl) (λ d. refl) (λ d. refl)) (ended-IsSound c r)
        db.documents)

  reprocess-documents :
      (now : ℕ) (sent : Bool) (id : ℕ)
      → ((reprocess_ocr now sent id db).1.documents ≡ db.documents)
        ⊎ ((reprocess_ocr now sent id db).1.documents
            ≡ update_where (reprocessable id) renewed db.documents)
  unfolding reprocess_ocr
  reprocess-documents now sent id = ground arith

  pub ocr_reprocess-Change :
      (now : ℕ) (sent : Bool) (id : ℕ)
      → Change db.documents (reprocess_ocr now sent id db).1.documents
  ocr_reprocess-Change now sent id = Change-or db.documents _ _ (reprocess-documents now sent id) (
      updates (reprocessable id) renewed (keeps _ (λ d. refl) (λ d. refl) (λ d. refl))
        (renewed-IsSound id) db.documents)

  activate-documents :
      ((activate_ocr db).1.documents ≡ db.documents)
      ⊎ ((activate_ocr db).1.documents
          ≡ update_where old_infected set_not_applicable
              (update_where old_clean Activation.set_excluded db.documents))
  unfolding activate_ocr
  activate-documents = ground arith

  pub activate-Change : Change db.documents (activate_ocr db).1.documents
  activate-Change = Change-or db.documents _ _ activate-documents (
      both
        (updates old_clean Activation.set_excluded (keeps _ (λ d. refl) (λ d. refl) (λ d. refl))
          old_clean-IsSound db.documents)
        (updates old_infected set_not_applicable (keeps _ (λ d. refl) (λ d. refl) (λ d. refl))
          old_infected-IsSound _))
