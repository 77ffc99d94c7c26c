-- ===== src/Ocr/Outcome.antt =====
-- What the outcome of `ocrDocument` says, for any repository, storage and provider.
use legaltech_colombia.Prelude.{
  ◌<◌, ℕ, ◌≡◌, ◌≤◌, ◌⊎◌, inl, inr, refl, ◌∙◌, Bool, true, false, ◌&&◌, not, some, arith,
  if◌then◌else◌, Bool-cases,
}
use legaltech_colombia.Common.{ok}
use legaltech_colombia.Database.{permanent, transient, is_pdf}
use legaltech_colombia.World.{World, add_log, ocr_error}
use legaltech_colombia.Ocr.Repository.{OcrClaim}
use legaltech_colombia.Ocr.Execution.{
  OcrDocumentDeps, OcrJobOutcome, threw, OcrFailure, Execution, Locals, execute,
}
use legaltech_colombia.Ocr.Process.{
  ocr_document, conclude, representation_of, execution_of, is_final, retry_delay,
}

module _ (deps : OcrDocumentDeps) where
  -- A PDF that the worker may not process never reaches the storage nor the provider: all that the job
  -- does after the claim is to exclude it.
  pub pdf_kept_out :
      (id : ℕ) (c : OcrClaim) (w w1 w2 : World) (done : Bool)
      → deps.repository.claim id deps.lease_seconds w ≡ (ok (some c), w1)
      → is_pdf c.file_type ≡ true
      → deps.pdf_allowed ≡ false
      → deps.repository.mark_excluded c w1 ≡ (ok done, w2)
      → ocr_document deps id w
        ≡ (ok (if done then OcrJobOutcome.excluded else OcrJobOutcome.lost), w2)
  unfolding ocr_document
  pdf_kept_out id c w w1 w2 done claimed pdf closed mark = rw (claimed, pdf, closed, mark) refl

  -- The job of a claim that is processed, once the sequence inside `try` has ended.
  runs :
      (id : ℕ) (c : OcrClaim) (x : Execution) (w w1 w2 : World)
      → deps.repository.claim id deps.lease_seconds w ≡ (ok (some c), w1)
      → (is_pdf c.file_type && not deps.pdf_allowed) ≡ false
      → execute deps c (representation_of deps c) w1 ≡ (x, w2)
      → ocr_document deps id w ≡ conclude deps c (representation_of deps c) x w2
  unfolding ocr_document
  runs id c x w w1 w2 claimed open_ e = rw (claimed, open_, e) refl

  -- The log line of an error.
  abbrev pub logged : OcrClaim → OcrFailure → World → World
  logged c f w = add_log (ocr_error c.document_id f.code f.kind f.http_status c.attempts) w

  final-cases :
      (c : OcrClaim) (f : OcrFailure)
      → is_final deps c f ≡ true
      → (f.kind ≡ permanent) ⊎ (deps.max_attempts ≤ c.attempts)
  final-cases c f h = ground arith

  again-cases :
      (c : OcrClaim) (f : OcrFailure)
      → is_final deps c f ≡ false
      → (f.kind ≡ transient) × (c.attempts < deps.max_attempts)
  again-cases c f h = ground arith

  -- An execution that fails, when the repository's own calls answer: it is recorded as failed with the
  -- error's code when the error is permanent or the attempts are used up; otherwise, for a transient
  -- error with attempts left, the claim is released for a retry, after a delay of an hour at most. No
  -- error leaves the job.
  pub failed_execution :
      (id : ℕ) (c : OcrClaim) (f : OcrFailure) (l : Locals) (recorded released : Bool)
      (w w1 w2 w3 w4 : World)
      → deps.repository.claim id deps.lease_seconds w ≡ (ok (some c), w1)
      → (is_pdf c.file_type && not deps.pdf_allowed) ≡ false
      → execute deps c (representation_of deps c) w1 ≡ (record { result = threw f; locals = l }, w2)
      → deps.repository.mark_failed c
          (execution_of deps (representation_of deps c) l)
          f.code
          (logged c f w2)
        ≡ (ok recorded, w3)
      → deps.repository.release_for_retry c (retry_delay deps c) (logged c f w2) ≡ (ok released, w4)
      → (((f.kind ≡ permanent) ⊎ (deps.max_attempts ≤ c.attempts))
          × (ocr_document deps id w
              ≡ (ok (if recorded then OcrJobOutcome.failed else OcrJobOutcome.lost), w3)))
        ⊎ ((f.kind ≡ transient)
            × (c.attempts < deps.max_attempts)
            × (retry_delay deps c ≤ 3600)
            × (ocr_document deps id w
                ≡ (ok (if released then OcrJobOutcome.retry else OcrJobOutcome.lost), w4)))
  unfolding conclude
  failed_execution id c f l recorded released w w1 w2 w3 w4 claimed allowed e mark rel =
      let run = runs id c (record { result = threw f; locals = l }) w w1 w2 claimed allowed e in
      elim (Bool-cases (is_final deps c f)) [
        | inl final ↦ inl (final-cases c f final, run ∙ rw (final, mark) refl)
        | inr again ↦
            let (kind, left) = again-cases c f again in
            inr (kind, left, omega arith, run ∙ rw (again, rel) refl)
      ]
