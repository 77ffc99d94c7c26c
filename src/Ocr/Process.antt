-- ===== src/Ocr/Process.antt =====
-- apps/worker/src/ocr/ocr-document.ts: the `document.ocr` job.
use legaltech_colombia.Prelude.{
  ℕ, ◌*◌, ◌^◌, ◌-◌, min, Bool, true, false, ◌&&◌, ◌||◌, not, Option, none, some, leb, if◌then◌else◌,
  length,
}
use legaltech_colombia.Common.{Result, Action, pure, modify, ◌>>=◌, ◌>>◌}
use legaltech_colombia.Database.{
  is_pdf, OcrRepresentation, original, OcrErrorKind, transient, permanent,
}
use legaltech_colombia.World.{World, add_log, ocr_error}
use legaltech_colombia.Ocr.Repository.{OcrClaim, OcrExecution}
use legaltech_colombia.Ocr.Execution.{
  OcrFailure, OcrDocumentDeps, OcrJobOutcome, max_retry_delay_seconds, Locals, Execution, got,
  threw, execute, skipped, completed, failed, retry, lost, excluded,
}

abbrev pub execution_of : OcrDocumentDeps → OcrRepresentation → Locals → OcrExecution
execution_of deps r l = record {
  id = deps.new_id;
  engine = deps.provider.engine;
  engine_version = l.engine_version;
  representation = r;
  processed_sha256 = l.processed_sha256;
}

-- `min(retryDelaySeconds * 2 ** (attempts - 1), 3600)`; a claim has one attempt at least.
abbrev pub retry_delay : OcrDocumentDeps → OcrClaim → ℕ
retry_delay deps c = min (deps.retry_delay_seconds * 2 ^ (c.attempts - 1)) max_retry_delay_seconds

abbrev is_permanent : OcrErrorKind → Bool
is_permanent permanent = true
is_permanent transient = false

abbrev pub is_final : OcrDocumentDeps → OcrClaim → OcrFailure → Bool
is_final deps c f = is_permanent f.kind || leb deps.max_attempts c.attempts

fail_or_retry :
    OcrDocumentDeps
    → OcrClaim
    → OcrRepresentation
    → Locals
    → OcrFailure
    → Action World OcrJobOutcome
fail_or_retry deps c r l f =
    if is_final deps c f
    then (deps.repository.mark_failed c (execution_of deps r l) f.code >>= λ recorded.
        pure (if recorded then failed else lost))
    else (deps.repository.release_for_retry c (retry_delay deps c) >>= λ released.
        pure (if released then retry else lost))

-- The `catch` for an error, and what follows the `try` for pages.
unfoldable pub conclude :
    OcrDocumentDeps → OcrClaim → OcrRepresentation → Execution → Action World OcrJobOutcome
unfolding fail_or_retry
conclude deps c r x = elim x.result [
  | threw f ↦
      modify (add_log (ocr_error c.document_id f.code f.kind f.http_status c.attempts))
      >> fail_or_retry deps c r x.locals f
  | got texts ↦
      deps.repository.mark_completed c (execution_of deps r x.locals) (length texts) texts
      >>= λ recorded. pure (if recorded then completed else lost)
]

abbrev pub representation_of : OcrDocumentDeps → OcrClaim → OcrRepresentation
representation_of deps c = if is_pdf c.file_type then original else deps.image_representation

abbrev concluded : OcrDocumentDeps → OcrClaim → Execution × World → Result OcrJobOutcome × World
unfolding conclude
concluded deps c (x, w) = conclude deps c (representation_of deps c) x w

unfoldable pub process_claim : OcrDocumentDeps → Option OcrClaim → Action World OcrJobOutcome
unfolding conclude execute
process_claim deps none = pure skipped
process_claim deps (some c) =
    if is_pdf c.file_type && not deps.pdf_allowed
    then (deps.repository.mark_excluded c >>= λ done. pure (if done then excluded else lost))
    else λ w. concluded deps c (execute deps c (representation_of deps c) w)

unfoldable pub ocr_document : OcrDocumentDeps → ℕ → Action World OcrJobOutcome
unfolding process_claim
ocr_document deps id = do
  claim ← deps.repository.claim id deps.lease_seconds
  process_claim deps claim
