-- ===== src/Scan/Treatment.antt =====
-- apps/worker/src/scan/scan-document.ts: the `document.scan` job.
use Prim.Native.String.{String}
use legaltech_colombia.Prelude.{ℕ, Bool, not, Option, none, some, leb, ◌==◌, if◌then◌else◌, length}
use legaltech_colombia.Common.{
  Error, failure, size_mismatch, metadata_sanitization, Action, pure, throw, try_catch, throw_if,
  modify, ◌>>=◌, ◌>>◌,
}
use legaltech_colombia.Database.{DocumentFileType, pdf, jpeg, png, is_pdf, StorageKey, sanitized}
use legaltech_colombia.Sanitize.Bytes.{Bytes, Stripped, stripped, refused, exhausted}
use legaltech_colombia.Sanitize.Jpeg.{strip_jpeg_metadata}
use legaltech_colombia.Sanitize.Png.{strip_png_metadata}
use legaltech_colombia.World.{
  World, StorageProvider, ScanVerdict, clean_verdict, infected_verdict, orphan_object, add_log,
}
use legaltech_colombia.Scan.Repository.{ScanClaim}

-- `ScanRepository`, as calls in the world.
pub record ScanRepository : Type 0 where
  pub claim : ℕ → ℕ → Action World (Option ScanClaim)
  pub mark_clean : ScanClaim → Option StorageKey → Action World Bool
  pub mark_infected : ScanClaim → String → Action World Bool
  pub mark_failed : ScanClaim → Action World Bool
  pub release : ScanClaim → Action World Bool

pub record ScanDocumentDeps : Type 0 where
  pub repository : ScanRepository
  pub storage : StorageProvider
  pub scan : Bytes → Action World ScanVerdict
  pub max_attempts : ℕ
  pub lease_seconds : ℕ

pub data ScanOutcome : Type 0 where
  skipped clean infected failed lost : ScanOutcome

-- An error of the sanitizer is thrown; its fuel never runs out.
abbrev pub or_throw : Stripped → Action World Bytes
or_throw (stripped b) = pure b
or_throw refused = throw (failure metadata_sanitization)
or_throw exhausted = throw (failure metadata_sanitization)

-- The sanitizer of the claim's type; a PDF never comes here.
abbrev pub strip_metadata : DocumentFileType → Bytes → Stripped
strip_metadata jpeg content = strip_jpeg_metadata content
strip_metadata png content = strip_png_metadata content
strip_metadata pdf content = strip_png_metadata content

store_image : StorageProvider → ScanClaim → Bytes → Action World (Option StorageKey)
store_image storage c content = do
  body ← or_throw (strip_metadata c.file_type content)
  storage.put_object (sanitized c.storage_key) body
  pure (some (sanitized c.storage_key))

unfoldable pub store_sanitized_copy :
    StorageProvider → ScanClaim → Bytes → Action World (Option StorageKey)
unfolding store_image
store_sanitized_copy storage c content =
    if is_pdf c.file_type then pure none else store_image storage c content

-- A failure to remove the copy is logged, and is no error.
unfoldable pub remove_sanitized_copy : ScanDocumentDeps → ScanClaim → Action World (Unit {0})
remove_sanitized_copy deps c =
    if is_pdf c.file_type
    then pure tt
    else try_catch (deps.storage.delete_object (sanitized c.storage_key))
        (λ e. modify (add_log (orphan_object (sanitized c.storage_key))))

unfoldable pub conclude :
    ScanDocumentDeps → ScanClaim → Bytes → ScanVerdict → Action World ScanOutcome
unfolding store_sanitized_copy
conclude deps c content (infected_verdict signature) = do
  done ← deps.repository.mark_infected c signature
  pure (if done then infected else lost)
conclude deps c content clean_verdict = do
  key ← store_sanitized_copy deps.storage c content
  done ← deps.repository.mark_clean c key
  pure (if done then clean else lost)

-- What the `try` encloses.
unfoldable pub treatment : ScanDocumentDeps → ScanClaim → Action World ScanOutcome
unfolding conclude
treatment deps c = do
  content ← deps.storage.get_object c.storage_key
  throw_if (not (length content == c.file_size)) (failure size_mismatch)
  verdict ← deps.scan content
  conclude deps c content verdict

-- The two branches of the `catch`: no attempts left, and the job will be retried.
give_up : ScanDocumentDeps → ScanClaim → Action World ScanOutcome
unfolding remove_sanitized_copy
give_up deps c = do
  done ← deps.repository.mark_failed c
  if done then remove_sanitized_copy deps c else pure tt
  pure failed

retry_later : ScanDocumentDeps → ScanClaim → Error → Action World ScanOutcome
retry_later deps c e = do _ ← deps.repository.release c; throw e

unfoldable pub recover : ScanDocumentDeps → ScanClaim → Error → Action World ScanOutcome
unfolding give_up retry_later
recover deps c e = if leb deps.max_attempts c.attempts then give_up deps c else retry_later deps c e

unfoldable pub treat_claim : ScanDocumentDeps → Option ScanClaim → Action World ScanOutcome
unfolding treatment recover
treat_claim deps none = pure skipped
treat_claim deps (some c) = try_catch (treatment deps c) (recover deps c)

unfoldable pub scan_document : ScanDocumentDeps → ℕ → Action World ScanOutcome
unfolding treat_claim
scan_document deps id = do
  claim ← deps.repository.claim id deps.lease_seconds
  treat_claim deps claim
