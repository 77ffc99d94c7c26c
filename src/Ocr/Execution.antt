-- ===== src/Ocr/Execution.antt =====
-- apps/worker/src/ocr/ocr-provider.ts, normalize-text.ts and the part of ocr-document.ts that reads
-- the document and asks the provider.
-- A text is the list of its UTF-16 units. The provider, the SHA-256 and Unicode's NFC are parameters.
use Prim.Native.String.{String}
use legaltech_colombia.Prelude.{
  ℕ, Bool, true, false, ◌&&◌, not, Option, none, some, List, [], ◌∷◌, map, any, ltb, ◌==◌,
  if◌then◌else◌, length,
}
use legaltech_colombia.Common.{Error, failure, object_not_found, Result, ok, err, Action}
use legaltech_colombia.Database.{
  DocumentFileType, StorageKey, OcrRepresentation, original, sanitized_copy, OcrErrorKind,
  transient, permanent, OcrErrorCode, provider_error, too_many_pages, invalid_response,
  object_missing, object_mismatch, storage_unavailable,
}
use legaltech_colombia.Sanitize.Bytes.{Bytes}
use legaltech_colombia.World.{World, StorageProvider}
use legaltech_colombia.Ocr.Repository.{OcrClaim, OcrExecution}

abbrev pub Text : Type 0
Text = List ℕ

-- `OcrProviderError`
pub record OcrFailure : Type 0 where
  pub kind : OcrErrorKind
  pub code : OcrErrorCode
  pub http_status : Option ℕ

-- An entry that is not a string is `none`, and so are pages that are no array.
pub record OcrOutput : Type 0 where
  pub pages : Option (List (Option Text))
  pub engine_version : Option String

pub data OcrAnswer : Type 0 where
  output : OcrOutput → OcrAnswer
  provider_failed : OcrFailure → OcrAnswer
  other_error : OcrAnswer

pub record OcrInput : Type 0 where
  pub content : Bytes
  pub content_type : DocumentFileType
  pub max_pages : ℕ

pub record OcrProvider : Type 0 where
  pub engine : String
  pub recognize : OcrInput → World → OcrAnswer × World

-- `OcrRepository`, as calls in the world.
pub record OcrRepository : Type 0 where
  pub claim : ℕ → ℕ → Action World (Option OcrClaim)
  pub mark_completed : OcrClaim → OcrExecution → ℕ → List Text → Action World Bool
  pub mark_failed : OcrClaim → OcrExecution → OcrErrorCode → Action World Bool
  pub release_for_retry : OcrClaim → ℕ → Action World Bool
  pub mark_excluded : OcrClaim → Action World Bool

pub record OcrDocumentDeps : Type 0 where
  pub repository : OcrRepository
  pub storage : StorageProvider
  pub provider : OcrProvider
  pub image_representation : OcrRepresentation
  pub pdf_allowed : Bool
  pub max_attempts : ℕ
  pub lease_seconds : ℕ
  pub max_pages : ℕ
  pub retry_delay_seconds : ℕ
  pub new_id : ℕ
  pub sha256 : Bytes → ℕ
  pub nfc : Text → Text

pub data OcrJobOutcome : Type 0 where
  skipped completed failed retry lost excluded : OcrJobOutcome

abbrev pub max_retry_delay_seconds : ℕ
max_retry_delay_seconds = 3600

-- `replace(/\r\n?/g, "\n")`
unfoldable pub unix_lines : Text → Text
unix_lines [] = []
unix_lines (c ∷ []) = (if c == 13 then 10 else c) ∷ []
unix_lines (c ∷ d ∷ ds) =
    let rest = unix_lines (d ∷ ds) in
    let after = unix_lines ds in
    if c == 13 then 10 ∷ (if d == 10 then after else rest) else c ∷ rest

unfoldable pub normalize_ocr_text : (Text → Text) → Text → Text
unfolding unix_lines
normalize_ocr_text nfc text = unix_lines (nfc text)

-- A value, or an error of the `try`.
pub data Attempt (A : Type 0) : Type 0 where
  got : A → Attempt A
  threw : OcrFailure → Attempt A

abbrev pub fails : OcrErrorKind → OcrErrorCode → OcrFailure
fails kind code = record { kind = kind; code = code; http_status = none }

abbrev pub key_of : OcrClaim → OcrRepresentation → Option StorageKey
key_of c original = some c.storage_key
key_of c sanitized_copy = c.sanitized_storage_key

abbrev is_original : OcrRepresentation → Bool
is_original original = true
is_original sanitized_copy = false

abbrev read_error : Error → OcrFailure
read_error (failure object_not_found) = fails permanent object_missing
read_error e = fails transient storage_unavailable

abbrev checked : OcrClaim → OcrRepresentation → Result Bytes × World → Attempt Bytes × World
checked c r (err e, w) = (threw (read_error e), w)
checked c r (ok content, w) = (
  if is_original r && not (length content == c.file_size)
      then threw (fails permanent object_mismatch)
      else got content,
  w,
)

abbrev read_key :
    StorageProvider
    → OcrClaim
    → OcrRepresentation
    → Option StorageKey
    → World
    → Attempt Bytes × World
read_key storage c r none w = (threw (fails permanent object_missing), w)
read_key storage c r (some key) w = checked c r (storage.get_object key w)

unfoldable pub read_representation :
    StorageProvider → OcrClaim → OcrRepresentation → World → Attempt Bytes × World
read_representation storage c r w = read_key storage c r (key_of c r) w

abbrev with_text : Text → Option (List Text) → Option (List Text)
with_text t none = none
with_text t (some ts) = some (t ∷ ts)

abbrev pub strings : List (Option Text) → Option (List Text)
strings [] = some []
strings (none ∷ ps) = none
strings (some t ∷ ps) = with_text t (strings ps)

abbrev pub has_nul : Text → Bool
has_nul t = any (λ c. c == 0) t

abbrev texts_of : Option (List Text) → Attempt (List Text)
texts_of none = threw (fails transient invalid_response)
texts_of (some texts) =
    if any has_nul texts then threw (fails permanent invalid_response) else got texts

-- The checks of `recognize`.
abbrev pub valid_pages : Option (List (Option Text)) → Attempt (List Text)
valid_pages none = threw (fails transient invalid_response)
valid_pages (some []) = threw (fails transient invalid_response)
valid_pages (some (p ∷ ps)) = texts_of (strings (p ∷ ps))

-- The local variables that the `catch` reads.
pub record Locals : Type 0 where
  pub processed_sha256 : Option ℕ
  pub engine_version : Option String

pub record Execution : Type 0 where
  pub result : Attempt (List Text)
  pub locals : Locals

abbrev pub nothing_known : Locals
nothing_known = record { processed_sha256 = none; engine_version = none }

abbrev within_pages : OcrDocumentDeps → Locals → Option String → Attempt (List Text) → Execution
within_pages deps l version (threw f) = record { result = threw f; locals = l }
within_pages deps l version (got texts) = record {
  result =
      if ltb deps.max_pages (length texts)
      then threw (fails permanent too_many_pages)
      else got (map (normalize_ocr_text deps.nfc) texts);
  locals = record l { engine_version = version };
}

-- `classify`: an error that is not the provider's own class becomes `provider_error`.
abbrev pub answered : OcrDocumentDeps → Locals → OcrAnswer × World → Execution × World
answered deps l (output o, w) = (within_pages deps l o.engine_version (valid_pages o.pages), w)
answered deps l (provider_failed f, w) = (record { result = threw f; locals = l }, w)
answered deps l (other_error, w) =
    (record { result = threw (fails transient provider_error); locals = l }, w)

abbrev recognized : OcrDocumentDeps → OcrClaim → Attempt Bytes × World → Execution × World
recognized deps c (threw f, w) = (record { result = threw f; locals = nothing_known }, w)
recognized deps c (got content, w) =
    answered deps (record { processed_sha256 = some (deps.sha256 content); engine_version = none })
      (deps.provider.recognize
        (record { content = content; content_type = c.file_type; max_pages = deps.max_pages }) w)

-- What the `try` encloses.
unfoldable pub execute : OcrDocumentDeps → OcrClaim → OcrRepresentation → World → Execution × World
unfolding read_representation
execute deps c r w = recognized deps c (read_representation deps.storage c r w)
