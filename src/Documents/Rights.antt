-- ===== src/Documents/Rights.antt =====
-- Who may do what with a document, and which content has which type.
use legaltech_colombia.Prelude.{[], ◌∷◌, ℕ, ◌≡◌, ◌↔◌, true, some, arith}
use legaltech_colombia.Common.{Actor, active, user, admin, allow}
use legaltech_colombia.Database.{DocumentFileType, pdf, jpeg, png}
use legaltech_colombia.Sanitize.Bytes.{Bytes}
use legaltech_colombia.Documents.Policy.{DocumentAction, reprocess, reprocess_ocr, can}
use legaltech_colombia.Documents.FileType.{Signature, starts_as, detect_file_type}

-- Administrators only ask for a reprocessing; the rest belongs to the owner of the case.
abbrev pub Permits : Actor → DocumentAction → ℕ → Type 0
Permits actor reprocess owner = (actor.status ≡ active) × (actor.role ≡ admin)
Permits actor reprocess_ocr owner = (actor.status ≡ active) × (actor.role ≡ admin)
Permits actor action owner = (actor.status ≡ active) × (actor.role ≡ user) × (owner ≡ actor.id)

-- The policy allows an action exactly when the actor is active and is the owner of the case, with the
-- role of a user; or, for the two reprocessings, an administrator, who can do nothing else.
pub can_iff :
    (actor : Actor) (action : DocumentAction) (owner : ℕ)
    → (can actor action owner ≡ allow) ↔ Permits actor action owner
unfolding can
can_iff actor action owner = ((λ h. ground arith), (λ h. ground arith))

abbrev pub signature_of : DocumentFileType → Signature
signature_of pdf = record { type = pdf; bytes = 0x25 ∷ 0x50 ∷ 0x44 ∷ 0x46 ∷ 0x2d ∷ [] }
signature_of jpeg = record { type = jpeg; bytes = 0xff ∷ 0xd8 ∷ 0xff ∷ [] }
signature_of png = record {
  type = png;
  bytes = 0x89 ∷ 0x50 ∷ 0x4e ∷ 0x47 ∷ 0x0d ∷ 0x0a ∷ 0x1a ∷ 0x0a ∷ [];
}

-- A content has a type exactly when it starts with that type's signature: no content has two.
pub detect_file_type_iff :
    (content : Bytes) (type : DocumentFileType)
    → (detect_file_type content ≡ some type) ↔ (starts_as content (signature_of type) ≡ true)
unfolding detect_file_type
detect_file_type_iff content type = ((λ h. ground arith), (λ h. ground arith))
