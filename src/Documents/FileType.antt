-- ===== src/Documents/FileType.antt =====
-- apps/api/src/modules/documents/file-type.ts. Reading past the end of the content gives a byte that
-- is never compared, as the length is tested first.
use legaltech_colombia.Prelude.{
  ℕ, suc, Bool, true, ◌&&◌, Option, none, some, List, [], ◌∷◌, leb, ◌==◌, length, find_where,
}
use legaltech_colombia.Database.{DocumentFileType, pdf, jpeg, png}
use legaltech_colombia.Sanitize.Bytes.{Bytes, byte_at}

pub record Signature : Type 0 where
  pub type : DocumentFileType
  pub bytes : Bytes

abbrev pub signatures : List Signature
signatures =
    record { type = pdf; bytes = 0x25 ∷ 0x50 ∷ 0x44 ∷ 0x46 ∷ 0x2d ∷ [] }
    ∷ record { type = jpeg; bytes = 0xff ∷ 0xd8 ∷ 0xff ∷ [] }
    ∷ record { type = png; bytes = 0x89 ∷ 0x50 ∷ 0x4e ∷ 0x47 ∷ 0x0d ∷ 0x0a ∷ 0x1a ∷ 0x0a ∷ [] }
    ∷ []

-- `bytes.every((byte, index) => content[index] === byte)`
abbrev pub every_byte : Bytes → ℕ → Bytes → Bool
every_byte content index [] = true
every_byte content index (byte ∷ bytes) =
    byte_at content index == byte && every_byte content (suc index) bytes

abbrev pub starts_as : Bytes → Signature → Bool
starts_as content s = leb (length s.bytes) (length content) && every_byte content 0 s.bytes

abbrev type_of : Option Signature → Option DocumentFileType
type_of none = none
type_of (some s) = some s.type

unfoldable pub detect_file_type : Bytes → Option DocumentFileType
detect_file_type content = type_of (find_where (starts_as content) signatures)
