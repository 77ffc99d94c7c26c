-- ===== src/Sanitize/Png.antt =====
-- `stripPngMetadata` of apps/worker/src/sanitize/image-metadata.ts. The loop is written over what
-- follows `offset`; each round reads at least twelve bytes, so the length is enough fuel.
pub mod Chunks
pub mod Spec
use legaltech_colombia.Prelude.{
  ℕ, zero, suc, ◌+◌, ◌*◌, Bool, true, ◌&&◌, ◌||◌, not, List, [], ◌∷◌, ◌++◌, ltb, leb, ◌==◌,
  if◌then◌else◌, length, take, drop,
}
use legaltech_colombia.Sanitize.Bytes.{
  Bytes, Stripped, stripped, refused, exhausted, byte_at, equal_bytes,
}

abbrev pub png_signature : Bytes
png_signature = 0x89 ∷ 0x50 ∷ 0x4e ∷ 0x47 ∷ 0x0d ∷ 0x0a ∷ 0x1a ∷ 0x0a ∷ []

-- `readUInt32BE(offset)`
abbrev pub chunk_length : Bytes → ℕ
chunk_length r = ((byte_at r 0 * 256 + byte_at r 1) * 256 + byte_at r 2) * 256 + byte_at r 3

-- The four bytes of the chunk's type.
abbrev pub chunk_type : Bytes → Bytes
chunk_type r = byte_at r 4 ∷ byte_at r 5 ∷ byte_at r 6 ∷ byte_at r 7 ∷ []

-- `[A-Za-z]`
abbrev pub is_letter : ℕ → Bool
is_letter c = leb b'A' c && leb c b'Z' || leb b'a' c && leb c b'z'

abbrev pub valid_type : Bytes → Bool
valid_type r =
    is_letter (byte_at r 4)
    && (is_letter (byte_at r 5) && (is_letter (byte_at r 6) && is_letter (byte_at r 7)))

-- `PNG_REMOVED_CHUNKS`: eXIf, tEXt, zTXt and iTXt
unfoldable pub is_removed_type : Bytes → Bool
is_removed_type t =
    equal_bytes t (b'e' ∷ b'X' ∷ b'I' ∷ b'f' ∷ [])
    || (equal_bytes t (b't' ∷ b'E' ∷ b'X' ∷ b't' ∷ [])
        || (equal_bytes t (b'z' ∷ b'T' ∷ b'X' ∷ b't' ∷ [])
            || equal_bytes t (b'i' ∷ b'T' ∷ b'X' ∷ b't' ∷ [])))

unfoldable pub is_end_type : Bytes → Bool
is_end_type t = equal_bytes t (b'I' ∷ b'E' ∷ b'N' ∷ b'D' ∷ [])

-- What a round appends to `kept`.
abbrev pub kept_chunk : Bytes → Bytes
kept_chunk r = if is_removed_type (chunk_type r) then [] else take (12 + chunk_length r) r

unfoldable pub strip_chunks : ℕ → Bytes → Bytes → Stripped
strip_chunks zero rest kept = exhausted
strip_chunks (suc f) rest kept =
    let next = strip_chunks f (drop (12 + chunk_length rest) rest) (kept ++ kept_chunk rest) in
    if length rest == 0
    then refused
    else if ltb (length rest) 12
    then refused
    else if not (valid_type rest)
    then refused
    else if ltb (length rest) (12 + chunk_length rest)
    then refused
    else if is_end_type (chunk_type rest)
    then stripped (kept ++ kept_chunk rest)
    else next

unfoldable pub strip_png_metadata : Bytes → Stripped
strip_png_metadata input =
    if ltb (length input) 8 || not (equal_bytes (take 8 input) png_signature)
    then refused
    else strip_chunks (suc (length input)) (drop 8 input) png_signature
