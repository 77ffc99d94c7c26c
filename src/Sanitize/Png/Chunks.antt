-- ===== src/Sanitize/Png/Chunks.antt =====
-- One chunk of a PNG file, and what a round of the loop reads of it.
use legaltech_colombia.Prelude.{
  ℕ, ◌+◌, ◌≤◌, ◌<◌, ◌≡◌, refl, true, false, [], ◌∷◌, ◌++◌, arith, length, take, drop, length-take,
  length-append,
}
use legaltech_colombia.Sanitize.Bytes.{
  Bytes, byte_at, equal_bytes-eq, byte_at-append, byte_at-take, take-append, drop-append,
}
use legaltech_colombia.Sanitize.Png.{
  chunk_length, chunk_type, valid_type, is_removed_type, is_end_type,
}

-- A length, a type of four letters, the data and the checksum, and nothing else.
abbrev pub IsChunk : Bytes → Type 0
IsChunk c = (length c ≡ 12 + chunk_length c) × (valid_type c ≡ true)

-- The first eight bytes are the same.
abbrev SameHeader : Bytes → Bytes → Type 0
SameHeader r s = (i : ℕ) → i < 8 → byte_at r i ≡ byte_at s i

module _ (r s : Bytes) (same : SameHeader r s) where
  same_length : chunk_length r ≡ chunk_length s
  same_length = omega (
    arith,
    same 0 (omega arith),
    same 1 (omega arith),
    same 2 (omega arith),
    same 3 (omega arith),
  )

  same_type : chunk_type r ≡ chunk_type s
  same_type =
      rw (same 4 (omega arith), same 5 (omega arith), same 6 (omega arith), same 7 (omega arith))

  same_valid : valid_type r ≡ valid_type s
  same_valid =
      rw (same 4 (omega arith), same 5 (omega arith), same 6 (omega arith), same 7 (omega arith))

-- The chunk at the head of what is left.
abbrev pub first_chunk : Bytes → Bytes
first_chunk r = take (12 + chunk_length r) r

first_header : (r : Bytes) → SameHeader (first_chunk r) r
first_header r i h = byte_at-take (12 + chunk_length r) r i (omega arith)

append_header : (c r : Bytes) → IsChunk c → SameHeader (c ++ r) c
append_header c r k i h = byte_at-append c r i (omega (arith, k.0))

module _ (r : Bytes) where
  pub first_chunk_type : chunk_type (first_chunk r) ≡ chunk_type r
  first_chunk_type = same_type (first_chunk r) r (first_header r)

  pub first_chunk-IsChunk :
      12 + chunk_length r ≤ length r → valid_type r ≡ true → IsChunk (first_chunk r)
  first_chunk-IsChunk h v = (
    omega (
      arith,
      length-take (12 + chunk_length r) r,
      same_length (first_chunk r) r (first_header r),
    ),
    rw (same_valid (first_chunk r) r (first_header r)) v,
  )

module _ (c r : Bytes) (k : IsChunk c) where
  pub append_length : chunk_length (c ++ r) ≡ chunk_length c
  append_length = same_length (c ++ r) c (append_header c r k)

  pub append_type : chunk_type (c ++ r) ≡ chunk_type c
  append_type = same_type (c ++ r) c (append_header c r k)

  pub append_valid : valid_type (c ++ r) ≡ true
  append_valid = rw (same_valid (c ++ r) c (append_header c r k)) (k.1)

  pub append_enough : 12 + chunk_length (c ++ r) ≤ length (c ++ r)
  append_enough = omega (arith, append_length, length-append c r, k.0)

  pub append_take : take (12 + chunk_length (c ++ r)) (c ++ r) ≡ c
  append_take = rw append_length (take-append (12 + chunk_length c) c r k.0)

  pub append_drop : drop (12 + chunk_length (c ++ r)) (c ++ r) ≡ r
  append_drop = rw append_length (drop-append (12 + chunk_length c) c r k.0)

pub end-not_removed : (t : Bytes) → is_end_type t ≡ true → is_removed_type t ≡ false
unfolding is_end_type is_removed_type
end-not_removed t h = rw (equal_bytes-eq t (b'I' ∷ b'E' ∷ b'N' ∷ b'D' ∷ []) h) refl
