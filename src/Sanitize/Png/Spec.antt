-- ===== src/Sanitize/Png/Spec.antt =====
-- The sanitized PNG against a description by chunks.
use mathlib.Core.List.{append_assoc, append-nil}
use mathlib.Core.Path.{ap₂}
use legaltech_colombia.Prelude.{
  ℕ, zero, suc, ◌+◌, ◌≤◌, ◌<◌, ◌≡◌, refl, sym, ap, ◌∙◌, ◌≢◌, ◌⊎◌, ◌↔◌, true, false, [], ◌++◌, arith,
  if◌then◌else◌, length, take, drop, length-append, length-drop, take-append-drop, Bool-cases, inl,
  inr,
}
use legaltech_colombia.Sanitize.Bytes.{Bytes, stripped, exhausted, equal_bytes-eq}
use legaltech_colombia.Sanitize.Png.{
  png_signature, chunk_length, chunk_type, valid_type, is_removed_type, is_end_type, kept_chunk,
  strip_chunks, strip_png_metadata,
}
use legaltech_colombia.Sanitize.Png.Chunks.{
  IsChunk, first_chunk, first_chunk_type, first_chunk-IsChunk, append_type, append_valid,
  append_enough, append_take, append_drop, end-not_removed,
}

-- What is left of a chunk.
abbrev pub left_of : Bytes → Bytes
left_of c = if is_removed_type (chunk_type c) then [] else c

-- What follows the signature is a sequence of chunks up to IEND and then anything; what comes out
-- is the same chunks in order, less the removed ones, and nothing behind IEND.
pub data Strips : Bytes → Bytes → Type 0 where
  at_end :
      {rest out : Bytes} (c tail : Bytes)
      → IsChunk c
      → is_end_type (chunk_type c) ≡ true
      → rest ≡ c ++ tail
      → out ≡ left_of c
      → Strips rest out
  onward :
      {rest out : Bytes} (c more kept : Bytes)
      → IsChunk c
      → is_end_type (chunk_type c) ≡ false
      → rest ≡ c ++ more
      → Strips more kept
      → out ≡ left_of c ++ kept
      → Strips rest out

kept-left : (r : Bytes) → kept_chunk r ≡ left_of (first_chunk r)
kept-left r = rw (first_chunk_type r) refl

-- A round that ends in a result read a whole chunk; it was the last one, or the loop went on.
round_of :
    (f : ℕ) (rest kept out : Bytes)
    → strip_chunks (suc f) rest kept ≡ stripped out
    → (12 + chunk_length rest ≤ length rest)
      × (valid_type rest ≡ true)
      × (((is_end_type (chunk_type rest) ≡ true) × (out ≡ kept ++ kept_chunk rest))
          ⊎ ((is_end_type (chunk_type rest) ≡ false)
              × (strip_chunks f (drop (12 + chunk_length rest) rest) (kept ++ kept_chunk rest)
                  ≡ stripped out)))
unfolding strip_chunks
round_of f rest kept out h = ground arith

-- Where a whole chunk of a valid type stands, the round ends with it if it is IEND, and goes on else.
round_end :
    (f : ℕ) (rest kept : Bytes)
    → 12 + chunk_length rest ≤ length rest
    → valid_type rest ≡ true
    → is_end_type (chunk_type rest) ≡ true
    → strip_chunks (suc f) rest kept ≡ stripped (kept ++ kept_chunk rest)
unfolding strip_chunks
round_end f rest kept h v e = ground arith

round_next :
    (f : ℕ) (rest kept : Bytes)
    → 12 + chunk_length rest ≤ length rest
    → valid_type rest ≡ true
    → is_end_type (chunk_type rest) ≡ false
    → strip_chunks (suc f) rest kept
      ≡ strip_chunks f (drop (12 + chunk_length rest) rest) (kept ++ kept_chunk rest)
unfolding strip_chunks
round_next f rest kept h v e = ground arith

rest-split : (r : Bytes) → r ≡ first_chunk r ++ drop (12 + chunk_length r) r
rest-split r = sym (take-append-drop (12 + chunk_length r) r)

module _ (f : ℕ) (rest kept out : Bytes) where
  abbrev Found : Type 0
  Found = (o : Bytes) × (out ≡ kept ++ o) × Strips rest o

  sound_end :
      12 + chunk_length rest ≤ length rest
      → valid_type rest ≡ true
      → is_end_type (chunk_type rest) ≡ true
      → out ≡ kept ++ kept_chunk rest
      → Found
  sound_end whole valid last e = (
    left_of (first_chunk rest),
    e ∙ ap (◌++◌ kept) (kept-left rest),
    at_end (first_chunk rest) (drop (12 + chunk_length rest) rest)
        (first_chunk-IsChunk rest whole valid) (ap is_end_type (first_chunk_type rest) ∙ last)
        (rest-split rest) refl,
  )

  sound_next :
      12 + chunk_length rest ≤ length rest
      → valid_type rest ≡ true
      → is_end_type (chunk_type rest) ≡ false
      → (o : Bytes) (e : out ≡ (kept ++ kept_chunk rest) ++ o)
      → Strips (drop (12 + chunk_length rest) rest) o
      → Found
  sound_next whole valid more o e s = (
    left_of (first_chunk rest) ++ o,
    e ∙ append_assoc kept (kept_chunk rest) o ∙ ap (λ x. kept ++ (x ++ o)) (kept-left rest),
    onward (first_chunk rest) (drop (12 + chunk_length rest) rest) o
        (first_chunk-IsChunk rest whole valid) (ap is_end_type (first_chunk_type rest) ∙ more)
        (rest-split rest) s refl,
  )

strip_chunks_sound :
    (f : ℕ) (rest kept out : Bytes)
    → strip_chunks f rest kept ≡ stripped out
    → (o : Bytes) × (out ≡ kept ++ o) × Strips rest o
unfolding strip_chunks
strip_chunks_sound zero rest kept out h = cc
strip_chunks_sound (suc f) rest kept out h =
    let (whole, valid, how) = round_of f rest kept out h in
    elim how [
      | inl (last, e) ↦ sound_end f rest kept out whole valid last e
      | inr (more, e) ↦
          let (o, eo, s) =
            strip_chunks_sound f (drop (12 + chunk_length rest) rest) (kept ++ kept_chunk rest) out
              e in
          sound_next f rest kept out whole valid more o eo s
    ]

kept_append : (c r : Bytes) → IsChunk c → kept_chunk (c ++ r) ≡ left_of c
kept_append c r k = rw (append_type c r k, append_take c r k) refl

strip_chunks_complete :
    {rest o : Bytes}
    → Strips rest o
    → (f : ℕ) (kept : Bytes) → length rest < f
    → strip_chunks f rest kept ≡ stripped (kept ++ o)
strip_chunks_complete {rest} {o} s zero kept h = absurd (omega arith)
strip_chunks_complete (at_end c tail k last e eo) (suc f) kept h =
    rw (e, eo)
      (round_end f (c ++ tail) kept (append_enough c tail k) (append_valid c tail k)
          (ap is_end_type (append_type c tail k) ∙ last)
        ∙ ap (λ x. stripped (kept ++ x)) (kept_append c tail k))
strip_chunks_complete (onward c more o' k mid e s eo) (suc f) kept h =
    rw (e, eo)
      (round_next f (c ++ more) kept (append_enough c more k) (append_valid c more k)
          (ap is_end_type (append_type c more k) ∙ mid)
        ∙ ap₂ (strip_chunks f) (append_drop c more k) (ap (◌++◌ kept) (kept_append c more k))
        ∙ strip_chunks_complete s f (kept ++ left_of c)
            (omega (arith, ap length e, length-append c more, k.0, h))
        ∙ ap stripped (append_assoc kept (left_of c) o'))

-- The fuel never runs out when it exceeds the length of what is left.
strip_chunks-ne-exhausted :
    (f : ℕ) (rest kept : Bytes) → length rest < f → strip_chunks f rest kept ≢ exhausted
unfolding strip_chunks
strip_chunks-ne-exhausted zero rest kept h = absurd (omega arith)
strip_chunks-ne-exhausted (suc f) rest kept h = ground (
  arith,
  length-drop (12 + chunk_length rest) rest,
  strip_chunks-ne-exhausted f (drop (12 + chunk_length rest) rest) (kept ++ kept_chunk rest),
)

-- The sanitizer of PNG files always ends: the model's fuel is enough for every input.
pub strip_png_metadata-total : (input : Bytes) → strip_png_metadata input ≢ exhausted
unfolding strip_png_metadata
strip_png_metadata-total input = ground (
  arith,
  length-drop 8 input,
  strip_chunks-ne-exhausted (suc (length input)) (drop 8 input) png_signature,
)

abbrev pub Described : Bytes → Bytes → Type 0
Described input out =
    (rest : Bytes) × (o : Bytes) × (input ≡ png_signature ++ rest)
    × (out ≡ png_signature ++ o)
    × Strips rest o

png_sound : (input out : Bytes) → strip_png_metadata input ≡ stripped out → Described input out
unfolding strip_png_metadata
png_sound input out h =
    let (o, e, s) =
      strip_chunks_sound (suc (length input)) (drop 8 input) png_signature out (ground arith) in
    (drop 8 input, o, sym (take-append-drop 8 input) ∙ ap (λ x. x ++ drop 8 input) signed, e, s)
  where
    signed : take 8 input ≡ png_signature
    signed = ground (arith, equal_bytes-eq (take 8 input) png_signature)

png_entry :
    (rest : Bytes)
    → strip_png_metadata (png_signature ++ rest)
      ≡ strip_chunks (suc (length (png_signature ++ rest))) rest png_signature
unfolding strip_png_metadata
png_entry rest = ground arith

png_complete : (input out : Bytes) → Described input out → strip_png_metadata input ≡ stripped out
png_complete input out (rest, o, ei, eo, s) =
    ap strip_png_metadata ei
    ∙ png_entry rest
    ∙ strip_chunks_complete s (suc (length (png_signature ++ rest))) png_signature (omega arith)
    ∙ ap stripped (sym eo)

-- The sanitizer accepts exactly the files that are the PNG signature and a sequence of chunks up to
-- IEND, with anything behind it, and answers the signature and the same chunks byte for byte and in
-- order, less eXIf, tEXt, zTXt and iTXt, and nothing behind IEND.
pub strip_png_metadata_iff :
    (input out : Bytes) → (strip_png_metadata input ≡ stripped out) ↔ Described input out
strip_png_metadata_iff input out = (png_sound input out, png_complete input out)

-- What comes out has no removed chunk left: it passes unchanged.
Strips-again : {rest o : Bytes} → Strips rest o → Strips o o
Strips-again (at_end c tail k last e eo) =
    let left : left_of c ≡ c = rw (end-not_removed (chunk_type c) last) in
    at_end c [] k last (eo ∙ left ∙ sym (append-nil c)) eo
Strips-again {rest} {o} (onward c more o' k mid e s eo) =
    elim (Bool-cases (is_removed_type (chunk_type c))) [
      | inl gone ↦ let same : o ≡ o' = rw gone at eo in rw same (Strips-again s)
      | inr stays ↦
          let whole : o ≡ c ++ o' = rw stays at eo in onward c o' o' k mid whole (Strips-again s) eo
    ]

-- Sanitizing a second time changes nothing.
pub strip_png_metadata_idempotent :
    (input out : Bytes)
    → strip_png_metadata input ≡ stripped out
    → strip_png_metadata out ≡ stripped out
strip_png_metadata_idempotent input out h =
    let (rest, o, ei, eo, s) = png_sound input out h in
    png_complete out out (o, o, eo, eo, Strips-again s)
