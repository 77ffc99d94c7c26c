-- ===== src/Sanitize/Bytes.antt =====
-- Buffers as lists of bytes, and how a sanitizer ends.
use legaltech_colombia.Prelude.{
  ℕ, zero, suc, ◌<◌, ◌≡◌, refl, ap, Bool, true, ◌&&◌, List, [], ◌∷◌, ◌++◌, arith, ◌==◌, length,
  take, drop,
}

abbrev pub Bytes : Type 0
Bytes = List ℕ

-- `refused` is a MetadataSanitizationError; a run of the model with too little fuel ends `exhausted`.
pub data Stripped : Type 0 where
  stripped : Bytes → Stripped
  refused exhausted : Stripped

-- `input[offset]`, only read within the buffer.
abbrev pub byte_at : Bytes → ℕ → ℕ
byte_at [] i = 0
byte_at (x ∷ xs) zero = x
byte_at (x ∷ xs) (suc i) = byte_at xs i

abbrev pub equal_bytes : Bytes → Bytes → Bool
equal_bytes [] [] = true
equal_bytes (x ∷ xs) (y ∷ ys) = x == y && equal_bytes xs ys
equal_bytes _ _ = Bool.false

pub byte_at-append : (xs ys : Bytes) (i : ℕ) → i < length xs → byte_at (xs ++ ys) i ≡ byte_at xs i
byte_at-append [] ys i h = elim h [ ]
byte_at-append (x ∷ xs) ys zero h = refl
byte_at-append (x ∷ xs) ys (suc i) h = byte_at-append xs ys i (omega arith)

pub take-append : (n : ℕ) (xs ys : Bytes) → length xs ≡ n → take n (xs ++ ys) ≡ xs
take-append zero [] ys h = refl
take-append (suc n) [] ys h = absurd (omega arith)
take-append zero (x ∷ xs) ys h = absurd (omega arith)
take-append (suc n) (x ∷ xs) ys h = ap (◌∷◌ x) (take-append n xs ys (omega arith))

pub drop-append : (n : ℕ) (xs ys : Bytes) → length xs ≡ n → drop n (xs ++ ys) ≡ ys
drop-append zero [] ys h = refl
drop-append (suc n) [] ys h = absurd (omega arith)
drop-append zero (x ∷ xs) ys h = absurd (omega arith)
drop-append (suc n) (x ∷ xs) ys h = drop-append n xs ys (omega arith)

pub byte_at-take : (n : ℕ) (xs : Bytes) (i : ℕ) → i < n → byte_at (take n xs) i ≡ byte_at xs i
byte_at-take zero xs i h = elim h [ ]
byte_at-take (suc n) [] i h = refl
byte_at-take (suc n) (x ∷ xs) zero h = refl
byte_at-take (suc n) (x ∷ xs) (suc i) h = byte_at-take n xs i (omega arith)

pub equal_bytes-eq : (xs ys : Bytes) → equal_bytes xs ys ≡ true → xs ≡ ys
equal_bytes-eq [] [] h = refl
equal_bytes-eq [] (y ∷ ys) h = cc
equal_bytes-eq (x ∷ xs) [] h = cc
equal_bytes-eq (x ∷ xs) (y ∷ ys) h = ground (arith, equal_bytes-eq xs ys)

pub equal_bytes_refl : (xs : Bytes) → equal_bytes xs xs ≡ true
equal_bytes_refl [] = refl
equal_bytes_refl (x ∷ xs) = ground (arith, equal_bytes_refl xs)
