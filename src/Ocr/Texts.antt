-- ===== src/Ocr/Texts.antt =====
-- The texts that the worker takes from a provider, once normalized.
use legaltech_colombia.Prelude.{◌≡◌, ◌≢◌, refl, [], ◌∷◌, arith, All}
use legaltech_colombia.Ocr.Execution.{Text, unix_lines}

-- A normalized text has no carriage return.
pub unix_lines-no_return : (t : Text) → All (λ c. c ≢ 13) (unix_lines t)
unfolding unix_lines
unix_lines-no_return [] = tt
unix_lines-no_return (c ∷ []) = ground arith
unix_lines-no_return (c ∷ d ∷ ds) =
    ground (arith, unix_lines-no_return (d ∷ ds), unix_lines-no_return ds)

-- A text without carriage returns stays as it is.
unix_lines-fixed : (t : Text) → All (λ c. c ≢ 13) t → unix_lines t ≡ t
unfolding unix_lines
unix_lines-fixed [] h = refl
unix_lines-fixed (c ∷ []) h = ground arith
unix_lines-fixed (c ∷ d ∷ ds) h = ground (arith, unix_lines-fixed (d ∷ ds) h.1)

-- Normalizing the line ends twice is normalizing them once, and leaves no carriage return.
pub unix_lines_idempotent :
    (t : Text) → (unix_lines (unix_lines t) ≡ unix_lines t) × All (λ c. c ≢ 13) (unix_lines t)
unix_lines_idempotent t =
    (unix_lines-fixed (unix_lines t) (unix_lines-no_return t), unix_lines-no_return t)
