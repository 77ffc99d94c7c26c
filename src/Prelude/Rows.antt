-- ===== src/Prelude/Rows.antt =====
-- Rows of a table: what the statements UPDATE … WHERE, SELECT … WHERE and count(*) do.
use Prim.Native.Nat.{ℕ, suc}
use mathlib.Core.Path.{◌≡◌, refl}
use mathlib.Core.Bool.{Bool, true, false}
use mathlib.Core.List.{List, [], ◌∷◌, ◌++◌}
use mathlib.Core.Option.{Option, none, some}
use native.Mathlib.Omega.{arith}
use legaltech_colombia.Prelude.Tests.{if◌then◌else◌}
use legaltech_colombia.Prelude.Lists.{All}

module _ {ℓ} {A : Type ℓ} where
  -- `UPDATE … SET … WHERE`: every row that satisfies the condition.
  abbrev pub update_where : (A → Bool) → (A → A) → List A → List A
  update_where p f [] = []
  update_where p f (x ∷ xs) = (if p x then f x else x) ∷ update_where p f xs

  -- `SELECT … WHERE`
  abbrev pub select_where : (A → Bool) → List A → List A
  select_where p [] = []
  select_where p (x ∷ xs) = if p x then x ∷ select_where p xs else select_where p xs

  -- `count(*) … WHERE`, and the row count of an UPDATE
  abbrev pub count_where : (A → Bool) → List A → ℕ
  count_where p [] = 0
  count_where p (x ∷ xs) = if p x then suc (count_where p xs) else count_where p xs

  -- The first row that satisfies the condition.
  abbrev pub find_where : (A → Bool) → List A → Option A
  find_where p [] = none
  find_where p (x ∷ xs) = if p x then some x else find_where p xs

module _ {ℓ} {A : Type ℓ} where
  pub update_where_none :
      (p : A → Bool) (f : A → A) (xs : List A) → count_where p xs ≡ 0 → update_where p f xs ≡ xs
  update_where_none p f [] h = refl
  update_where_none p f (x ∷ xs) h = ground (arith, update_where_none p f xs)

  pub count_where-append_one :
      (p : A → Bool) (xs : List A) (y : A)
      → count_where p (xs ++ y ∷ []) ≡ (if p y then suc (count_where p xs) else count_where p xs)
  count_where-append_one p [] y = refl
  count_where-append_one p (x ∷ xs) y = ground (arith, count_where-append_one p xs y)

  pub find_where-none : (p : A → Bool) (xs : List A) → count_where p xs ≡ 0 → find_where p xs ≡ none
  find_where-none p [] h = refl
  find_where-none p (x ∷ xs) h = ground (arith, find_where-none p xs)

  pub find_where_test : (p : A → Bool) (xs : List A) {a : A} → find_where p xs ≡ some a → p a ≡ true
  find_where_test p [] h = cc
  find_where_test p (x ∷ xs) {a} h = ground (arith, find_where_test p xs {a = a})

module _ {ℓ κ} {A : Type ℓ} (P : A → Type κ) (p : A → Bool) (f : A → A) where
  pub update_where-All :
      ((x : A) → P x → p x ≡ true → P (f x))
      → (xs : List A) → All P xs
      → All P (update_where p f xs)
  update_where-All keep [] h = tt
  update_where-All keep (x ∷ xs) h = ground (arith, keep x h.0, update_where-All keep xs h.1)

module _ {ℓ κ} {A : Type ℓ} (P : A → Type κ) (p : A → Bool) where
  pub find_where-All : (xs : List A) {a : A} → All P xs → find_where p xs ≡ some a → P a
  find_where-All [] h e = cc
  find_where-All (x ∷ xs) {a} h e = ground (arith, find_where-All xs {a = a} h.1)

module _ {ℓ} {A : Type ℓ} (p q : A → Bool) (f : A → A) where
  -- No row satisfies a condition that the changed rows fail and the others failed before.
  pub update_where-clears :
      ((x : A) → p x ≡ true → q (f x) ≡ false)
      → ((x : A) → p x ≡ false → q x ≡ false)
      → (xs : List A) → count_where q (update_where p f xs) ≡ 0
  update_where-clears changed kept [] = refl
  update_where-clears changed kept (x ∷ xs) =
      ground (arith, changed x, kept x, update_where-clears changed kept xs)

  pub update_where-stays_none :
      ((x : A) → q (f x) ≡ false)
      → (xs : List A) → count_where q xs ≡ 0
      → count_where q (update_where p f xs) ≡ 0
  update_where-stays_none changed [] h = refl
  update_where-stays_none changed (x ∷ xs) h =
      ground (arith, changed x, update_where-stays_none changed xs)

  -- Rows outside the condition are as they were.
  pub update_where-select :
      ((x : A) → p x ≡ true → q x ≡ false)
      → ((x : A) → p x ≡ true → q (f x) ≡ false)
      → (xs : List A) → select_where q (update_where p f xs) ≡ select_where q xs
  update_where-select apart changed [] = refl
  update_where-select apart changed (x ∷ xs) =
      ground (arith, apart x, changed x, update_where-select apart changed xs)

  -- A row that is found after the update fails the condition, or is a changed row.
  pub find_where-updated :
      ((x : A) → p (f x) ≡ false)
      → (xs : List A) {a : A} → find_where q (update_where p f xs) ≡ some a
      → p a ≡ false
  find_where-updated changed [] e = cc
  find_where-updated changed (x ∷ xs) {a} e =
      ground (arith, changed x, find_where-updated changed xs {a = a})
