-- ===== src/Prelude/Keys.antt =====
-- Tables with a primary key: the rows' keys are pairwise distinct.
use Prim.Native.Nat.{ℕ, ◌≤◌}
use mathlib.Core.Path.{◌≡◌, refl}
use mathlib.Core.Logic.{◌≢◌}
use mathlib.Core.Bool.{Bool, true}
use mathlib.Core.List.{List, [], ◌∷◌, ◌++◌}
use mathlib.Core.Option.{none}
use native.Mathlib.Omega.{arith}
use legaltech_colombia.Prelude.Lists.{All}
use legaltech_colombia.Prelude.Rows.{update_where, count_where, find_where}

module _ {ℓ} {A : Type ℓ} (key : A → ℕ) where
  -- No row of the table has this key.
  abbrev pub Absent : ℕ → List A → Type 0
  Absent k xs = All (λ x. key x ≢ k) xs

  abbrev pub DistinctBy : List A → Type 0
  DistinctBy [] = Unit {0}
  DistinctBy (x ∷ xs) = Absent (key x) xs × DistinctBy xs

  -- The condition of a statement that names one key.
  abbrev pub Names : ℕ → (A → Bool) → Type ℓ
  Names k p = (x : A) → p x ≡ true → key x ≡ k

  abbrev pub Keeps : (A → A) → Type ℓ
  Keeps f = (x : A) → key (f x) ≡ key x

module _ {ℓ} {A : Type ℓ} (key : A → ℕ) (k : ℕ) (p : A → Bool) (n : Names key k p) where
  pub count_where-Absent : (xs : List A) → Absent key k xs → count_where p xs ≡ 0
  count_where-Absent [] h = refl
  count_where-Absent (x ∷ xs) h = ground (arith, n x, h.0, count_where-Absent xs h.1)

  pub find_where-Absent : (xs : List A) → Absent key k xs → find_where p xs ≡ none
  find_where-Absent [] h = refl
  find_where-Absent (x ∷ xs) h = ground (arith, n x, h.0, find_where-Absent xs h.1)

  pub update_where-Absent_eq :
      (f : A → A) (xs : List A) → Absent key k xs → update_where p f xs ≡ xs
  update_where-Absent_eq f [] h = refl
  update_where-Absent_eq f (x ∷ xs) h = ground (arith, n x, h.0, update_where-Absent_eq f xs h.1)

  -- A statement that names a key finds at most one row.
  pub count_where-le_one : (xs : List A) → DistinctBy key xs → count_where p xs ≤ 1
  count_where-le_one [] h = omega arith
  count_where-le_one (x ∷ xs) h = ground (
    arith,
    n x,
    count_where-le_one xs h.1,
    λ (e : key x ≡ k). count_where-Absent xs (subst_key e h.0),
  )
    where
      subst_key : key x ≡ k → Absent key (key x) xs → Absent key k xs
      subst_key e a = rw e at a

module _ {ℓ} {A : Type ℓ} (key : A → ℕ) (p : A → Bool) (f : A → A) (keeps : Keeps key f) where
  pub update_where-Absent :
      (k : ℕ) (xs : List A) → Absent key k xs → Absent key k (update_where p f xs)
  update_where-Absent k [] h = tt
  update_where-Absent k (x ∷ xs) h = ground (arith, keeps x, h.0, update_where-Absent k xs h.1)

  pub update_where-DistinctBy :
      (xs : List A) → DistinctBy key xs → DistinctBy key (update_where p f xs)
  update_where-DistinctBy [] h = tt
  update_where-DistinctBy (x ∷ xs) h =
      ground (arith, keeps x, update_where-DistinctBy xs h.1, update_where-Absent (key x) xs h.0)

module _ {ℓ} {A : Type ℓ} (key : A → ℕ) where
  pub append-Absent :
      (k : ℕ) (xs : List A) (y : A) → Absent key k xs → key y ≢ k → Absent key k (xs ++ y ∷ [])
  append-Absent k [] y h e = (e, tt)
  append-Absent k (x ∷ xs) y h e = (h.0, append-Absent k xs y h.1 e)

  pub append-DistinctBy :
      (xs : List A) (y : A)
      → DistinctBy key xs
      → Absent key (key y) xs
      → DistinctBy key (xs ++ y ∷ [])
  append-DistinctBy [] y h a = (tt, tt)
  append-DistinctBy (x ∷ xs) y h a =
      (append-Absent (key x) xs y h.0 (λ e. a.0 (sym_of e)), append-DistinctBy xs y h.1 a.1)
    where
      sym_of : key y ≡ key x → key x ≡ key y
      sym_of e = cc
