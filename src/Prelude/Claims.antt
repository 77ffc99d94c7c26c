-- ===== src/Prelude/Claims.antt =====
-- A table whose rows are claimed by key: a statement that claims one row, and conditions that the row
-- does not satisfy any more.
use native.Mathlib.Omega.{arith}
use Prim.Native.Nat.{ℕ}
use mathlib.Core.Path.{◌≡◌, sym}
use mathlib.Core.Bool.{Bool, true, false}
use mathlib.Core.List.{List, [], ◌∷◌}
use mathlib.Core.Option.{none, some}
use legaltech_colombia.Prelude.Rows.{update_where, find_where, count_where}
use legaltech_colombia.Prelude.Keys.{
  Absent, DistinctBy, Names, Keeps, count_where-Absent, find_where-Absent, update_where-Absent,
}

module _ {A : Type 0} (key : A → ℕ) (k : ℕ) (claimable p : A → Bool) (claimed : A → A)
    (keeps : Keeps key claimed) (names : Names key k claimable) (p-names : Names key k p)
    (loses : (x : A) → claimable x ≡ true → p (claimed x) ≡ false) where
  gone_at :
      (j : ℕ) (xs : List A)
      → j ≡ k
      → Absent key j xs
      → count_where p (update_where claimable claimed xs) ≡ 0
  gone_at j xs e a =
      count_where-Absent key k p p-names _
        (update_where-Absent key claimable claimed keeps k xs (rw (sym e) a))

  none_at : (j : ℕ) (xs : List A) → j ≡ k → Absent key j xs → find_where claimable xs ≡ none
  none_at j xs e a = find_where-Absent key k claimable names xs (rw (sym e) a)

  -- Once a row with the key is claimed, no row satisfies a condition that claimed rows fail.
  pub claimed-none :
      (xs : List A) {d : A}
      → DistinctBy key xs
      → find_where claimable xs ≡ some d
      → count_where p (update_where claimable claimed xs) ≡ 0
  claimed-none [] u e = cc
  claimed-none (x ∷ xs) {d} u e = ground (
    arith,
    names x,
    p-names x,
    loses x,
    λ (h : key x ≡ k). gone_at (key x) xs h u.0,
    λ (h : key x ≡ k). none_at (key x) xs h u.0,
    claimed-none xs {d = d} u.1,
  )
