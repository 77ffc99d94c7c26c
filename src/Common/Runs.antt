-- ===== src/Common/Runs.antt =====
-- How a run of a sequence of calls divides: the first call throws, or the rest runs after it.
use legaltech_colombia.Prelude.{true, false, Bool, ◌∙◌, sym, ◌≡◌, refl, ◌⊎◌, inl, inr}
use legaltech_colombia.Common.Calls.{
  ◌>>◌, throw_if, transaction, Error, Result, ok, err, Action, ◌>>=◌, try_catch,
}

module _ {S A B : Type 0} (m : Action S A) (f : A → Action S B) (s : S) where
  bind-split :
      (p : Result A × S)
      → m s ≡ p
      → ((q : A × S) × (m s ≡ (ok q.0, q.1)) × ((m >>= f) s ≡ f q.0 q.1))
        ⊎ ((q : Error × S) × (m s ≡ (err q.0, q.1)) × ((m >>= f) s ≡ (err q.0, q.1)))
  bind-split (ok a, s') e = inl ((a, s'), e, rw e refl)
  bind-split (err x, s') e = inr ((x, s'), e, rw e refl)

  pub bind-cases :
      ((q : A × S) × (m s ≡ (ok q.0, q.1)) × ((m >>= f) s ≡ f q.0 q.1))
      ⊎ ((q : Error × S) × (m s ≡ (err q.0, q.1)) × ((m >>= f) s ≡ (err q.0, q.1)))
  bind-cases = bind-split (m s) refl

module _ {S A : Type 0} (m : Action S A) (h : Error → Action S A) (s : S) where
  catch-split :
      (p : Result A × S)
      → m s ≡ p
      → ((q : A × S) × (m s ≡ (ok q.0, q.1)) × (try_catch m h s ≡ (ok q.0, q.1)))
        ⊎ ((q : Error × S) × (m s ≡ (err q.0, q.1)) × (try_catch m h s ≡ h q.0 q.1))
  catch-split (ok a, s') e = inl ((a, s'), e, rw e refl)
  catch-split (err x, s') e = inr ((x, s'), e, rw e refl)

  pub catch-cases :
      ((q : A × S) × (m s ≡ (ok q.0, q.1)) × (try_catch m h s ≡ (ok q.0, q.1)))
      ⊎ ((q : Error × S) × (m s ≡ (err q.0, q.1)) × (try_catch m h s ≡ h q.0 q.1))
  catch-cases = catch-split (m s) refl

-- A transaction leaves the state of its calls, or the state before them.
pub transaction-state :
    {S A : Type 0} (m : Action S A) (s : S)
    → ((transaction m s).1 ≡ s) ⊎ ((transaction m s).1 ≡ (m s).1)
transaction-state m s = split (m s) refl
  where
    split :
        (p : Result _ × _) → m s ≡ p → ((transaction m s).1 ≡ s) ⊎ ((transaction m s).1 ≡ (m s).1)
    split (ok a, s') e = inr (rw e refl)
    split (err x, s') e = inl (rw e refl)

ok-not_err :
    {S B : Type 0} (y : Result B × S) (x : Error) (b : B) (s s' : S)
    → y ≡ (err x, s)
    → y ≡ (ok b, s')
    → ⊥
ok-not_err y x b s s' e h = cc

-- A sequence that answers: its first call answered, and so did the rest.
pub bind-ok :
    {S A B : Type 0} (m : Action S A) (f : A → Action S B) (s s' : S) {b : B}
    → (m >>= f) s ≡ (ok b, s')
    → (q : A × S) × (m s ≡ (ok q.0, q.1)) × (f q.0 q.1 ≡ (ok b, s'))
bind-ok m f s s' {b} h = elim (bind-cases m f s) [
  | inl (q, e, r) ↦ (q, e, sym r ∙ h)
  | inr (q, e, r) ↦ absurd (ok-not_err ((m >>= f) s) q.0 b q.1 s' r h)
]

pub throw_if-ok :
    {S B : Type 0} (b : Bool) (x : Error) (k : Action S B) (s s' : S) {a : B}
    → (throw_if b x >> k) s ≡ (ok a, s')
    → (b ≡ false) × (k s ≡ (ok a, s'))
throw_if-ok true x k s s' h = cc
throw_if-ok false x k s s' h = (refl, h)

-- A call has one answer.
pub ok-same :
    {S B : Type 0} (y : Result B × S) (a b : B) (s s' : S)
    → y ≡ (ok a, s)
    → y ≡ (ok b, s')
    → (a ≡ b) × (s ≡ s')
ok-same y a b s s' e h = (cc, cc)
