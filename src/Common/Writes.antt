-- ===== src/Common/Writes.antt =====
-- What the calls of a sequence write: a relation between the states before and after that holds of
-- each call holds of the sequence, whether it answers or throws.
use legaltech_colombia.Prelude.{subst, true, false, Bool, inl, inr, if◌then◌else◌}
use legaltech_colombia.Common.Calls.{Action, Error, ◌>>=◌, ◌>>◌, throw_if, transaction, try_catch}
use legaltech_colombia.Common.Runs.{bind-cases, catch-cases, transaction-state}

abbrev pub Writes : {S A : Type 0} → (S → S → Type 0) → Action S A → Type 0
Writes R m = (s : _) → R s (m s).1

module _ {S : Type 0} (R : S → S → Type 0) (stays : (s : S) → R s s)
    (joins : (s t u : S) → R s t → R t u → R s u) where
  pub Writes-bind :
      {A B : Type 0} (m : Action S A) (f : A → Action S B)
      → Writes R m
      → ((a : A) → Writes R (f a))
      → Writes R (m >>= f)
  Writes-bind m f hm hf s = elim (bind-cases m f s) [
    | inl (q, e, r) ↦ rw r (joins _ _ _ (subst (λ p. R s p.1) e (hm s)) (hf q.0 q.1))
    | inr (q, e, r) ↦ rw r (subst (λ p. R s p.1) e (hm s))
  ]

  pub Writes-throw_if :
      {B : Type 0} (b : Bool) (x : Error) (k : Action S B)
      → Writes R k
      → Writes R (throw_if b x >> k)
  Writes-throw_if true x k h s = stays s
  Writes-throw_if false x k h s = h s

  pub Writes-transaction : {A : Type 0} (m : Action S A) → Writes R m → Writes R (transaction m)
  Writes-transaction m h s = elim (transaction-state m s) [
    | inl e ↦ rw e (stays s)
    | inr e ↦ rw e (h s)
  ]

  pub Writes-try_catch :
      {A : Type 0} (m : Action S A) (h : Error → Action S A)
      → Writes R m
      → ((e : Error) → Writes R (h e))
      → Writes R (try_catch m h)
  Writes-try_catch m h hm hh s = elim (catch-cases m h s) [
    | inl (q, e, r) ↦ rw r (subst (λ p. R s p.1) e (hm s))
    | inr (q, e, r) ↦ rw r (joins _ _ _ (subst (λ p. R s p.1) e (hm s)) (hh q.0 q.1))
  ]

  pub Writes-if :
      {A : Type 0} (b : Bool) (m k : Action S A)
      → Writes R m
      → Writes R k
      → Writes R (λ s. (if b then m else k) s)
  Writes-if true m k hm hk s = hm s
  Writes-if false m k hm hk s = hk s
