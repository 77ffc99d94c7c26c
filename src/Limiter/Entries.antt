-- ===== src/Limiter/Entries.antt =====
-- The entries of the limiter, by key: what is found after a write and after a sweep.
use legaltech_colombia.Prelude.{
  subst, ℕ, Option, none, some, List, [], ◌∷◌, ◌≡◌, ◌≢◌, refl, sym, inl, inr, arith, ◌==◌, ==_iff,
  if◌then◌else◌, Bool-cases, select_where, Absent, DistinctBy,
}
use legaltech_colombia.Limiter.Buckets.{Bucket, get, put, is_live}

-- The bucket that counts at an instant.
abbrev pub live : ℕ → Option Bucket → Option Bucket
live now none = none
live now (some b) = if is_live now b then some b else none

pub get-put :
    (j : ℕ) (c : Bucket) (bs : List Bucket)
    → get j (put c bs) ≡ (if c.key == j then some c else get j bs)
get-put j c [] = refl
get-put j c (b ∷ bs) = ground (arith, get-put j c bs)

abbrev pub key_of : Bucket → ℕ
key_of b = b.key

get-Absent : (k : ℕ) (bs : List Bucket) → Absent key_of k bs → get k bs ≡ none
get-Absent k [] h = refl
get-Absent k (b ∷ bs) h = ground (arith, h.0, get-Absent k bs h.1)

pub get-sweep :
    (k now : ℕ) (bs : List Bucket)
    → DistinctBy key_of bs
    → get k (select_where (is_live now) bs) ≡ live now (get k bs)
get-sweep k now [] u = refl
get-sweep k now (b ∷ bs) u = elim (Bool-cases (b.key == k)) [
  | inl e ↦
      let gone = get-Absent b.key bs u.0 in
      let gone_at : get k bs ≡ none = subst (λ j. get j bs ≡ none) ((==_iff b.key k).0 e) gone in
      ground (arith, e, gone_at, get-sweep k now bs u.1)
  | inr e ↦ ground (arith, get-sweep k now bs u.1)
]

put-Absent :
    (k : ℕ) (c : Bucket) (bs : List Bucket)
    → k ≢ c.key
    → Absent key_of k bs
    → Absent key_of k (put c bs)
put-Absent k c [] e h = (λ x. e (sym x), tt)
put-Absent k c (b ∷ bs) e h = ground (arith, h.0, put-Absent k c bs e h.1)

pub put-DistinctBy :
    (c : Bucket) (bs : List Bucket) → DistinctBy key_of bs → DistinctBy key_of (put c bs)
put-DistinctBy c [] u = (tt, tt)
put-DistinctBy c (b ∷ bs) u = elim (Bool-cases (b.key == c.key)) [
  | inl e ↦ rw e (subst (λ j. Absent key_of j bs) ((==_iff b.key c.key).0 e) u.0, u.1)
  | inr e ↦
      rw e (
        put-Absent b.key c bs (λ x. ground (arith, ==_iff b.key c.key)) u.0,
        put-DistinctBy c bs u.1,
      )
]

sweep-Absent :
    (k now : ℕ) (bs : List Bucket)
    → Absent key_of k bs
    → Absent key_of k (select_where (is_live now) bs)
sweep-Absent k now [] h = tt
sweep-Absent k now (b ∷ bs) h = ground (arith, h.0, sweep-Absent k now bs h.1)

pub sweep-DistinctBy :
    (now : ℕ) (bs : List Bucket)
    → DistinctBy key_of bs
    → DistinctBy key_of (select_where (is_live now) bs)
sweep-DistinctBy now [] u = tt
sweep-DistinctBy now (b ∷ bs) u =
    ground (arith, sweep-Absent b.key now bs u.0, sweep-DistinctBy now bs u.1)
