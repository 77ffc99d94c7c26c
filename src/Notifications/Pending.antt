-- ===== src/Notifications/Pending.antt =====
-- The emails that a run of the dispatch has still to try, counted: one less after each.
use legaltech_colombia.Prelude.{
  All, ◌≤◌, Option-cases, ℕ, suc, Bool, true, false, not, Option, none, some, List, [], ◌∷◌, ◌≡◌,
  ◌≢◌, ◌⊎◌, refl, subst, arith, inl, inr, ◌==◌, ◌&&◌, ==_iff, ==_refl, is_none, if◌then◌else◌,
  All-Entry, Entry, count_where, update_where, Absent, DistinctBy,
}
use legaltech_colombia.Auth.Tables.{AuthDb, EmailOutboxRow}
use legaltech_colombia.Notifications.Dispatch.{is_listed_id, is_pending, first_where, earlier}

abbrev pub row_id : EmailOutboxRow → ℕ
row_id e = e.id

abbrev pub is_unsent : EmailOutboxRow → Bool
is_unsent e = is_none e.sent_at

abbrev pub unsent : AuthDb → ℕ
unsent db = count_where is_unsent db.email_outbox

abbrev pub free : ℕ → Bool
free id = false

earlier-cases :
    (a b : Option EmailOutboxRow) {e : EmailOutboxRow}
    → earlier a b ≡ some e
    → (a ≡ some e) ⊎ (b ≡ some e)
earlier-cases none b h = inr h
earlier-cases (some a) none h = inl h
earlier-cases (some a) (some b) h = ground arith

pub first-found :
    (p : EmailOutboxRow → Bool) (es : List EmailOutboxRow) {e : EmailOutboxRow}
    → first_where p es ≡ some e
    → Entry e es × (p e ≡ true)
first-found p [] h = cc
first-found p (x ∷ xs) {e} h =
    elim (earlier-cases (if p x then some x else none) (first_where p xs) {e = e} h) [
      | inl k ↦
          let same : x ≡ e = ground arith in
          (subst (λ y. Entry y (x ∷ xs)) same Entry.here, ground arith)
      | inr k ↦ let (i, holds) = first-found p xs {e = e} k in (Entry.there i, holds)
    ]

pub first-none :
    (p : EmailOutboxRow → Bool) (es : List EmailOutboxRow)
    → first_where p es ≡ none
    → count_where p es ≡ 0
first-none p [] h = refl
first-none p (x ∷ xs) h = ground (arith, first-none p xs)

module _ (p : EmailOutboxRow → Bool) where
  -- No row that satisfies the condition was created before an instant.
  abbrev NoneBefore : ℕ → List EmailOutboxRow → Type 0
  NoneBefore t = All λ x. (p x ≡ false) ⊎ (t ≤ x.created_at)

  none-NoneBefore : (t : ℕ) (xs : List EmailOutboxRow) → first_where p xs ≡ none → NoneBefore t xs
  none-NoneBefore t [] h = tt
  none-NoneBefore t (x ∷ xs) h = elim (Option-cases (first_where p xs)) [
    | inl k ↦ (inl (ground arith), none-NoneBefore t xs k)
    | inr (y, k) ↦ ground arith
  ]

  NoneBefore-earlier :
      (t u : ℕ) (xs : List EmailOutboxRow) → t ≤ u → NoneBefore u xs → NoneBefore t xs
  NoneBefore-earlier t u [] h k = tt
  NoneBefore-earlier t u (x ∷ xs) h (inl f, ks) = (inl f, NoneBefore-earlier t u xs h ks)
  NoneBefore-earlier t u (x ∷ xs) h (inr g, ks) =
      (inr (omega arith), NoneBefore-earlier t u xs h ks)

  first-oldest :
      (xs : List EmailOutboxRow) {e : EmailOutboxRow}
      → first_where p xs ≡ some e
      → NoneBefore e.created_at xs
  first-oldest [] h = cc
  first-oldest (x ∷ xs) {e} h = elim (Option-cases (first_where p xs)) [
    | inl k ↦ (ground arith, none-NoneBefore e.created_at xs k)
    | inr (y, k) ↦
        let rest = first-oldest xs {e = y} k in
        let sooner : e.created_at ≤ y.created_at = ground arith in
        (ground arith, NoneBefore-earlier e.created_at y.created_at xs sooner rest)
  ]

-- The email that a run takes next: an unsent one that it has not tried, the oldest of those pending.
pub record IsNext (ids : List ℕ) (xs : List EmailOutboxRow) (e : EmailOutboxRow) : Type 0 where
  pub stored : Entry e xs
  pub still_unsent : e.sent_at ≡ none
  pub untried : is_listed_id ids e.id ≡ false
  pub oldest : All (λ x. (is_pending free ids x ≡ false) ⊎ (e.created_at ≤ x.created_at)) xs

pub first-IsNext :
    (ids : List ℕ) (xs : List EmailOutboxRow) (e : EmailOutboxRow)
    → first_where (is_pending free ids) xs ≡ some e
    → IsNext ids xs e
first-IsNext ids xs e h =
    let (i, holds) = first-found (is_pending free ids) xs {e = e} h in
    record {
      stored = i;
      still_unsent = ground arith;
      untried = ground arith;
      oldest = first-oldest (is_pending free ids) xs {e = e} h;
    }

apart_count :
    (p : EmailOutboxRow → Bool) (k : ℕ) (xs : List EmailOutboxRow)
    → Absent row_id k xs
    → count_where (λ x. p x && not (x.id == k)) xs ≡ count_where p xs
apart_count p k [] h = refl
apart_count p k (x ∷ xs) h = ground (arith, h.0, ==_iff x.id k, apart_count p k xs h.1)

-- One row less satisfies the condition without the row found.
one_less :
    (p : EmailOutboxRow → Bool) (xs : List EmailOutboxRow) (e : EmailOutboxRow)
    → DistinctBy row_id xs
    → Entry e xs
    → p e ≡ true
    → suc (count_where (λ x. p x && not (x.id == e.id)) xs) ≡ count_where p xs
one_less p [] e u i h = elim i [ ]
one_less p (x ∷ xs) e u Entry.here h = ground (arith, h, ==_refl x.id, apart_count p x.id xs u.0)
one_less p (x ∷ xs) e u (Entry.there i) h =
    let other : e.id ≢ x.id = All-Entry (λ y. y.id ≢ x.id) i u.0 in
    ground (arith, ==_iff x.id e.id, one_less p xs e u.1 i h)

count-marked :
    (p q : EmailOutboxRow → Bool) (k now : ℕ) (xs : List EmailOutboxRow)
    → ((x : EmailOutboxRow) → (x.id == k) ≡ true → q (record x { sent_at = some now }) ≡ p x)
    → ((x : EmailOutboxRow) → (x.id == k) ≡ false → q x ≡ p x)
    → count_where q (update_where (λ e. e.id == k) (λ e. record e { sent_at = some now }) xs)
      ≡ count_where p xs
count-marked p q k now [] hit miss = refl
count-marked p q k now (x ∷ xs) hit miss =
    ground (arith, hit x, miss x, count-marked p q k now xs hit miss)

pub count-same :
    (p q : EmailOutboxRow → Bool) (xs : List EmailOutboxRow)
    → ((x : EmailOutboxRow) → q x ≡ p x)
    → count_where q xs ≡ count_where p xs
count-same p q [] same = refl
count-same p q (x ∷ xs) same = ground (arith, same x, count-same p q xs same)

module _ (ids : List ℕ) (now : ℕ) (xs : List EmailOutboxRow) (e : EmailOutboxRow)
    (distinct : DistinctBy row_id xs) (found : first_where (is_pending free ids) xs ≡ some e) where
  abbrev others : EmailOutboxRow → Bool
  others x = is_pending free ids x && not (x.id == e.id)

  found-unsent : is_unsent e ≡ true
  found-unsent = let (i, holds) = first-found (is_pending free ids) xs {e = e} found in ground arith

  pub tried_less :
      suc (count_where (is_pending free (e.id ∷ ids)) xs) ≡ count_where (is_pending free ids) xs
  tried_less =
      let (i, holds) = first-found (is_pending free ids) xs {e = e} found in
      let same =
        count-same others (is_pending free (e.id ∷ ids)) xs
          (λ x. ground (arith, ==_iff x.id e.id, ==_iff e.id x.id)) in
      omega (arith, same, one_less (is_pending free ids) xs e distinct i holds)

  pub sent_less :
      suc (
        count_where
          (is_pending free (e.id ∷ ids))
          (update_where (λ x. x.id == e.id) (λ x. record x { sent_at = some now }) xs))
      ≡ count_where (is_pending free ids) xs
  sent_less =
      let (i, holds) = first-found (is_pending free ids) xs {e = e} found in
      let same =
        count-marked others (is_pending free (e.id ∷ ids)) e.id now xs (λ x h. ground arith)
          (λ x h. ground (arith, ==_iff x.id e.id, ==_iff e.id x.id)) in
      omega (arith, same, one_less (is_pending free ids) xs e distinct i holds)

  pub unsent_less :
      suc (
        count_where is_unsent
          (update_where (λ x. x.id == e.id) (λ x. record x { sent_at = some now }) xs))
      ≡ count_where is_unsent xs
  unsent_less =
      let (i, holds) = first-found (is_pending free ids) xs {e = e} found in
      let same =
        count-marked (λ x. is_unsent x && not (x.id == e.id)) is_unsent e.id now xs
          (λ x h. ground arith) (λ x h. ground arith) in
      omega (arith, same, one_less is_unsent xs e distinct i found-unsent)
