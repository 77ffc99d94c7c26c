-- ===== src/Auth/Evolution.antt =====
-- What a statement may do to the sessions: a row keeps its identity, its owner and its absolute
-- expiry, its revocation and its rotation are final, and new rows come after the old ones.
use legaltech_colombia.Prelude.{
  ℕ, Bool, true, some, List, [], ◌∷◌, ◌++◌, ◌≡◌, refl, ◌∙◌, arith, update_where,
}
use legaltech_colombia.Auth.Tables.{SessionRecord}

pub record Evolves (a b : SessionRecord) : Type 0 where
  pub same_id : b.id ≡ a.id
  pub same_user : b.user_id ≡ a.user_id
  pub same_token : b.token_hash ≡ a.token_hash
  pub same_absolute : b.absolute_expires_at ≡ a.absolute_expires_at
  pub keeps_revoked :
      (t : ℕ)
      → a.revoked_at ≡ some t
      → (b.revoked_at ≡ some t) × (b.revoked_reason ≡ a.revoked_reason)
  pub keeps_rotated : (t : ℕ) → a.rotated_at ≡ some t → b.rotated_at ≡ some t

pub Evolves-refl : (a : SessionRecord) → Evolves a a
Evolves-refl a = record {
  same_id = refl;
  same_user = refl;
  same_token = refl;
  same_absolute = refl;
  keeps_revoked = λ t e. (e, refl);
  keeps_rotated = λ t e. e;
}

pub Evolves-trans : (a b c : SessionRecord) → Evolves a b → Evolves b c → Evolves a c
Evolves-trans a b c h k = record {
  same_id = k.same_id ∙ h.same_id;
  same_user = k.same_user ∙ h.same_user;
  same_token = k.same_token ∙ h.same_token;
  same_absolute = k.same_absolute ∙ h.same_absolute;
  keeps_revoked =
      λ t e. let (r, q) = h.keeps_revoked t e in let (r', q') = k.keeps_revoked t r in (r', q' ∙ q);
  keeps_rotated = λ t e. k.keeps_rotated t (h.keeps_rotated t e);
}

-- The rows of the first table stand in the second, each evolved, before any new ones.
abbrev pub Extends : List SessionRecord → List SessionRecord → Type 0
Extends [] ys = Unit {0}
Extends (x ∷ xs) [] = ⊥
Extends (x ∷ xs) (y ∷ ys) = Evolves x y × Extends xs ys

pub Extends-refl : (xs : List SessionRecord) → Extends xs xs
Extends-refl [] = tt
Extends-refl (x ∷ xs) = (Evolves-refl x, Extends-refl xs)

pub Extends-trans : (xs ys zs : List SessionRecord) → Extends xs ys → Extends ys zs → Extends xs zs
Extends-trans [] ys zs h k = tt
Extends-trans (x ∷ xs) [] zs h k = absurd h
Extends-trans (x ∷ xs) (y ∷ ys) [] h k = absurd k
Extends-trans (x ∷ xs) (y ∷ ys) (z ∷ zs) h k =
    (Evolves-trans x y z h.0 k.0, Extends-trans xs ys zs h.1 k.1)

pub Extends-append : (xs ys : List SessionRecord) → Extends xs (xs ++ ys)
Extends-append [] ys = tt
Extends-append (x ∷ xs) ys = (Evolves-refl x, Extends-append xs ys)

pub Extends-update_where :
    (p : SessionRecord → Bool) (f : SessionRecord → SessionRecord) (xs : List SessionRecord)
    → ((s : SessionRecord) → p s ≡ true → Evolves s (f s))
    → Extends xs (update_where p f xs)
Extends-update_where p f [] h = tt
Extends-update_where p f (x ∷ xs) h =
    ground (arith, h x, Evolves-refl x, Extends-update_where p f xs h)
