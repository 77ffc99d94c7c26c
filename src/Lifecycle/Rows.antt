-- ===== src/Lifecycle/Rows.antt =====
-- How a table of documents changes: some rows are updated, or a new row is added. Ids, file types and
-- storage keys never change, and sound rows stay sound.
use legaltech_colombia.Prelude.{
  sym, inr, ◌∙◌, subst, ◌⊎◌, arith, ◌≢◌, inl, ℕ, ◌≡◌, refl, Bool, true, false, List, [], ◌∷◌, ◌++◌,
  if◌then◌else◌, All, All-append, update_where, DistinctBy, Absent, append-DistinctBy,
  update_where-DistinctBy,
}
use legaltech_colombia.Database.{DocumentRecord, DocumentFileType, StorageKey}
use legaltech_colombia.Database.Sound.{IsSound}
use legaltech_colombia.Scan.Fencing.{id_of}

pub record KeepsIdentity (f : DocumentRecord → DocumentRecord) : Type 0 where
  pub same_id : (d : DocumentRecord) → (f d).id ≡ d.id
  pub same_type : (d : DocumentRecord) → (f d).file_type ≡ d.file_type
  pub same_key : (d : DocumentRecord) → (f d).storage_key ≡ d.storage_key

-- The update keeps each row that it touches sound.
abbrev pub KeepsSound :
    (DocumentRecord → Bool) → (DocumentRecord → DocumentRecord) → DocumentRecord → Type 0
KeepsSound p f d = IsSound d → p d ≡ true → IsSound (f d)

pub data Change : List DocumentRecord → List DocumentRecord → Type 0 where
  same : {xs : List DocumentRecord} → Change xs xs
  update :
      {xs : List DocumentRecord} (p : DocumentRecord → Bool) (f : DocumentRecord → DocumentRecord)
      → KeepsIdentity f
      → All (KeepsSound p f) xs
      → Change xs (update_where p f xs)
  add :
      {xs : List DocumentRecord} (d : DocumentRecord)
      → IsSound d
      → Absent id_of d.id xs
      → Change xs (xs ++ d ∷ [])
  both : {xs ys zs : List DocumentRecord} → Change xs ys → Change ys zs → Change xs zs

pub record IsSoundTable (xs : List DocumentRecord) : Type 0 where
  pub sound : All IsSound xs
  pub distinct : DistinctBy id_of xs

update-All :
    (p : DocumentRecord → Bool) (f : DocumentRecord → DocumentRecord) (xs : List DocumentRecord)
    → All (KeepsSound p f) xs
    → All IsSound xs
    → All IsSound (update_where p f xs)
update-All p f [] k h = tt
update-All p f (x ∷ xs) k h = (one (p x) refl, update-All p f xs k.1 h.1)
  where
    one : (b : Bool) → p x ≡ b → IsSound (if p x then f x else x)
    one true e = rw e (k.0 h.0 e)
    one false e = rw e h.0

pub Change-IsSoundTable :
    {xs ys : List DocumentRecord} → Change xs ys → IsSoundTable xs → IsSoundTable ys
Change-IsSoundTable same s = s
Change-IsSoundTable (update {xs} p f keep k) s = record {
  sound = update-All p f xs k s.sound;
  distinct = update_where-DistinctBy id_of p f keep.same_id xs s.distinct;
}
Change-IsSoundTable (add {xs} d sd fresh) s = record {
  sound = All-append IsSound xs (d ∷ []) s.sound (sd, tt);
  distinct = append-DistinctBy id_of xs d s.distinct fresh;
}
Change-IsSoundTable (both a b) s = Change-IsSoundTable b (Change-IsSoundTable a s)

-- The table has a row with this id, file type and storage key.
abbrev pub Has : ℕ → DocumentFileType → StorageKey → List DocumentRecord → Type 0
Has id type key [] = ⊥
Has id type key (d ∷ ds) =
    ((d.id ≡ id) × (d.file_type ≡ type) × (d.storage_key ≡ key)) ⊎ Has id type key ds

module _ (id : ℕ) (type : DocumentFileType) (key : StorageKey) where
  update-Has :
      (p : DocumentRecord → Bool) (f : DocumentRecord → DocumentRecord)
      → KeepsIdentity f
      → (xs : List DocumentRecord) → Has id type key xs
      → Has id type key (update_where p f xs)
  update-Has p f k [] h = h
  update-Has p f k (x ∷ xs) h =
      ground (arith, k.same_id x, k.same_type x, k.same_key x, update-Has p f k xs)

  append-Has : (xs ys : List DocumentRecord) → Has id type key xs → Has id type key (xs ++ ys)
  append-Has [] ys h = absurd h
  append-Has (x ∷ xs) ys (inl here) = inl here
  append-Has (x ∷ xs) ys (inr more) = inr (append-Has xs ys more)

  -- A row that was once there is there for good, with the same type and key.
  pub Change-Has :
      {xs ys : List DocumentRecord} → Change xs ys → Has id type key xs → Has id type key ys
  Change-Has same h = h
  Change-Has (update {xs} p f k _) h = update-Has p f k xs h
  Change-Has (add {xs} d _ _) h = append-Has xs (d ∷ []) h
  Change-Has (both a b) h = Change-Has b (Change-Has a h)

  -- Every row with the id.
  abbrev pub Genuine : List DocumentRecord → Type 0
  Genuine xs =
      All (λ (d : DocumentRecord). d.id ≡ id → (d.file_type ≡ type) × (d.storage_key ≡ key)) xs

  Absent-Genuine : (xs : List DocumentRecord) → Absent id_of id xs → Genuine xs
  Absent-Genuine [] h = tt
  Absent-Genuine (x ∷ xs) h = ((λ e. absurd (h.0 e)), Absent-Genuine xs h.1)

  Has-ne : (j : ℕ) (xs : List DocumentRecord) → Absent id_of j xs → Has id type key xs → j ≢ id
  Has-ne j [] a h = absurd h
  Has-ne j (x ∷ xs) a (inl (e, _, _)) = λ k. a.0 (e ∙ sym k)
  Has-ne j (x ∷ xs) a (inr h) = Has-ne j xs a.1 h

  pub Has-Genuine :
      (xs : List DocumentRecord) → DistinctBy id_of xs → Has id type key xs → Genuine xs
  Has-Genuine [] u h = tt
  Has-Genuine (x ∷ xs) u (inl (e, t, k)) =
      ((λ _. (t, k)), Absent-Genuine xs (subst (λ j. Absent id_of j xs) e u.0))
  Has-Genuine (x ∷ xs) u (inr h) = ((λ e. absurd (Has-ne x.id xs u.0 h e)), Has-Genuine xs u.1 h)

pub All-of {ℓ κ} : {A : Type ℓ} (P : A → Type κ) → ((a : A) → P a) → (xs : List A) → All P xs
All-of P h [] = tt
All-of P h (x ∷ xs) = (h x, All-of P h xs)

-- An update that keeps every row sound.
pub updates :
    (p : DocumentRecord → Bool) (f : DocumentRecord → DocumentRecord)
    → KeepsIdentity f
    → ((d : DocumentRecord) → KeepsSound p f d)
    → (xs : List DocumentRecord) → Change xs (update_where p f xs)
updates p f k s xs = update p f k (All-of (KeepsSound p f) s xs)

pub Change-eq : (xs ys : List DocumentRecord) → ys ≡ xs → Change xs ys
Change-eq xs ys e = rw e same

-- A transaction that makes its update, or none.
pub Change-or :
    (xs ys zs : List DocumentRecord) → (zs ≡ xs) ⊎ (zs ≡ ys) → Change xs ys → Change xs zs
Change-or xs ys zs (inl e) c = rw e same
Change-or xs ys zs (inr e) c = rw e c

pub keeps :
    (f : DocumentRecord → DocumentRecord)
    → ((d : DocumentRecord) → (f d).id ≡ d.id)
    → ((d : DocumentRecord) → (f d).file_type ≡ d.file_type)
    → ((d : DocumentRecord) → (f d).storage_key ≡ d.storage_key)
    → KeepsIdentity f
keeps f a b c = record { same_id = a; same_type = b; same_key = c }
