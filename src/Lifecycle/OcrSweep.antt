-- ===== src/Lifecycle/OcrSweep.antt =====
-- What the sweep of abandoned OCR claims does to the table of documents: it updates the rows that it
-- has found in PROCESSING one by one, by their ids.
use legaltech_colombia.Common.{◌>>◌, Action}
use legaltech_colombia.Common.Runs.{bind-cases, transaction-state}
use legaltech_colombia.Prelude.{
  ◌∙◌, subst, ap, inr, inl, sym, select_where, DistinctBy, ℕ, ◌≡◌, ◌≢◌, refl, ◌⊎◌, Bool, true, List,
  [], ◌∷◌, arith, All, update_where, Absent,
}
use legaltech_colombia.Database.{Db, DocumentRecord, is_processing}
use legaltech_colombia.Scan.Fencing.{id_of}
use legaltech_colombia.Ocr.Recovery.{
  sweep_row, add_row, sweep_abandoned_ocr, is_abandoned, OcrSweepResult, sweep_rows,
  OcrSweepOptions, has_id, set_failed, set_pending,
}
use legaltech_colombia.Lifecycle.Rows.{
  Change-eq, update, same, KeepsIdentity, KeepsSound, Change, both, Change-or, keeps,
}

-- Every row with the id of `d` is in PROCESSING.
abbrev Busy : List DocumentRecord → DocumentRecord → Type 0
Busy xs d = All (λ (x : DocumentRecord). x.id ≡ d.id → is_processing x.ocr_status ≡ true) xs

update-Busy :
    (f : DocumentRecord → DocumentRecord) (k : KeepsIdentity f) (d d' : DocumentRecord)
    → d'.id ≢ d.id
    → (xs : List DocumentRecord) → Busy xs d'
    → Busy (update_where (has_id d.id) f xs) d'
update-Busy f k d d' n [] b = tt
update-Busy f k d d' n (x ∷ xs) b = ground (arith, k.same_id x, b.0, update-Busy f k d d' n xs b.1)

updates-Busy :
    (f : DocumentRecord → DocumentRecord) (k : KeepsIdentity f) (d : DocumentRecord)
    (xs ds : List DocumentRecord)
    → Absent id_of d.id ds
    → All (Busy xs) ds
    → All (Busy (update_where (has_id d.id) f xs)) ds
updates-Busy f k d xs [] a b = tt
updates-Busy f k d xs (d' ∷ ds) a b =
    (update-Busy f k d d' a.0 xs b.0, updates-Busy f k d xs ds a.1 b.1)

failed-KeepsSound :
    (d : DocumentRecord) (xs : List DocumentRecord)
    → Busy xs d
    → All (KeepsSound (has_id d.id) set_failed) xs
failed-KeepsSound d [] b = tt
failed-KeepsSound d (x ∷ xs) b = ((λ s h. ground (arith, b.0)), failed-KeepsSound d xs b.1)

pending-KeepsSound :
    (d : DocumentRecord) (xs : List DocumentRecord)
    → Busy xs d
    → All (KeepsSound (has_id d.id) set_pending) xs
pending-KeepsSound d [] b = tt
pending-KeepsSound d (x ∷ xs) b = ((λ s h. ground (arith, b.0)), pending-KeepsSound d xs b.1)

row-documents :
    (now : ℕ) (sent : Bool) (fresh : ℕ → ℕ) (o : OcrSweepOptions) (d : DocumentRecord) (db : Db)
    → ((sweep_row now sent fresh o d db).1.documents
        ≡ update_where (has_id d.id) set_failed db.documents)
      ⊎ ((sweep_row now sent fresh o d db).1.documents
          ≡ update_where (has_id d.id) set_pending db.documents)
unfolding sweep_row
row-documents now sent fresh o d db = ground arith

row-Change :
    (d : DocumentRecord) (ds xs ys : List DocumentRecord)
    → (ys ≡ update_where (has_id d.id) set_failed xs)
      ⊎ (ys ≡ update_where (has_id d.id) set_pending xs)
    → Absent id_of d.id ds
    → Busy xs d
    → All (Busy xs) ds
    → Change xs ys × All (Busy ys) ds
row-Change d ds xs ys (inl e) a b bs = rw e (
  update (has_id d.id) set_failed (keeps _ (λ d. refl) (λ d. refl) (λ d. refl))
      (failed-KeepsSound d xs b),
  updates-Busy set_failed (keeps _ (λ d. refl) (λ d. refl) (λ d. refl)) d xs ds a bs,
)
row-Change d ds xs ys (inr e) a b bs = rw e (
  update (has_id d.id) set_pending (keeps _ (λ d. refl) (λ d. refl) (λ d. refl))
      (pending-KeepsSound d xs b),
  updates-Busy set_pending (keeps _ (λ d. refl) (λ d. refl) (λ d. refl)) d xs ds a bs,
)

chain-Change :
    (m : Action Db (Unit {0})) (k : Action Db OcrSweepResult) (db : Db)
    → Change db.documents (m db).1.documents
    → Change (m db).1.documents (k (m db).1).1.documents
    → Change db.documents ((m >> k) db).1.documents
chain-Change m k db c c' = elim (bind-cases m (λ _. k) db) [
  | inl (q, e, f) ↦
      both c (
        subst (λ y. Change (m db).1.documents y.1.documents) (sym (f ∙ ap (λ y. k y.1) (sym e))) c')
  | inr (q, e, f) ↦
      subst (λ y. Change db.documents y)
        (ap (λ y. y.1.documents) e ∙ ap (λ y. y.1.documents) (sym f)) c
]

-- The loop of the sweep, over rows that are in PROCESSING when it starts.
sweep_rows-Change :
    (now : ℕ) (sent : Bool) (fresh : ℕ → ℕ) (o : OcrSweepOptions) (r : OcrSweepResult)
    (ds : List DocumentRecord) (db : Db)
    → DistinctBy id_of ds
    → All (Busy db.documents) ds
    → Change db.documents (sweep_rows now sent fresh o r ds db).1.documents
unfolding sweep_rows
sweep_rows-Change now sent fresh o r [] db u b = same
sweep_rows-Change now sent fresh o r (d ∷ ds) db u b =
    let next =
      row-Change d ds db.documents (sweep_row now sent fresh o d db).1.documents
        (row-documents now sent fresh o d db) u.0 b.0 b.1 in
    chain-Change (sweep_row now sent fresh o d) (sweep_rows now sent fresh o (add_row o d r) ds) db
      next.0
      (sweep_rows-Change now sent fresh o (add_row o d r) ds (sweep_row now sent fresh o d db).1 u.1
        next.1)

select-Absent :
    (k : ℕ) (p : DocumentRecord → Bool) (xs : List DocumentRecord)
    → Absent id_of k xs
    → Absent id_of k (select_where p xs)
select-Absent k p [] a = tt
select-Absent k p (x ∷ xs) a = ground (arith, select-Absent k p xs a.1)

select-DistinctBy :
    (p : DocumentRecord → Bool) (xs : List DocumentRecord)
    → DistinctBy id_of xs
    → DistinctBy id_of (select_where p xs)
select-DistinctBy p [] u = tt
select-DistinctBy p (x ∷ xs) u =
    ground (arith, select-Absent x.id p xs u.0, select-DistinctBy p xs u.1)

Absent-Busy : (d : DocumentRecord) (xs : List DocumentRecord) → Absent id_of d.id xs → Busy xs d
Absent-Busy d [] a = tt
Absent-Busy d (x ∷ xs) a = ((λ e. absurd (a.0 e)), Absent-Busy d xs a.1)

cons-Busy :
    (x : DocumentRecord) (xs ds : List DocumentRecord)
    → Absent id_of x.id ds
    → All (Busy xs) ds
    → All (Busy (x ∷ xs)) ds
cons-Busy x xs [] a b = tt
cons-Busy x xs (d ∷ ds) a b = (((λ e. absurd (a.0 (sym e))), b.0), cons-Busy x xs ds a.1 b.1)

select-Busy :
    (now : ℕ) (o : OcrSweepOptions) (xs : List DocumentRecord)
    → DistinctBy id_of xs
    → All (Busy xs) (select_where (is_abandoned now o) xs)
select-Busy now o [] u = tt
select-Busy now o (x ∷ xs) u =
    let rest =
      cons-Busy x xs (select_where (is_abandoned now o) xs)
        (select-Absent x.id (is_abandoned now o) xs u.0) (select-Busy now o xs u.1) in
    ground (arith, rest, Absent-Busy x xs u.0)

pub ocr_sweep-Change :
    (now : ℕ) (sent : Bool) (fresh : ℕ → ℕ) (o : OcrSweepOptions) (db : Db)
    → DistinctBy id_of db.documents
    → Change db.documents (sweep_abandoned_ocr now sent fresh o db).1.documents
unfolding sweep_abandoned_ocr
ocr_sweep-Change now sent fresh o db u =
    elim (transaction-state
      (sweep_rows now sent fresh o (record { requeued = []; failed = [] }) rows) db) [
        | inl e ↦ Change-eq db.documents _ (ap (λ y. y.documents) e)
        | inr e ↦ Change-or db.documents _ _ (inr (ap (λ y. y.documents) e)) (
            sweep_rows-Change now sent fresh o (record { requeued = []; failed = [] }) rows db
              (select-DistinctBy (is_abandoned now o) db.documents u)
              (select-Busy now o db.documents u))
      ]
  where
    rows : List DocumentRecord
    rows = select_where (is_abandoned now o) db.documents
