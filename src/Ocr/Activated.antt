-- ===== src/Ocr/Activated.antt =====
-- What the activation of the OCR leaves.
use legaltech_colombia.Prelude.{
  ap, ◌≡◌, refl, List, [], ◌∷◌, arith, count_where, update_where, update_where_none,
}
use legaltech_colombia.Common.{ok}
use legaltech_colombia.Database.{Db, DocumentRecord}
use legaltech_colombia.Ocr.Activation.{
  old_clean, old_infected, set_excluded, set_not_applicable, count_violations, activate_ocr,
}

abbrev excluded_rows : List DocumentRecord → List DocumentRecord
excluded_rows xs =
    update_where old_infected set_not_applicable (update_where old_clean set_excluded xs)

old_clean-none : (xs : List DocumentRecord) → count_where old_clean (excluded_rows xs) ≡ 0
old_clean-none [] = refl
old_clean-none (x ∷ xs) = ground (arith, old_clean-none xs)

old_infected-none : (xs : List DocumentRecord) → count_where old_infected (excluded_rows xs) ≡ 0
old_infected-none [] = refl
old_infected-none (x ∷ xs) = ground (arith, old_infected-none xs)

old_infected-same :
    (xs : List DocumentRecord)
    → count_where old_infected (update_where old_clean set_excluded xs)
      ≡ count_where old_infected xs
old_infected-same [] = refl
old_infected-same (x ∷ xs) = ground (arith, old_infected-same xs)

activates :
    (db : Db)
    → activate_ocr db ≡ (
      ok (record {
        excluded_count = count_where old_clean db.documents;
        not_applicable_count = count_where old_infected db.documents;
      }),
      record db { documents = excluded_rows db.documents },
    )
unfolding activate_ocr
activates db = ground (arith, old_clean-none db.documents, old_infected-same db.documents)

-- An activation of what an activation left.
again :
    (db : Db)
    → activate_ocr (record db { documents = excluded_rows db.documents }) ≡ (
      ok (record { excluded_count = 0; not_applicable_count = 0 }),
      record db { documents = excluded_rows db.documents },
    )
unfolding activate_ocr
again db = ground (
  arith,
  old_clean-none db.documents,
  old_infected-none db.documents,
  update_where_none old_clean set_excluded (excluded_rows db.documents)
      (old_clean-none db.documents),
  update_where_none old_infected set_not_applicable (excluded_rows db.documents)
      (old_infected-none db.documents),
)

-- The activation never fails: it counts the CLEAN and the INFECTED documents that the OCR had not
-- started on, leaves no document that breaks the invariant, and a second activation counts none and
-- changes nothing.
pub activation_settles :
    (db : Db)
    → ((activate_ocr db).0
        ≡ ok (record {
          excluded_count = count_where old_clean db.documents;
          not_applicable_count = count_where old_infected db.documents;
        }))
      × ((count_violations (activate_ocr db).1).0 ≡ ok 0)
      × (activate_ocr (activate_ocr db).1
          ≡ (ok (record { excluded_count = 0; not_applicable_count = 0 }), (activate_ocr db).1))
unfolding count_violations
activation_settles db = rw (activates db) (refl, ap ok (old_clean-none db.documents), again db)
