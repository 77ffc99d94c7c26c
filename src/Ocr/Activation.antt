-- ===== src/Ocr/Activation.antt =====
-- apps/worker/src/ocr/ocr-activation.ts: the activation of the OCR, its invariant, and what must hold
-- before a worker runs it.
use legaltech_colombia.Prelude.{
  ℕ, Bool, true, ◌&&◌, not, Option, none, some, ltb, count_where, update_where,
}
use legaltech_colombia.Common.{
  Action, pure, gets, modify, transaction, throw_if, failure, invariant_violated, no_provider,
  pdf_unresolved, ◌>>=◌, ◌>>◌,
}
use legaltech_colombia.Database.{
  Db, DocumentRecord, is_clean, is_infected, is_not_started, excluded, not_applicable,
}

pub record OcrActivationResult : Type 0 where
  pub excluded_count : ℕ
  pub not_applicable_count : ℕ

abbrev pub old_clean : DocumentRecord → Bool
old_clean d = is_clean d.status && is_not_started d.ocr_status

abbrev pub old_infected : DocumentRecord → Bool
old_infected d = is_infected d.status && is_not_started d.ocr_status

abbrev pub set_excluded : DocumentRecord → DocumentRecord
set_excluded d = record d { ocr_status = excluded }

abbrev pub set_not_applicable : DocumentRecord → DocumentRecord
set_not_applicable d = record d { ocr_status = not_applicable }

unfoldable pub count_violations : Action Db ℕ
count_violations = gets (λ db. count_where old_clean db.documents)

-- A violation of the invariant throws: the transaction is rolled back.
unfoldable pub activate_ocr : Action Db OcrActivationResult
unfolding count_violations
activate_ocr = transaction do
  old ← gets (λ db. count_where old_clean db.documents)
  modify (λ db. record db { documents = update_where old_clean set_excluded db.documents })
  ill ← gets (λ db. count_where old_infected db.documents)
  modify (λ db. record db { documents = update_where old_infected set_not_applicable db.documents })
  violations ← count_violations
  throw_if (ltb 0 violations) (failure invariant_violated)
  pure (record { excluded_count = old; not_applicable_count = ill })

-- `check.provider` is absent, or says whether it is external.
unfoldable pub assert_ocr_startup_preconditions : Option Bool → Bool → Bool → Action Db (Unit {0})
unfolding count_violations
assert_ocr_startup_preconditions none pdf_enabled pdf_p7_resolved =
    throw_if true (failure no_provider)
assert_ocr_startup_preconditions (some external) pdf_enabled pdf_p7_resolved = do
  throw_if (pdf_enabled && (external && not pdf_p7_resolved)) (failure pdf_unresolved)
  violations ← count_violations
  throw_if (ltb 0 violations) (failure invariant_violated)
