-- ===== src/Cases/Creation.antt =====
-- A case that is created can be read back.
use legaltech_colombia.Prelude.{
  ◌==◌, ℕ, ◌≡◌, ◌⊎◌, inl, inr, true, false, none, some, List, [], ◌∷◌, ◌++◌, arith, any, find_where,
  select_where, Bool-cases,
}
use legaltech_colombia.Common.{RequestContext, Error, ok, err, failure, database_error, allowed}
use legaltech_colombia.Common.Runs.{ok-same}
use legaltech_colombia.Database.{Db, CaseRecord, CaseStatusChange, CaseType, draft, audit_log_row}
use legaltech_colombia.Cases.Policy.{can, case_create}
use legaltech_colombia.Cases.Repository.{
  new_case, create_case, find_own_case, is_own, CreateCaseInput,
}
use legaltech_colombia.Cases.Service.{
  CurrentUser, Case, create, read_own, case_created_event, to_public_case, not_found_error,
  CaseDetailResponse,
}

abbrev pub input_of : CurrentUser → CaseType → RequestContext → CreateCaseInput
input_of current type context = record {
  user_id = current.user_id;
  type = type;
  audit = case_created_event current context;
}

abbrev pub first_change : ℕ → ℕ → CurrentUser → CaseStatusChange
first_change now id current = record {
  case_id = id;
  from_status = none;
  to_status = draft;
  changed_by_user_id = current.user_id;
  changed_at = now;
}

-- The database with the new case, its first status and its audit event.
abbrev pub opened : ℕ → ℕ → CurrentUser → CaseType → RequestContext → Db → Db
opened now id current type context db = record db {
  cases = db.cases ++ new_case now id (input_of current type context) ∷ [];
  status_history = db.status_history ++ first_change now id current ∷ [];
  audit_logs =
      db.audit_logs
      ++ audit_log_row
          (case_created_event current context (new_case now id (input_of current type context))) id
          now
        ∷ [];
}

module _ (now id : ℕ) (current : CurrentUser) (type : CaseType) (context : RequestContext)
    (db : Db) where
  -- Creating a case either writes the case, its first status and the audit event together, for a user
  -- who may create it and with an id that is new; or throws and changes nothing.
  pub create_atomic :
      ((allowed (can current.actor case_create current.user_id) ≡ true)
        × (any (λ (c : CaseRecord). c.id == id) db.cases ≡ false)
        × (create now id current type context db ≡ (
          ok (to_public_case (new_case now id (input_of current type context))),
          opened now id current type context db,
        )))
      ⊎ ((e : Error) × (create now id current type context db ≡ (err e, db)))
  unfolding create create_case
  create_atomic = elim (Bool-cases (allowed (can current.actor case_create current.user_id))) [
    | inr denied ↦ inr (not_found_error, ground arith)
    | inl may ↦ elim (Bool-cases (any (λ (c : CaseRecord). c.id == id) db.cases)) [
      | inl clash ↦ inr (failure database_error, ground arith)
      | inr new ↦ inl (may, new, ground arith)
    ]
  ]

  found-new :
      (user_id : ℕ) (cs : List CaseRecord) (c : CaseRecord)
      → any (λ (c : CaseRecord). c.id == id) cs ≡ false
      → is_own id user_id c ≡ true
      → find_where (is_own id user_id) (cs ++ c ∷ []) ≡ some c
  found-new user_id [] c h k = ground arith
  found-new user_id (x ∷ xs) c h k = ground (arith, found-new user_id xs c)

  history-new :
      (xs : List CaseStatusChange)
      → any (λ (s : CaseStatusChange). s.case_id == id) xs ≡ false
      → select_where
          (λ (s : CaseStatusChange). s.case_id == id)
          (xs ++ first_change now id current ∷ [])
        ≡ first_change now id current ∷ []
  history-new [] h = ground arith
  history-new (x ∷ xs) h = ground (arith, history-new xs)

  detail : CaseDetailResponse
  detail = record {
    detail = to_public_case (new_case now id (input_of current type context));
    status_history = record { from_status = none; to_status = draft; changed_at = now } ∷ [];
  }

  opened-read :
      allowed (can current.actor case_create current.user_id) ≡ true
      → any (λ (c : CaseRecord). c.id == id) db.cases ≡ false
      → any (λ (s : CaseStatusChange). s.case_id == id) db.status_history ≡ false
      → read_own current id (opened now id current type context db)
        ≡ (ok detail, opened now id current type context db)
  unfolding read_own find_own_case can detail
  opened-read may new none_yet = ground (
    arith,
    found-new current.user_id db.cases (new_case now id (input_of current type context)) new,
    history-new db.status_history none_yet,
  )

  -- A user who creates a case can read it back at once: the case as the creation answered it, with a
  -- history of one entry, from no status to DRAFT.
  pub create-read_own :
      (c : Case) (db' : Db)
      → any (λ (s : CaseStatusChange). s.case_id == id) db.status_history ≡ false
      → create now id current type context db ≡ (ok c, db')
      → read_own current id db' ≡ (
        ok (record {
          detail = c;
          status_history = record { from_status = none; to_status = draft; changed_at = now } ∷ [];
        }),
        db',
      )
  unfolding detail
  create-read_own c db' none_yet h = elim create_atomic [
    | inl (may, new, e) ↦
        let (same_case, same_db) =
          ok-same (create now id current type context db) c
            (to_public_case (new_case now id (input_of current type context))) db'
            (opened now id current type context db) h e in
        rw (same_case, same_db) (opened-read may new none_yet)
    | inr (x, e) ↦ ground arith
  ]
