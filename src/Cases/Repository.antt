-- ===== src/Cases/Repository.antt =====
-- apps/api/src/modules/cases/cases.types.ts and cases.repository.ts. `now` is `clock_timestamp()`, and
-- `id` the id that PostgreSQL generates for the case.
use legaltech_colombia.Prelude.{
  ℕ, Bool, ◌&&◌, ◌||◌, Option, none, some, List, [], ◌∷◌, ◌++◌, ltb, ◌==◌, if◌then◌else◌,
  select_where, find_where, any,
}
use legaltech_colombia.Common.{
  Action, pure, gets, modify, transaction, throw_if, failure, database_error, ◌>>=◌, ◌>>◌,
}
use legaltech_colombia.Database.{
  Db, CaseType, CaseRecord, CaseStatusChange, draft, AuditLogEntry, audit_log_row, add_audit,
}

pub record CaseWithHistory : Type 0 where
  pub found : CaseRecord
  pub status_history : List CaseStatusChange

pub record CreateCaseInput : Type 0 where
  pub user_id : ℕ
  pub type : CaseType
  pub audit : CaseRecord → AuditLogEntry

abbrev pub new_case : ℕ → ℕ → CreateCaseInput → CaseRecord
new_case now id input = record {
  id = id;
  user_id = input.user_id;
  type = input.type;
  status = draft;
  created_at = now;
  updated_at = now;
}

-- An id that is taken breaks the primary key.
unfoldable pub create_case : ℕ → ℕ → CreateCaseInput → Action Db CaseRecord
create_case now id input = transaction do
  let created = new_case now id input
  clash ← gets (λ db. any (λ c. c.id == id) db.cases)
  throw_if clash (failure database_error)
  modify (λ db. record db { cases = db.cases ++ created ∷ [] })
  modify (λ db. record db {
    status_history =
        db.status_history
        ++ record {
          case_id = id;
          from_status = none;
          to_status = draft;
          changed_by_user_id = input.user_id;
          changed_at = now;
        }
          ∷ [];
  })
  modify (add_audit (audit_log_row (input.audit created) id now))
  pure created

-- `orderBy: [{ createdAt: "desc" }, { id: "desc" }]`
abbrev pub precedes : CaseRecord → CaseRecord → Bool
precedes a b = ltb b.created_at a.created_at || a.created_at == b.created_at && ltb b.id a.id

unfoldable pub insert_case : CaseRecord → List CaseRecord → List CaseRecord
insert_case c [] = c ∷ []
insert_case c (x ∷ xs) = if precedes c x then c ∷ x ∷ xs else x ∷ insert_case c xs

unfoldable pub sort_cases : List CaseRecord → List CaseRecord
unfolding insert_case
sort_cases [] = []
sort_cases (x ∷ xs) = insert_case x (sort_cases xs)

unfoldable pub list_own_cases : ℕ → Action Db (List CaseRecord)
list_own_cases user_id = gets (λ db. sort_cases (select_where (λ c. c.user_id == user_id) db.cases))

-- `orderBy: [{ changedAt: "asc" }, …]`; entries of one instant stay in the order of the table.
unfoldable pub insert_change : CaseStatusChange → List CaseStatusChange → List CaseStatusChange
insert_change s [] = s ∷ []
insert_change s (x ∷ xs) =
    if ltb x.changed_at s.changed_at then x ∷ insert_change s xs else s ∷ x ∷ xs

unfoldable pub sort_history : List CaseStatusChange → List CaseStatusChange
unfolding insert_change
sort_history [] = []
sort_history (x ∷ xs) = insert_change x (sort_history xs)

abbrev history_of : Db → ℕ → Option CaseRecord → Option CaseWithHistory
history_of db case_id none = none
history_of db case_id (some c) = some (record {
  found = c;
  status_history = sort_history (select_where (λ s. s.case_id == case_id) db.status_history);
})

abbrev pub is_own : ℕ → ℕ → CaseRecord → Bool
is_own case_id user_id c = c.id == case_id && c.user_id == user_id

unfoldable pub find_own_case : ℕ → ℕ → Action Db (Option CaseWithHistory)
unfolding sort_history
find_own_case case_id user_id =
    gets (λ db. history_of db case_id (find_where (is_own case_id user_id) db.cases))
