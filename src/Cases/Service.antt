-- ===== src/Cases/Service.antt =====
-- apps/api/src/modules/cases/cases.service.ts and cases.mapper.ts. `toISOString` is left out: a
-- public case has the instants themselves.
use legaltech_colombia.Prelude.{ℕ, not, Option, none, some, List, map}
use legaltech_colombia.Common.{
  Actor, Role, RequestContext, allowed, http, not_found, Action, pure, throw, throw_if, ◌>>=◌, ◌>>◌,
  Error,
}
use legaltech_colombia.Database.{
  Db, CaseType, CaseStatus, CaseRecord, CaseStatusChange, AuditLogEntry, case_created, case_entity,
  case_value,
}
use legaltech_colombia.Cases.Policy.{can, case_create, case_list, case_read}
use legaltech_colombia.Cases.Repository.{
  CaseWithHistory, create_case, list_own_cases, find_own_case,
}

-- The parts of `CurrentUserResult` that the services read.
pub record CurrentUser : Type 0 where
  pub user_id : ℕ
  pub user_role : Role
  pub actor : Actor

pub record Case : Type 0 where
  pub id : ℕ
  pub type : CaseType
  pub status : CaseStatus
  pub created_at : ℕ
  pub updated_at : ℕ

abbrev pub to_public_case : CaseRecord → Case
to_public_case c = record {
  id = c.id;
  type = c.type;
  status = c.status;
  created_at = c.created_at;
  updated_at = c.updated_at;
}

pub record PublicStatusChange : Type 0 where
  pub from_status : Option CaseStatus
  pub to_status : CaseStatus
  pub changed_at : ℕ

abbrev pub to_public_status_change : CaseStatusChange → PublicStatusChange
to_public_status_change s = record {
  from_status = s.from_status;
  to_status = s.to_status;
  changed_at = s.changed_at;
}

pub record CaseDetailResponse : Type 0 where
  pub detail : Case
  pub status_history : List PublicStatusChange

abbrev pub not_found_error : Error
not_found_error = http 404 not_found none

abbrev pub case_created_event : CurrentUser → RequestContext → CaseRecord → AuditLogEntry
case_created_event current context c = record {
  actor_user_id = some current.user_id;
  actor_role = some current.user_role;
  action = case_created;
  entity_type = case_entity;
  entity_id = c.id;
  case_id = none;
  value = case_value c.type c.status;
  request_id = some context.request_id;
  ip = context.ip;
  user_agent = context.user_agent;
}

-- `CasesService.createCase`
unfoldable pub create : ℕ → ℕ → CurrentUser → CaseType → RequestContext → Action Db Case
create now id current type context = do
  throw_if (not (allowed (can current.actor case_create current.user_id))) not_found_error
  created ← create_case now id (record {
    user_id = current.user_id;
    type = type;
    audit = case_created_event current context;
  })
  pure (to_public_case created)

-- `CasesService.listOwnCases`
unfoldable pub list_own : CurrentUser → Action Db (List Case)
list_own current = do
  throw_if (not (allowed (can current.actor case_list current.user_id))) not_found_error
  cases ← list_own_cases current.user_id
  pure (map to_public_case cases)

abbrev detail_of : CurrentUser → Option CaseWithHistory → Action Db CaseDetailResponse
detail_of current none = throw not_found_error
detail_of current (some f) = do
  throw_if (not (allowed (can current.actor case_read f.found.user_id))) not_found_error
  pure (record {
    detail = to_public_case f.found;
    status_history = map to_public_status_change f.status_history;
  })

-- `CasesService.readOwnCase`
unfoldable pub read_own : CurrentUser → ℕ → Action Db CaseDetailResponse
read_own current case_id = do
  throw_if (not (allowed (can current.actor case_read current.user_id))) not_found_error
  found ← find_own_case case_id current.user_id
  detail_of current found
