-- ===== src/Cases/Policy.antt =====
-- apps/api/src/modules/cases/cases.policy.ts. The type of the actions leaves the `default` case of
-- the switch unreached.
use legaltech_colombia.Prelude.{ℕ, not, ◌==◌, if◌then◌else◌}
use legaltech_colombia.Common.{
  Actor, is_active, is_user, Decision, allow, deny, inactive_actor, role_not_allowed, not_owner,
}

pub data CaseAction : Type 0 where
  case_create case_list case_read : CaseAction

unfoldable pub can : Actor → CaseAction → ℕ → Decision
can actor action user_id =
    if not (is_active actor.status)
    then deny inactive_actor
    else if not (is_user actor.role)
    then deny role_not_allowed
    else elim action [
      | case_create ↦ if user_id == actor.id then allow else deny not_owner
      | case_list ↦ if user_id == actor.id then allow else deny not_owner
      | case_read ↦ if user_id == actor.id then allow else deny not_owner
    ]
