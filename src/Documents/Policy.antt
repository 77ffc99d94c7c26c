-- ===== src/Documents/Policy.antt =====
-- apps/api/src/modules/documents/documents.policy.ts. The type of the actions leaves the `default`
-- case of the switch unreached.
use legaltech_colombia.Prelude.{ℕ, not, ◌==◌, if◌then◌else◌}
use legaltech_colombia.Common.{
  Actor, is_active, is_user, is_admin, Decision, allow, deny, inactive_actor, role_not_allowed,
  not_owner,
}

pub data DocumentAction : Type 0 where
  upload list download read_ocr reprocess reprocess_ocr : DocumentAction

owner_only : Actor → ℕ → Decision
owner_only actor case_owner_id =
    if not (is_user actor.role)
    then deny role_not_allowed
    else if case_owner_id == actor.id
    then allow
    else deny not_owner

admin_only : Actor → Decision
admin_only actor = if is_admin actor.role then allow else deny role_not_allowed

unfoldable pub can : Actor → DocumentAction → ℕ → Decision
unfolding owner_only admin_only
can actor action case_owner_id =
    if not (is_active actor.status) then deny inactive_actor else elim action [
      | upload ↦ owner_only actor case_owner_id
      | list ↦ owner_only actor case_owner_id
      | download ↦ owner_only actor case_owner_id
      | read_ocr ↦ owner_only actor case_owner_id
      | reprocess ↦ admin_only actor
      | reprocess_ocr ↦ admin_only actor
    ]
