-- ===== src/Auth/Policy.antt =====
-- apps/api/src/modules/auth/auth.policy.ts. A resource is the id of its user.
use legaltech_colombia.Prelude.{ℕ, ◌==◌, if◌then◌else◌}
use legaltech_colombia.Common.{Actor, Decision, allow, deny, is_active, inactive_actor, not_owner}

-- The actions; any other is refused by the type.
pub data AuthPolicyAction : Type 0 where
  user_read session_list session_revoke : AuthPolicyAction

abbrev pub own : ℕ → Actor → Decision
own resource actor = if resource == actor.id then allow else deny not_owner

abbrev pub can_act : Actor → AuthPolicyAction → ℕ → Decision
can_act actor user_read resource = own resource actor
can_act actor session_list resource = own resource actor
can_act actor session_revoke resource = own resource actor

abbrev pub can : Actor → AuthPolicyAction → ℕ → Decision
can actor action resource =
    if is_active actor.status then can_act actor action resource else deny inactive_actor
