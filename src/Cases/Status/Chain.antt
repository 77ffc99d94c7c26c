-- ===== src/Cases/Status/Chain.antt =====
-- What the table of transitions allows.
use legaltech_colombia.Prelude.{◌≡◌, ◌≤◌, false, arith, length}
use legaltech_colombia.Database.{CaseStatus, draft}
use legaltech_colombia.Cases.Status.{
  documented_transitions, can_transition, assert_transition, invalid_case_transition,
}

-- Every status has at most one documented transition.
pub documented_transitions-le_one : (s : CaseStatus) → length (documented_transitions s) ≤ 1
unfolding documented_transitions
documented_transitions-le_one draft = omega arith
documented_transitions-le_one s = omega arith

-- No transition can happen yet, from any status to any other.
pub can_transition-none :
    (from to : CaseStatus)
    → (can_transition from to ≡ false)
      × (assert_transition from to ≡ invalid_case_transition from to)
unfolding can_transition assert_transition
can_transition-none from to = ground arith
