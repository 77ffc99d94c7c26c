-- ===== src/Cases/Status.antt =====
-- apps/api/src/modules/cases/case-status.ts: the state machine of a case. The triggers, which only
-- document a transition, are left out.
pub mod Chain
use legaltech_colombia.Prelude.{
  ℕ, ◌≡◌, refl, Bool, true, false, ◌&&◌, Option, none, some, List, [], ◌∷◌, ◌==◌, if◌then◌else◌,
  select_where, find_where, any, ap, ◌∙◌, sym,
}
use legaltech_colombia.Database.{
  CaseStatus, draft, documents_pending, preliminary_analysis, payment_pending, paid, legal_review,
  document_preparation, ready_to_file, filed, waiting_response, response_received, follow_up,
  resolved, closed, cancelled,
}

pub data TransitionBasis : Type 0 where
  explicit inferred : TransitionBasis

pub data TransitionActor : Type 0 where
  system professional pending : TransitionActor

pub data TransitionPhase : Type 0 where
  questionnaire_or_documents documents pricing payments professionals : TransitionPhase

pub data TransitionId : Type 0 where
  t1 t2 t3 t4 t5 t6 t7 t8 t9 t10 : TransitionId

pub record CaseTransition : Type 0 where
  pub id : TransitionId
  pub from : CaseStatus
  pub to : CaseStatus
  pub basis : TransitionBasis
  pub actor : TransitionActor
  pub phase : TransitionPhase
  pub enabled : Bool

abbrev pub initial_case_status : CaseStatus
initial_case_status = draft

-- The place of a status in the enumeration, by which `===` is decided.
abbrev pub place : CaseStatus → ℕ
place draft = 0
place documents_pending = 1
place preliminary_analysis = 2
place payment_pending = 3
place paid = 4
place legal_review = 5
place document_preparation = 6
place ready_to_file = 7
place filed = 8
place waiting_response = 9
place response_received = 10
place follow_up = 11
place resolved = 12
place closed = 13
place cancelled = 14

abbrev pub same_status : CaseStatus → CaseStatus → Bool
same_status a b = place a == place b

abbrev transition :
    TransitionId
    → CaseStatus
    → CaseStatus
    → TransitionBasis
    → TransitionActor
    → TransitionPhase
    → CaseTransition
transition id from to basis actor phase = record {
  id = id;
  from = from;
  to = to;
  basis = basis;
  actor = actor;
  phase = phase;
  enabled = false;
}

abbrev pub case_transitions : List CaseTransition
case_transitions =
    transition t1 draft documents_pending inferred pending questionnaire_or_documents
    ∷ transition t2 documents_pending preliminary_analysis inferred system documents
    ∷ transition t3 preliminary_analysis payment_pending inferred pending pricing
    ∷ transition t4 payment_pending paid explicit system payments
    ∷ transition t5 paid legal_review inferred pending professionals
    ∷ transition t6 legal_review document_preparation inferred professional professionals
    ∷ transition t7 document_preparation ready_to_file inferred professional professionals
    ∷ transition t8 ready_to_file filed inferred professional professionals
    ∷ transition t9 filed waiting_response inferred pending professionals
    ∷ transition t10 waiting_response response_received inferred professional professionals
    ∷ []

-- The functions read the table; it is a parameter, so that what is stated of them holds for any
-- table.
pub documented_in : List CaseTransition → CaseStatus → List CaseTransition
documented_in table from = select_where (λ t. same_status t.from from) table

abbrev pub is_allowed : CaseStatus → CaseStatus → CaseTransition → Bool
is_allowed from to t = same_status t.from from && (same_status t.to to && t.enabled)

pub can_transition_in : List CaseTransition → CaseStatus → CaseStatus → Bool
can_transition_in table from to = any (is_allowed from to) table

pub data TransitionResult : Type 0 where
  allowed : CaseTransition → TransitionResult
  invalid_case_transition : CaseStatus → CaseStatus → TransitionResult

abbrev or_invalid : CaseStatus → CaseStatus → Option CaseTransition → TransitionResult
or_invalid from to none = invalid_case_transition from to
or_invalid from to (some t) = allowed t

pub assert_transition_in : List CaseTransition → CaseStatus → CaseStatus → TransitionResult
assert_transition_in table from to = or_invalid from to (find_where (is_allowed from to) table)

unfoldable pub documented_transitions : CaseStatus → List CaseTransition
unfolding documented_in
documented_transitions from = documented_in case_transitions from

unfoldable pub can_transition : CaseStatus → CaseStatus → Bool
unfolding can_transition_in
can_transition from to = can_transition_in case_transitions from to

unfoldable pub assert_transition : CaseStatus → CaseStatus → TransitionResult
unfolding assert_transition_in
assert_transition from to = assert_transition_in case_transitions from to
