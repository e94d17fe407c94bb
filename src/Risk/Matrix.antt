-- ===== src/Risk/Matrix.antt =====
-- The statuses and actions of the risk workflow, and which action each status allows
-- (apps/backend/src/modules/risk-workflow/risk-workflow.policy.ts; the enumerations are those of
-- packages/contracts/src/index.ts and packages/database/prisma/schema.prisma).
use cloudshield_enterprise.Prelude.{
  ℕ, ◌≡◌, Bool, List, [], ◌∷◌, arith, Comparable, code_eq, includes,
}

-- `RiskWorkflowStatus` of the contracts
pub data WorkflowStatus : Type 0 where
  opened acknowledged assigned remediation_planned risk_accepted false_positive resolved archived
        reopened :
      WorkflowStatus

-- `RiskWorkflowActionName`
pub data ActionName : Type 0 where
  acknowledge assign plan_remediation accept_risk mark_false_positive resolve archive reopen :
      ActionName

unfoldable pub action_code : ActionName → ℕ
action_code acknowledge = 0
action_code assign = 1
action_code plan_remediation = 2
action_code accept_risk = 3
action_code mark_false_positive = 4
action_code resolve = 5
action_code archive = 6
action_code reopen = 7

pub action_code_injective : (a b : ActionName) → action_code a ≡ action_code b → a ≡ b
unfolding action_code
action_code_injective a b e = ground arith

instance abbrev pub action_eq : Comparable ActionName
action_eq = code_eq action_code action_code_injective

-- The column `workflowStatus` of the database, which has one value more.
pub data RiskStatus : Type 0 where
  accepted_risk : RiskStatus
  workflow : WorkflowStatus → RiskStatus

abbrev untriaged_actions : List ActionName
untriaged_actions = acknowledge ∷ assign ∷ mark_false_positive ∷ resolve ∷ archive ∷ []

abbrev owned_actions : List ActionName
owned_actions =
    assign ∷ plan_remediation ∷ accept_risk ∷ mark_false_positive ∷ resolve ∷ archive ∷ []

-- `RiskWorkflowTransitionMatrix`, which `availableRiskWorkflowActions` copies.
unfoldable pub transition_matrix : WorkflowStatus → List ActionName
transition_matrix opened = untriaged_actions
transition_matrix reopened = untriaged_actions
transition_matrix acknowledged = owned_actions
transition_matrix assigned = owned_actions
transition_matrix remediation_planned =
    assign ∷ plan_remediation ∷ accept_risk ∷ resolve ∷ archive ∷ []
transition_matrix risk_accepted = reopen ∷ archive ∷ []
transition_matrix false_positive = reopen ∷ archive ∷ []
transition_matrix resolved = reopen ∷ archive ∷ []
transition_matrix archived = reopen ∷ []

unfoldable pub is_transition_allowed : WorkflowStatus → ActionName → Bool
unfolding transition_matrix action_code
is_transition_allowed status action = includes (transition_matrix status) action

-- `normalizeWorkflowStatus`
unfoldable pub normalize_workflow_status : RiskStatus → WorkflowStatus
normalize_workflow_status accepted_risk = risk_accepted
normalize_workflow_status (workflow status) = status

unfoldable pub workflow_code : WorkflowStatus → ℕ
workflow_code opened = 0
workflow_code acknowledged = 1
workflow_code assigned = 2
workflow_code remediation_planned = 3
workflow_code risk_accepted = 4
workflow_code false_positive = 5
workflow_code resolved = 6
workflow_code archived = 7
workflow_code reopened = 8

unfoldable pub risk_status_code : RiskStatus → ℕ
unfolding workflow_code
risk_status_code accepted_risk = 9
risk_status_code (workflow s) = workflow_code s

workflow_code_injective : (a b : WorkflowStatus) → workflow_code a ≡ workflow_code b → a ≡ b
unfolding workflow_code
workflow_code_injective a b e = ground arith

pub risk_status_code_injective :
    (a b : RiskStatus) → risk_status_code a ≡ risk_status_code b → a ≡ b
unfolding risk_status_code
risk_status_code_injective a b e = ground arith

instance abbrev pub risk_status_eq : Comparable RiskStatus
risk_status_eq = code_eq risk_status_code risk_status_code_injective
