-- ===== src/Risk/Steps.antt =====
-- The risk workflow as an abstract machine: a status for each finding, and the moves that the
-- handlers make on it.
use cloudshield_enterprise.Prelude.{
  String, ℕ, ◌≡◌, refl, Bool, true, false, ◌||◌, Option, some, if◌then◌else◌, ◌==◌, string_eq,
  arith,
}
use cloudshield_enterprise.Risk.Matrix.{
  WorkflowStatus, opened, acknowledged, assigned, remediation_planned, risk_accepted,
  false_positive, resolved, archived, reopened, ActionName, is_transition_allowed,
  transition_matrix, action_code,
}
use cloudshield_enterprise.Risk.Finding.{ActorContext}
use cloudshield_enterprise.Risk.Actions.{Request, input_of}

-- Nobody has looked at the finding yet.
abbrev pub is_new : WorkflowStatus → Bool
is_new opened = true
is_new reopened = true
is_new _ = false

abbrev pub is_triaged : WorkflowStatus → Bool
is_triaged acknowledged = true
is_triaged assigned = true
is_triaged remediation_planned = true
is_triaged _ = false

abbrev pub is_planned : WorkflowStatus → Bool
is_planned remediation_planned = true
is_planned _ = false

abbrev pub is_archived : WorkflowStatus → Bool
is_archived archived = true
is_archived _ = false

-- Work on the finding is pending.
abbrev pub is_pending : WorkflowStatus → Bool
is_pending s = is_new s || is_triaged s

-- The moves of one finding.
pub data Step (s : WorkflowStatus) : ActionName → WorkflowStatus → Type 0 where
  acknowledge : is_new s ≡ true → Step s ActionName.acknowledge acknowledged
  assign : is_pending s ≡ true → Step s ActionName.assign assigned
  plan : is_triaged s ≡ true → Step s ActionName.plan_remediation remediation_planned
  accept : is_triaged s ≡ true → Step s ActionName.accept_risk risk_accepted
  dismiss :
      is_pending s ≡ true
      → is_planned s ≡ false
      → Step s ActionName.mark_false_positive false_positive
  resolve : is_pending s ≡ true → Step s ActionName.resolve resolved
  archive : is_archived s ≡ false → Step s ActionName.archive archived
  reopen : is_pending s ≡ false → Step s ActionName.reopen reopened

pub allowed-Step :
    (s : WorkflowStatus) (actor : ActorContext) (at : ℕ) (request : Request)
    → let input = input_of actor at request in
      is_transition_allowed s input.action ≡ true → Step s input.action input.status
unfolding is_transition_allowed transition_matrix action_code input_of
allowed-Step s actor at Request.acknowledge_finding h = Step.acknowledge (ground arith)
allowed-Step s actor at Request.mark_false_positive h = Step.dismiss (ground arith) (ground arith)
allowed-Step s actor at Request.resolve_finding h = Step.resolve (ground arith)
allowed-Step s actor at Request.archive_finding h = Step.archive (ground arith)
allowed-Step s actor at Request.reopen_finding h = Step.reopen (ground arith)
allowed-Step s actor at (Request.assign_finding body) h = Step.assign (ground arith)
allowed-Step s actor at (Request.plan_remediation body) h = Step.plan (ground arith)
allowed-Step s actor at (Request.accept_risk body) h = Step.accept (ground arith)

-- The action that a request is for.
abbrev pub action_of : Request → ActionName
action_of Request.acknowledge_finding = ActionName.acknowledge
action_of Request.mark_false_positive = ActionName.mark_false_positive
action_of Request.resolve_finding = ActionName.resolve
action_of Request.archive_finding = ActionName.archive
action_of Request.reopen_finding = ActionName.reopen
action_of (Request.assign_finding body) = ActionName.assign
action_of (Request.plan_remediation body) = ActionName.plan_remediation
action_of (Request.accept_risk body) = ActionName.accept_risk

pub action-input :
    (actor : ActorContext) (at : ℕ) (request : Request)
    → (input_of actor at request).action ≡ action_of request
unfolding input_of
action-input actor at Request.acknowledge_finding = refl
action-input actor at Request.mark_false_positive = refl
action-input actor at Request.resolve_finding = refl
action-input actor at Request.archive_finding = refl
action-input actor at Request.reopen_finding = refl
action-input actor at (Request.assign_finding body) = refl
action-input actor at (Request.plan_remediation body) = refl
action-input actor at (Request.accept_risk body) = refl

-- The status of every finding.
abbrev pub View : Type 0
View = String → Option WorkflowStatus

abbrev pub move_to : View → String → WorkflowStatus → View
move_to v id t j = if id == j then some t else v j

-- The finding makes the move of the action, or nothing changes.
pub data Move (v : View) (id : String) (action : ActionName) : View → Type 0 where
  stay : Move v id action v
  move :
      {s t : WorkflowStatus} → v id ≡ some s → Step s action t → Move v id action (move_to v id t)
