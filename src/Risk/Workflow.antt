-- ===== src/Risk/Workflow.antt =====
-- The updates of a finding's workflow
-- (apps/backend/src/modules/risk-workflow/risk-workflow.service.ts). `others` stands for what other
-- processes write between the read of the finding and the transaction; a transaction that throws
-- leaves the database as it found it. A message that names the action and the status is shortened to
-- its fixed part.
use cloudshield_enterprise.Prelude.{
  String, ℕ, Bool, true, false, not, ◌&&◌, ◌||◌, Option, none, some, List, ◌∷◌, if◌then◌else◌, ◌==◌,
  string_eq, nat_eq, is_some,
}
use cloudshield_enterprise.Store.{Table}
use cloudshield_enterprise.Accounts.{GuardError, assert_governance_target_operationally_active}
use cloudshield_enterprise.Risk.{AcceptedResource}
use cloudshield_enterprise.Risk.Finding.{
  ActorContext, RiskFinding, written, provided, Justification, WorkflowInput, WorkflowAudit,
  RiskAcceptance, Relations, RiskDb, WorkflowReply,
}
use cloudshield_enterprise.Risk.Matrix.{
  ActionName, RiskStatus, action_eq, risk_status_eq, is_transition_allowed,
  normalize_workflow_status,
}

abbrev pub owned_finding : String → Option RiskFinding → Option RiskFinding
owned_finding organization none = none
owned_finding organization (some f) = if f.organization_id == organization then some f else none

-- The `where` of the conditional update.
abbrev pub is_as_read : ActorContext → RiskFinding → RiskFinding → Bool
is_as_read actor existing f =
    f.organization_id == actor.organization_id
    && (f.status == existing.status
        && (f.workflow_status == existing.workflow_status && f.updated_at == existing.updated_at))

abbrev pub write_workflow : WorkflowInput → ℕ → RiskFinding → RiskFinding
write_workflow input now f =
    let d = input.data_ in
    record f {
      status = RiskStatus.workflow input.status;
      workflow_status = RiskStatus.workflow input.status;
      owner_team_id = provided d.owner_team_id f.owner_team_id;
      assigned_to_user_id = provided d.assigned_to_user_id f.assigned_to_user_id;
      priority = written d.priority f.priority;
      business_impact = provided d.business_impact f.business_impact;
      remediation_plan = provided d.remediation_plan f.remediation_plan;
      target_resolution_date = provided d.target_resolution_date f.target_resolution_date;
      due_at = provided d.due_at f.due_at;
      risk_accepted_until = written d.risk_accepted_until f.risk_accepted_until;
      risk_acceptance_reason = written d.risk_acceptance_reason f.risk_acceptance_reason;
      risk_accepted_by_user_id = written d.risk_accepted_by_user_id f.risk_accepted_by_user_id;
      risk_accepted_at = written d.risk_accepted_at f.risk_accepted_at;
      archived_at = written d.archived_at f.archived_at;
      resolved_at = written d.resolved_at f.resolved_at;
      reopened_at = written d.reopened_at f.reopened_at;
      last_workflow_action_at = some now;
      updated_at = now;
    }

-- The HTTP status and the message of an error.
abbrev pub Refusal : Type 0
Refusal = ℕ × String

infixr 20 ◌otherwise◌
abbrev pub ◌otherwise◌ : Option Refusal → Option Refusal → Option Refusal
none otherwise later = later
some e otherwise later = some e

abbrev pub error_if : Bool → ℕ → String → Option Refusal
error_if true code message = some (code, message)
error_if false code message = none

abbrev guard_refusal : Option GuardError → Option Refusal
guard_refusal none = none
guard_refusal (some e) = some (e.status_code, e.message)

abbrev pub is_dead : Option AcceptedResource → Bool
is_dead none = false
is_dead (some r) = is_some r.archived_at || is_some r.stale_at

-- Ids are not empty, so that one is truthy where it is not `null`.
abbrev pub has_owner : RiskFinding → Bool
has_owner f = is_some f.owner_team_id || is_some f.assigned_to_user_id

abbrev pub missing_in : (String → Bool) → Option String → Bool
missing_in known none = false
missing_in known (some id) = not (known id)

module _ (relations : Relations) where
  -- The tests of `updateWorkflow` before its transaction.
  unfoldable pub precondition : RiskFinding → WorkflowInput → Option Refusal
  precondition existing input =
      guard_refusal (assert_governance_target_operationally_active (relations.aws_account existing))
      otherwise error_if
          (not (
            is_transition_allowed (normalize_workflow_status existing.workflow_status)
              input.action))
          409 "The action is not available from this status."
      otherwise error_if
          (input.action == ActionName.accept_risk && is_dead (relations.resource existing)) 409
          "Risk acceptance requires an active resource. This resource is stale or archived."
      otherwise error_if (input.action == ActionName.accept_risk && not (has_owner existing)) 409
          "Risk acceptance requires a current owner."

  unfoldable pub validate_team_and_user : String → Option String → Option String → Option Refusal
  validate_team_and_user organization owner_team_id assigned_to_user_id =
      error_if (not (is_some owner_team_id || is_some assigned_to_user_id)) 400
        "Assignment requires an owner team or assigned user."
      otherwise error_if (missing_in (relations.has_team organization) owner_team_id) 400
          "Owner team is unavailable for this workspace."
      otherwise error_if (missing_in (relations.has_user organization) assigned_to_user_id) 400
          "Assigned user is unavailable for this workspace."

  unfoldable pub assignment_refusal : ActorContext → WorkflowInput → Option Refusal
  assignment_refusal actor input =
      if input.action == ActionName.assign
      then validate_team_and_user actor.organization_id input.data_.owner_team_id
          input.data_.assigned_to_user_id
      else none

  -- `email || name || "Unassigned"`; an empty text is falsy.
  abbrev truthy_or : Option String → String → String
  truthy_or none fallback = fallback
  truthy_or (some s) fallback = if s == "" then fallback else s

  unfoldable pub accepted :
      ActorContext → RiskFinding → Option Justification → List RiskAcceptance → List RiskAcceptance
  accepted actor finding none rows = rows
  accepted actor finding (some j) rows =
      (record {
        organization_id = actor.organization_id;
        security_finding_id = finding.id;
        business_justification = j.business_justification;
        approver = actor.user_id;
        owner =
            truthy_or (relations.assignee_email finding)
              (truthy_or (relations.owner_team_name finding) "Unassigned");
        owner_team_id = finding.owner_team_id;
        evidence_snapshot_id = relations.evidence_snapshot actor.organization_id finding.id;
        expires_at = j.expires_at;
      })
      ∷ rows

  abbrev pub audit_of : ActorContext → RiskFinding → WorkflowInput → WorkflowAudit
  audit_of actor existing input = record {
    organization_id = actor.organization_id;
    actor_user_id = actor.user_id;
    action = input.audit_action;
    target_id = existing.id;
    workflow_action = input.action;
    from_status = normalize_workflow_status existing.workflow_status;
    to_status = input.status;
  }

  module _ (findings : Table RiskFinding (λ f. f.id)) where
    abbrev pub Database : Type 0
    Database = RiskDb findings.State

    -- `getFindingRecord`
    unfoldable pub get_finding_record : Database → String → String → Option RiskFinding
    get_finding_record db organization id =
        owned_finding organization (findings.find db.findings id)

    -- What the transaction does once the update has counted one row; `found` is the row as it reads it
    -- back.
    unfoldable pub recorded :
        Database
        → Database
        → ActorContext
        → RiskFinding
        → WorkflowInput
        → Option RiskFinding
        → Database × WorkflowReply
    recorded before after actor existing input none =
        (before, WorkflowReply.refused 409 "The finding is no longer available.")
    recorded before after actor existing input (some f) = (
      record after {
        audit_events = audit_of actor existing input ∷ after.audit_events;
        risk_acceptances = accepted actor f input.risk_acceptance after.risk_acceptances;
      },
      WorkflowReply.updated f,
    )

    unfoldable pub settle :
        Database
        → ActorContext
        → RiskFinding
        → WorkflowInput
        → ℕ
        → Option Refusal
        → Bool
        → Database × WorkflowReply
    settle db actor existing input now (some (code, message)) claimed =
        (db, WorkflowReply.refused code message)
    settle db actor existing input now none false = (
      db,
      WorkflowReply.refused 409 "The finding workflow changed before this action could be applied.",
    )
    settle db actor existing input now none true =
        let after : Database = record db {
          findings =
              findings.update db.findings existing.id (is_as_read actor existing)
                (write_workflow input now);
        } in
        recorded db after actor existing input
          (get_finding_record after actor.organization_id existing.id)

    -- The transaction of `updateWorkflow`.
    unfoldable pub transaction :
        Database → ActorContext → RiskFinding → WorkflowInput → ℕ → Database × WorkflowReply
    transaction db actor existing input now =
        settle db actor existing input now (assignment_refusal actor input)
          (findings.count db.findings existing.id (is_as_read actor existing) == 1)

    unfoldable pub update_existing :
        (Database → Database)
        → Database
        → ActorContext
        → WorkflowInput
        → ℕ
        → Option RiskFinding
        → Database × WorkflowReply
    update_existing others db actor input now none = (db, WorkflowReply.absent)
    update_existing others db actor input now (some existing) = elim (precondition existing input) [
      | some (code, message) ↦ (db, WorkflowReply.refused code message)
      | none ↦ transaction (others db) actor existing input now
    ]

    -- `updateWorkflow`
    unfoldable pub update_workflow :
        (Database → Database)
        → Database
        → ActorContext
        → String
        → WorkflowInput
        → ℕ
        → Database × WorkflowReply
    update_workflow others db actor finding_id input now =
        update_existing others db actor input now
          (get_finding_record db actor.organization_id finding_id)
