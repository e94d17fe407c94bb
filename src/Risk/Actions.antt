-- ===== src/Risk/Actions.antt =====
-- The eight handlers of the risk workflow, each the input that it passes to `updateWorkflow`
-- (apps/backend/src/modules/risk-workflow/risk-workflow.service.ts). Notes and reasons that go to the
-- audit metadata only are left out.
use cloudshield_enterprise.Prelude.{String, ℕ, Option, none, some}
use cloudshield_enterprise.Store.{Table}
use cloudshield_enterprise.Risk.Matrix.{WorkflowStatus, ActionName}
use cloudshield_enterprise.Risk.Finding.{
  ActorContext, RiskFinding, no_data, WorkflowInput, Relations, WorkflowReply,
}
use cloudshield_enterprise.Risk.Workflow.{Database, update_workflow}

-- The bodies of the requests (packages/contracts/src/index.ts).
pub record AssignBody : Type 0 where
  pub owner_team_id : Option String
  pub assigned_to_user_id : Option String
  pub priority : Option String
  pub target_resolution_date : Option ℕ
  pub business_impact : Option String

pub record PlanBody : Type 0 where
  pub remediation_plan : String
  pub target_resolution_date : Option ℕ
  pub business_impact : Option String

pub record AcceptBody : Type 0 where
  pub risk_acceptance_reason : String
  pub risk_accepted_until : ℕ
  pub business_impact : Option String

abbrev pub acknowledge_input : WorkflowInput
acknowledge_input = record {
  action = ActionName.acknowledge;
  audit_action = "risk.finding.acknowledged";
  status = WorkflowStatus.acknowledged;
  data_ = no_data;
  risk_acceptance = none;
}

abbrev pub assign_input : AssignBody → WorkflowInput
assign_input body = record {
  action = ActionName.assign;
  audit_action = "risk.finding.assigned";
  status = WorkflowStatus.assigned;
  data_ = record no_data {
    owner_team_id = body.owner_team_id;
    assigned_to_user_id = body.assigned_to_user_id;
    priority = body.priority;
    target_resolution_date = body.target_resolution_date;
    due_at = body.target_resolution_date;
    business_impact = body.business_impact;
  };
  risk_acceptance = none;
}

abbrev pub plan_input : PlanBody → WorkflowInput
plan_input body = record {
  action = ActionName.plan_remediation;
  audit_action = "risk.finding.remediation_planned";
  status = WorkflowStatus.remediation_planned;
  data_ = record no_data {
    remediation_plan = some body.remediation_plan;
    target_resolution_date = body.target_resolution_date;
    due_at = body.target_resolution_date;
    business_impact = body.business_impact;
  };
  risk_acceptance = none;
}

-- `at` is the time at which the handler builds its input.
abbrev pub accept_input : ActorContext → ℕ → AcceptBody → WorkflowInput
accept_input actor at body = record {
  action = ActionName.accept_risk;
  audit_action = "risk.finding.risk_accepted";
  status = WorkflowStatus.risk_accepted;
  data_ = record no_data {
    risk_accepted_until = some (some body.risk_accepted_until);
    risk_acceptance_reason = some (some body.risk_acceptance_reason);
    risk_accepted_by_user_id = some (some actor.user_id);
    risk_accepted_at = some (some at);
    business_impact = body.business_impact;
  };
  risk_acceptance = some (record {
    business_justification = body.risk_acceptance_reason;
    expires_at = body.risk_accepted_until;
  });
}

abbrev pub false_positive_input : WorkflowInput
false_positive_input = record {
  action = ActionName.mark_false_positive;
  audit_action = "risk.finding.false_positive_marked";
  status = WorkflowStatus.false_positive;
  data_ = no_data;
  risk_acceptance = none;
}

abbrev pub resolve_input : ℕ → WorkflowInput
resolve_input at = record {
  action = ActionName.resolve;
  audit_action = "risk.finding.resolved";
  status = WorkflowStatus.resolved;
  data_ = record no_data { resolved_at = some (some at) };
  risk_acceptance = none;
}

abbrev pub archive_input : ℕ → WorkflowInput
archive_input at = record {
  action = ActionName.archive;
  audit_action = "risk.finding.archived";
  status = WorkflowStatus.archived;
  data_ = record no_data { archived_at = some (some at) };
  risk_acceptance = none;
}

abbrev pub reopen_input : ℕ → WorkflowInput
reopen_input at = record {
  action = ActionName.reopen;
  audit_action = "risk.finding.reopened";
  status = WorkflowStatus.reopened;
  data_ = record no_data {
    reopened_at = some (some at);
    archived_at = some none;
    resolved_at = some none;
    risk_accepted_until = some none;
    risk_acceptance_reason = some none;
    risk_accepted_at = some none;
    risk_accepted_by_user_id = some none;
  };
  risk_acceptance = none;
}

-- A request of one of the eight routes, with its body.
pub data Request : Type 0 where
  acknowledge_finding mark_false_positive resolve_finding archive_finding reopen_finding : Request
  assign_finding : AssignBody → Request
  plan_remediation : PlanBody → Request
  accept_risk : AcceptBody → Request

unfoldable pub input_of : ActorContext → ℕ → Request → WorkflowInput
input_of actor at acknowledge_finding = acknowledge_input
input_of actor at mark_false_positive = false_positive_input
input_of actor at resolve_finding = resolve_input at
input_of actor at archive_finding = archive_input at
input_of actor at reopen_finding = reopen_input at
input_of actor at (assign_finding body) = assign_input body
input_of actor at (plan_remediation body) = plan_input body
input_of actor at (accept_risk body) = accept_input actor at body

module _ (relations : Relations) (findings : Table RiskFinding (λ f. f.id)) where
  -- The handler of a request that builds its input at `at` and writes at `now`.
  unfoldable pub handle :
      (Database relations findings → Database relations findings)
      → Database relations findings
      → ActorContext
      → String
      → Request
      → ℕ
      → ℕ
      → Database relations findings × WorkflowReply
  handle others db actor finding_id request at now =
      update_workflow relations findings others db actor finding_id (input_of actor at request) now
