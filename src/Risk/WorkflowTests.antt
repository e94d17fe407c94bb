-- ===== src/Risk/WorkflowTests.antt =====
-- A stored finding, runs of the handlers on it, and witnesses.
use cloudshield_enterprise.Prelude.{
  String, ◌≡◌, ◌≢◌, ◌↔◌, refl, Bool, true, false, none, some, [], if◌then◌else◌, ◌==◌, string_eq,
  arith,
}
use cloudshield_enterprise.Store.{Table}
use cloudshield_enterprise.Store.Model.{rows, under}
use cloudshield_enterprise.Store.Rows.{Holds}
use cloudshield_enterprise.Accounts.{
  AwsAccount, ConnectionStatus, assert_governance_target_operationally_active,
  get_aws_account_operational_block_reason, connection_code,
}
use cloudshield_enterprise.Risk.Matrix.{
  WorkflowStatus, RiskStatus, normalize_workflow_status, risk_status_code, action_code,
  workflow_code, is_transition_allowed, transition_matrix,
}
use cloudshield_enterprise.Risk.Finding.{ActorContext, RiskFinding, Relations, WorkflowReply}
use cloudshield_enterprise.Risk.Workflow.{
  write_workflow, precondition, assignment_refusal, validate_team_and_user, get_finding_record,
  recorded, settle, transaction, update_existing, update_workflow,
}
use cloudshield_enterprise.Risk.Actions.{Request, input_of, handle}
use cloudshield_enterprise.Risk.Matrix.{ActionName}
use cloudshield_enterprise.Risk.Refines.{Findings, view, handle-Responds, Responds}
use cloudshield_enterprise.Risk.Admitted.{IsAdmitted, applied_iff}
use cloudshield_enterprise.Risk.Consistent.{IsConsistent, AllConsistent, handle-AllConsistent}
use cloudshield_enterprise.Risk.Lost.{overtaken-not_applied}

abbrev key : RiskFinding → String
key f = f.id

abbrev findings : Table RiskFinding key
findings = rows RiskFinding key

abbrev account : AwsAccount
account = record {
  id = "account-1";
  organization_id = "org-1";
  account_id = "123456789012";
  archived_at = none;
  connection_status = ConnectionStatus.validation_succeeded;
  environment = "sandbox";
  change_execution_enabled = true;
  organization_change_execution_enabled = true;
  execution_role_arn_placeholder = none;
}

abbrev relations : Relations
relations = record {
  aws_account = λ f. some account;
  resource = λ f. none;
  assignee_email = λ f. some "owner@example.com";
  owner_team_name = λ f. none;
  has_team = λ organization id. true;
  has_user = λ organization id. true;
  evidence_snapshot = λ organization id. none;
}

abbrev triaged : RiskFinding
triaged = record {
  id = "finding-1";
  organization_id = "org-1";
  status = RiskStatus.workflow WorkflowStatus.acknowledged;
  workflow_status = RiskStatus.workflow WorkflowStatus.acknowledged;
  owner_team_id = none;
  assigned_to_user_id = some "user-1";
  priority = "P2";
  business_impact = none;
  remediation_plan = none;
  target_resolution_date = none;
  due_at = none;
  risk_accepted_until = none;
  risk_acceptance_reason = none;
  risk_accepted_by_user_id = none;
  risk_accepted_at = none;
  archived_at = none;
  resolved_at = none;
  reopened_at = none;
  last_workflow_action_at = none;
  updated_at = 100;
}

abbrev stored : Findings relations findings
stored = record {
  findings = λ id. if id == "finding-1" then some triaged else none;
  audit_events = [];
  risk_acceptances = [];
}

abbrev member : ActorContext
member = record { organization_id = "org-1"; user_id = "user-1" }

abbrev acceptance : Request
acceptance = Request.accept_risk (record {
  risk_acceptance_reason = "compensating control";
  risk_accepted_until = 9000;
  business_impact = none;
})

abbrev quiet : Findings relations findings → Findings relations findings
quiet d = d

-- Another member archives the finding.
abbrev archives : Findings relations findings → Findings relations findings
archives d =
    (handle relations findings quiet d member "finding-1" Request.archive_finding 200 201).0

accepts_risk :
    (handle relations findings quiet stored member "finding-1" acceptance 300 301).1
    ≡ WorkflowReply.updated (write_workflow (input_of member 300 acceptance) 301 triaged)
unfolding handle update_workflow update_existing transaction settle recorded get_finding_record
    precondition assignment_refusal validate_team_and_user input_of is_transition_allowed
    transition_matrix normalize_workflow_status action_code risk_status_code workflow_code
    assert_governance_target_operationally_active get_aws_account_operational_block_reason
    connection_code
accepts_risk = refl

archived_reply :
    (handle relations findings quiet stored member "finding-1" Request.archive_finding 200 201).1
    ≡ WorkflowReply.updated
        (write_workflow (input_of member 200 Request.archive_finding) 201 triaged)
unfolding handle update_workflow update_existing transaction settle recorded get_finding_record
    precondition assignment_refusal validate_team_and_user input_of is_transition_allowed
    transition_matrix normalize_workflow_status action_code risk_status_code workflow_code
    assert_governance_target_operationally_active get_aws_account_operational_block_reason
    connection_code
archived_reply = refl

handle-Responds_example :
    Responds relations findings
      (view relations findings stored)
      (view relations findings (archives stored))
      "finding-1"
      ActionName.accept_risk
      (view relations findings
        (handle relations findings archives stored member "finding-1" acceptance 300 301).0)
handle-Responds_example =
    handle-Responds relations findings archives stored member "finding-1" acceptance 300 301

overtaken-not_applied_example :
    (handle relations findings
      (λ d.
        (handle relations findings (λ x. x) d member "finding-1" Request.archive_finding 200 201).0)
      stored
      member
      "finding-1"
      acceptance
      300
      301).1
    ≢ WorkflowReply.updated triaged
overtaken-not_applied_example =
    overtaken-not_applied relations findings stored member member "finding-1" acceptance
      Request.archive_finding 300 200 301 201 triaged triaged
      (write_workflow (input_of member 200 Request.archive_finding) 201 triaged) refl (omega arith)
      archived_reply

triaged-IsConsistent : IsConsistent triaged
unfolding normalize_workflow_status
triaged-IsConsistent = record { synced = refl; dated = refl; accounted = λ e. cc }

triaged-Holds :
    (j : String) (c : Bool) → Holds IsConsistent (under key j (if c then some triaged else none))
triaged-Holds j false = tt
triaged-Holds j true =
    elim ("finding-1" == j) as (λ c. Holds IsConsistent (if c then some triaged else none)) [
      | true ↦ triaged-IsConsistent
      | false ↦ tt
    ]

handle-AllConsistent_example :
    AllConsistent relations findings
      (handle relations findings quiet stored member "finding-1" acceptance 300 301).0
handle-AllConsistent_example =
    handle-AllConsistent relations findings quiet stored member "finding-1" acceptance 300 301
      (λ j f f' found found' same. cc) (λ j. triaged-Holds j (j == "finding-1"))
      (λ j. triaged-Holds j (j == "finding-1"))

applied_iff_example :
    ((handle relations findings (λ d. d) stored member "finding-1" acceptance 300 301).1
      ≡ WorkflowReply.updated (write_workflow (input_of member 300 acceptance) 301 triaged))
    ↔ IsAdmitted relations member triaged acceptance
applied_iff_example =
    applied_iff relations findings stored member triaged acceptance 300 301 refl refl
