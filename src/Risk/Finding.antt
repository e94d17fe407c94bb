-- ===== src/Risk/Finding.antt =====
-- The rows that the risk workflow reads and writes, and what its handlers return
-- (packages/database/prisma/schema.prisma and
-- apps/backend/src/modules/risk-workflow/risk-workflow.service.ts).
use cloudshield_enterprise.Prelude.{String, ℕ, Bool, Option, none, some, List}
use cloudshield_enterprise.Accounts.{AwsAccount}
use cloudshield_enterprise.Risk.{AcceptedResource}
use cloudshield_enterprise.Risk.Matrix.{WorkflowStatus, ActionName, RiskStatus}

pub record ActorContext : Type 0 where
  pub organization_id : String
  pub user_id : String

-- The columns of `SecurityFinding` that the workflow reads or writes.
pub record RiskFinding : Type 0 where
  pub id : String
  pub organization_id : String
  pub status : RiskStatus
  pub workflow_status : RiskStatus
  pub owner_team_id : Option String
  pub assigned_to_user_id : Option String
  pub priority : String
  pub business_impact : Option String
  pub remediation_plan : Option String
  pub target_resolution_date : Option ℕ
  pub due_at : Option ℕ
  pub risk_accepted_until : Option ℕ
  pub risk_acceptance_reason : Option String
  pub risk_accepted_by_user_id : Option String
  pub risk_accepted_at : Option ℕ
  pub archived_at : Option ℕ
  pub resolved_at : Option ℕ
  pub reopened_at : Option ℕ
  pub last_workflow_action_at : Option ℕ
  pub updated_at : ℕ

-- `input.data`: a field that is `none` is undefined and leaves the column as it is; `some none` writes
-- `null`.
pub record FindingData : Type 0 where
  pub owner_team_id : Option String
  pub assigned_to_user_id : Option String
  pub priority : Option String
  pub business_impact : Option String
  pub remediation_plan : Option String
  pub target_resolution_date : Option ℕ
  pub due_at : Option ℕ
  pub risk_accepted_until : Option (Option ℕ)
  pub risk_acceptance_reason : Option (Option String)
  pub risk_accepted_by_user_id : Option (Option String)
  pub risk_accepted_at : Option (Option ℕ)
  pub archived_at : Option (Option ℕ)
  pub resolved_at : Option (Option ℕ)
  pub reopened_at : Option (Option ℕ)

abbrev pub no_data : FindingData
no_data = record {
  owner_team_id = none;
  assigned_to_user_id = none;
  priority = none;
  business_impact = none;
  remediation_plan = none;
  target_resolution_date = none;
  due_at = none;
  risk_accepted_until = none;
  risk_acceptance_reason = none;
  risk_accepted_by_user_id = none;
  risk_accepted_at = none;
  archived_at = none;
  resolved_at = none;
  reopened_at = none;
}

module _ {A : Type 0} where
  -- The column after the write.
  abbrev pub written : Option A → A → A
  written none old = old
  written (some new) old = new

  abbrev pub provided : Option A → Option A → Option A
  provided none old = old
  provided (some new) old = some new

-- `input.riskAcceptance`
pub record Justification : Type 0 where
  pub business_justification : String
  pub expires_at : ℕ

pub record WorkflowInput : Type 0 where
  pub action : ActionName
  pub audit_action : String
  pub status : WorkflowStatus
  pub data_ : FindingData
  pub risk_acceptance : Option Justification

-- A row of `AuditEvent` with the metadata that the workflow adds.
pub record WorkflowAudit : Type 0 where
  pub organization_id : String
  pub actor_user_id : String
  pub action : String
  pub target_id : String
  pub workflow_action : ActionName
  pub from_status : WorkflowStatus
  pub to_status : WorkflowStatus

pub record RiskAcceptance : Type 0 where
  pub organization_id : String
  pub security_finding_id : String
  pub business_justification : String
  pub approver : String
  pub owner : String
  pub owner_team_id : Option String
  pub evidence_snapshot_id : Option String
  pub expires_at : ℕ

-- The other tables, as far as the workflow reads them: the relations of a finding, the teams and users
-- of an organisation, and the last snapshot of a finding's evidence.
pub record Relations : Type 0 where
  pub aws_account : RiskFinding → Option AwsAccount
  pub resource : RiskFinding → Option AcceptedResource
  pub assignee_email : RiskFinding → Option String
  pub owner_team_name : RiskFinding → Option String
  pub has_team : String → String → Bool
  pub has_user : String → String → Bool
  pub evidence_snapshot : String → String → Option String

pub record RiskDb (FindingRows : Type 0) : Type 0 where
  pub findings : FindingRows
  pub audit_events : List WorkflowAudit
  pub risk_acceptances : List RiskAcceptance

-- What a handler returns: `null`, an error with its HTTP status, or the stored finding.
pub data WorkflowReply : Type 0 where
  absent : WorkflowReply
  refused : ℕ → String → WorkflowReply
  updated : RiskFinding → WorkflowReply
