-- ===== src/Governance/Plan.antt =====
-- The rows that governed AWS changes read and write (models RemediationPlan and ApprovalRequest of
-- packages/database/prisma/schema.prisma, with the relations that `remediationExecutionInclude`
-- loads). A time is its milliseconds. `Json` stands for a stored JSON document.
use cloudshield_enterprise.Prelude.{String, ℕ, Option}
use cloudshield_enterprise.Governance.Types.{
  Operation, LifecycleState, ApprovalStatus, ExecutionStatus, MutationOutcome, ReconciliationStatus,
  RequestStatus,
}

pub record Plan (Json : Type 0) : Type 0 where
  pub id : String
  pub organization_id : String
  pub finding_id : String
  pub resource_id : Option String
  pub created_by_id : String
  pub approval_status : ApprovalStatus
  pub execution_status : ExecutionStatus
  pub execution_mode : String
  pub lifecycle_state : LifecycleState
  pub allowlisted_operation : Option Operation
  pub confirmation_token_required : Option String
  pub requested_action : Json
  pub normalized_payload : Json
  pub before_state : Json
  pub expected_after_state : Json
  pub rollback_payload : Json
  pub blocked_reason : Option String
  pub failure_classification : Option String
  pub idempotency_key : Option String
  pub aws_request_id : Option String
  pub approval_expires_at : Option ℕ
  pub simulated_at : Option ℕ
  pub queued_at : Option ℕ
  pub execution_started_at : Option ℕ
  pub execution_completed_at : Option ℕ
  pub rollback_available_at : Option ℕ
  pub mutation_outcome : Option MutationOutcome
  pub mutation_attempted_at : Option ℕ
  pub mutation_confirmed_at : Option ℕ
  pub mutation_provider_request_id : Option String
  pub reconciliation_status : Option ReconciliationStatus
  pub reconciliation_attempt_count : ℕ
  pub last_reconciliation_at : Option ℕ
  pub next_reconciliation_at : Option ℕ
  pub manual_review_reason : Option String
  pub execution_lease_started_at : Option ℕ
  pub approved_by_id : Option String
  pub approved_by_request_id : Option String
  pub updated_at : ℕ

pub record ApprovalRequest : Type 0 where
  pub id : String
  pub organization_id : String
  pub remediation_plan_id : String
  pub requested_by_id : String
  pub approved_by_id : Option String
  pub status : RequestStatus
  pub decision_reason : Option String
  pub expected_impact : Option String
  pub confirmation_token : Option String
  pub payload_hash : Option String
  pub expires_at : Option ℕ
  pub decided_at : Option ℕ

pub record AuditEvent : Type 0 where
  pub organization_id : String
  pub actor_user_id : Option String
  pub action : String
  pub target_id : String

pub record ActorContext : Type 0 where
  pub organization_id : String
  pub user_id : String
