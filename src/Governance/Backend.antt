-- ===== src/Governance/Backend.antt =====
-- What the governance service stands on: the tables, the queue's jobs, the audit trail, and the
-- digest of an approval payload (`computeApprovalPayloadHash` over `buildCanonicalApprovalPayload`).
use cloudshield_enterprise.Prelude.{
  String, ℕ, ◌≡◌, Bool, Option, none, some, List, ◌∷◌, All, if◌then◌else◌, ◌==◌, string_eq,
}
use cloudshield_enterprise.Store.{Table}
use cloudshield_enterprise.Governance.Types.{RequestStatus, Operation}
use cloudshield_enterprise.Governance.Plan.{Plan, ApprovalRequest, AuditEvent, ActorContext}

-- packages/utils/src/index.ts, `ApprovalPayloadInput`
pub record ApprovalPayloadInput (Json : Type 0) : Type 0 where
  pub organization_id : String
  pub remediation_plan_id : String
  pub created_by_id : String
  pub allowlisted_operation : Option Operation
  pub confirmation_token_required : Option String
  pub requested_action : Json
  pub normalized_payload : Json
  pub before_state : Json
  pub expected_after_state : Json
  pub rollback_payload : Json
  pub execution_mode : String
  pub idempotency_key : Option String
  pub approval_expires_at : Option ℕ

-- A row of `ApprovalRequest` that `findMany` may return for a plan's pending requests.
pub record IsPendingFor (organization plan : String) (a : ApprovalRequest) : Type 0 where
  pub tenant : a.organization_id ≡ organization
  pub of_plan : a.remediation_plan_id ≡ plan
  pub is_pending : a.status ≡ RequestStatus.pending

pub record Backend : Type 1 where
  pub Json : Type 0
  pub plans : Table (Plan Json) λ p. p.id
  pub approvals : Table ApprovalRequest λ a. a.id
  pub first_with_key : plans.State → String → String → (Plan Json → Bool) → Option (Plan Json)
  pub pending : approvals.State → String → String → List ApprovalRequest
  pub pending_sound :
      (s : approvals.State) (organization plan : String)
      → All (IsPendingFor organization plan) (pending s organization plan)
  pub create : approvals.State → ApprovalRequest → approvals.State
  pub find-create :
      (s : approvals.State) (a : ApprovalRequest) → approvals.find (create s a) a.id ≡ some a
  -- The state before a change, with the tags that a rollback restores.
  pub rollback_document : Json → Json
  pub payload_hash : ApprovalPayloadInput Json → String

pub record GovernedAwsChangeJob : Type 0 where
  pub organization_id : String
  pub plan_id : String
  pub requested_by_id : String
  pub idempotency_key : String
  pub correlation_id : String

pub record Db (PlanRows ApprovalRows : Type 0) : Type 0 where
  pub plans : PlanRows
  pub approvals : ApprovalRows
  pub audits : List AuditEvent
  pub jobs : List GovernedAwsChangeJob

module _ (b : Backend) where
  abbrev pub Database : Type 0
  Database = Db b.plans.State b.approvals.State

  abbrev pub StoredPlan : Type 0
  StoredPlan = Plan b.Json

  abbrev pub owned_by : String → Option StoredPlan → Option StoredPlan
  owned_by organization none = none
  owned_by organization (some p) = if p.organization_id == organization then some p else none

  -- `remediationPlan.findFirst({ where: { id, organizationId } })`
  unfoldable pub find_plan : Database → ActorContext → String → Option StoredPlan
  find_plan db actor id = owned_by actor.organization_id (b.plans.find db.plans id)

  -- apps/backend/src/modules/governance/aws-change-execution.service.ts, `approvalPayloadHash`
  unfoldable pub approval_payload_hash : StoredPlan → String
  approval_payload_hash plan = b.payload_hash (record {
    organization_id = plan.organization_id;
    remediation_plan_id = plan.id;
    created_by_id = plan.created_by_id;
    allowlisted_operation = plan.allowlisted_operation;
    confirmation_token_required = plan.confirmation_token_required;
    requested_action = plan.requested_action;
    normalized_payload = plan.normalized_payload;
    before_state = plan.before_state;
    expected_after_state = plan.expected_after_state;
    rollback_payload = plan.rollback_payload;
    execution_mode = plan.execution_mode;
    idempotency_key = plan.idempotency_key;
    approval_expires_at = plan.approval_expires_at;
  })

  unfoldable pub audited : Database → ActorContext → String → String → Database
  audited db actor target_id action = record db {
    audits =
        (record {
          organization_id = actor.organization_id;
          actor_user_id = some actor.user_id;
          action = action;
          target_id = target_id;
        })
        ∷ db.audits;
  }
