-- ===== src/Governance/Approval.antt =====
-- Requesting and deciding an approval
-- (apps/backend/src/modules/governance/aws-change-execution.service.ts).
-- `others` stands for what other processes write between the reads and the transaction.
-- `capture_failure` stands for `validateAuthoritativeApprovalCapture`.
use cloudshield_enterprise.Prelude.{
  String, ℕ, Bool, true, false, not, Option, none, some, if◌then◌else◌, ltb, ◌==◌, string_eq,
  nat_eq, option_beq,
}
use cloudshield_enterprise.Governance.Types.{
  LifecycleState, ApprovalStatus, ExecutionStatus, RequestStatus, lifecycle_state_eq,
  request_status_eq, operation_eq,
}
use cloudshield_enterprise.Governance.Plan.{ActorContext}
use cloudshield_enterprise.Governance.Backend.{
  Backend, Database, StoredPlan, find_plan, approval_payload_hash, audited,
}

pub data Reply : Type 0 where
  missing : Reply
  replied : String → Reply
  raised : String → Reply

pub data Decision : Type 0 where
  approve reject : Decision

pub record GovernedApprovalRequest : Type 0 where
  pub reason : String
  pub expected_impact : String
  pub confirmation_token : String

-- `expiresAt && expiresAt < now`
abbrev pub is_past : Option ℕ → ℕ → Bool
is_past none now = false
is_past (some t) now = ltb t now

abbrev pub decided_status : Decision → RequestStatus
decided_status approve = RequestStatus.approved
decided_status reject = RequestStatus.rejected

module _ (b : Backend) where
  open b use {plans, approvals, pending, create}

  unfoldable pub blocked_mutation :
      Database b → ActorContext → StoredPlan b → String → ℕ → Database b × Reply
  unfolding audited
  blocked_mutation db actor plan reason now = (
    audited b
        (record db {
          plans =
              plans.update db.plans plan.id (λ _. true)
                λ r. record r {
                  lifecycle_state = LifecycleState.blocked;
                  execution_status = ExecutionStatus.execution_blocked;
                  blocked_reason = some reason;
                  updated_at = now;
                };
        })
        actor plan.id "governance.aws_change.blocked",
    replied reason,
  )

  unfoldable pub non_mutating_blocked_decision :
      Database b → ActorContext → StoredPlan b → String → Database b × Reply
  unfolding audited
  non_mutating_blocked_decision db actor plan reason =
      (audited b db actor plan.id "governance.aws_change.decision_blocked", replied reason)

  -- The two writes of the transaction that opens a request; `fresh` is the generated key.
  unfoldable pub opened :
      Database b → ActorContext → StoredPlan b → GovernedApprovalRequest → ℕ → String → Database b
  unfolding audited approval_payload_hash
  opened db actor plan body now fresh =
      audited b
        (record db {
          plans =
              plans.update db.plans plan.id (λ _. true)
                λ r. record r {
                  lifecycle_state = LifecycleState.pending_approval;
                  approval_status = ApprovalStatus.pending_approval;
                  execution_status = ExecutionStatus.execution_blocked;
                  blocked_reason = none;
                  updated_at = now;
                };
          approvals = create db.approvals (record {
            id = fresh;
            organization_id = actor.organization_id;
            remediation_plan_id = plan.id;
            requested_by_id = actor.user_id;
            approved_by_id = none;
            status = RequestStatus.pending;
            decision_reason = some body.reason;
            expected_impact = some body.expected_impact;
            confirmation_token = some body.confirmation_token;
            payload_hash = some (approval_payload_hash b plan);
            expires_at = plan.approval_expires_at;
            decided_at = none;
          });
        })
        actor plan.id "governance.aws_change.approval_requested"

  unfoldable pub request_approval :
      (Database b → Database b)
      → Database b
      → ActorContext
      → String
      → GovernedApprovalRequest
      → ℕ
      → String
      → Database b × Reply
  unfolding find_plan opened
  request_approval others db actor plan_id body now fresh = elim (find_plan b db actor plan_id) [
    | none ↦ (db, missing)
    | some plan ↦
        if not (plan.lifecycle_state == LifecycleState.simulated)
        then blocked_mutation (others db) actor plan
            "Plan must be simulated before approval can be requested." now
        else if not (option_beq (some body.confirmation_token) plan.confirmation_token_required)
        then blocked_mutation (others db) actor plan
            "Incorrect confirmation token for requested governed change." now
        else (
          opened (others db) actor plan body now fresh,
          replied
              "Approval requested for governed AWS change. Execution remains blocked until approval and worker queueing.",
        )
  ]
