-- ===== src/Governance/Decide.antt =====
-- `decideGovernedAwsChange` of
-- apps/backend/src/modules/governance/aws-change-execution.service.ts.
-- `capture_failure` stands for `validateAuthoritativeApprovalCapture`; `others` for what other
-- processes write between the reads and the transaction.
use cloudshield_enterprise.Prelude.{
  String, ℕ, Bool, true, false, not, ◌&&◌, Option, none, some, List, [], ◌∷◌, if◌then◌else◌, ◌==◌,
  string_eq, nat_eq, option_beq, is_some,
}
use cloudshield_enterprise.Governance.Types.{
  Operation, LifecycleState, ApprovalStatus, ExecutionStatus, RequestStatus, lifecycle_state_eq,
  request_status_eq, operation_eq,
}
use cloudshield_enterprise.Governance.Plan.{ApprovalRequest, ActorContext}
use cloudshield_enterprise.Governance.Backend.{
  Backend, Database, StoredPlan, find_plan, approval_payload_hash, audited,
}
use cloudshield_enterprise.Governance.Approval.{
  Reply, missing, replied, Decision, approve, reject, GovernedApprovalRequest, is_past,
  decided_status, blocked_mutation, non_mutating_blocked_decision,
}

-- The `where` of the request's update, and of its reads inside the transaction.
abbrev pub awaits : String → String → ApprovalRequest → Bool
awaits organization plan_id r =
    r.organization_id == organization
    && (r.remediation_plan_id == plan_id && r.status == RequestStatus.pending)

abbrev pub decided_message : Decision → String
decided_message approve =
    "Governed AWS change approved. Queue execution separately with the exact confirmation token."
decided_message reject = "Governed AWS change rejected and blocked."

abbrev already_processed : String
already_processed = "Approval request decision was already processed."

abbrev decided_action : Decision → String
decided_action approve = "governance.aws_change.approved"
decided_action reject = "governance.aws_change.rejected"

abbrev pub decide_request :
    ActorContext
    → GovernedApprovalRequest
    → Decision
    → String
    → ℕ
    → ApprovalRequest
    → ApprovalRequest
decide_request actor body decision hash now r = record r {
  status = decided_status decision;
  approved_by_id = some actor.user_id;
  decision_reason = some body.reason;
  expected_impact = some body.expected_impact;
  confirmation_token = some body.confirmation_token;
  payload_hash = some hash;
  decided_at = some now;
}

module _ (b : Backend) (capture_failure : StoredPlan b → ApprovalRequest → Option String) where
  open b use {plans, approvals, pending}

  -- The `where` of the plan's update.
  abbrev pub undecided : String → StoredPlan b → Bool
  undecided organization r =
      r.organization_id == organization
      && (r.lifecycle_state == LifecycleState.pending_approval
          && not (is_some r.approved_by_request_id))

  abbrev pub decide_plan :
      ActorContext → GovernedApprovalRequest → Decision → String → ℕ → StoredPlan b → StoredPlan b
  decide_plan actor body approve request_id now r = record r {
    lifecycle_state = LifecycleState.approved;
    approval_status = ApprovalStatus.approved;
    execution_status = ExecutionStatus.ready_for_execution;
    approved_by_id = some actor.user_id;
    approved_by_request_id = some request_id;
    blocked_reason = none;
    updated_at = now;
  }
  decide_plan actor body reject request_id now r = record r {
    lifecycle_state = LifecycleState.blocked;
    approval_status = ApprovalStatus.rejected;
    execution_status = ExecutionStatus.execution_blocked;
    approved_by_id = none;
    approved_by_request_id = none;
    blocked_reason = some body.reason;
    updated_at = now;
  }

  -- Only the approval of a tagging plan needs the captured state.
  abbrev pub needs_capture : Decision → StoredPlan b → Bool
  needs_capture approve plan =
      option_beq plan.allowlisted_operation (some Operation.ec2_apply_governance_tags)
  needs_capture reject plan = false

  -- The check of the request as it is inside the transaction.
  unfoldable pub recheck : Decision → StoredPlan b → ActorContext → Option ApprovalRequest → Bool
  recheck decision plan actor none = not (needs_capture decision plan)
  recheck decision plan actor (some r) =
      if needs_capture decision plan
      then awaits actor.organization_id plan.id r && not (is_some (capture_failure plan r))
      else true

  -- `persistApprovalDecision`; `none` also stands for the conflict that rolls the request back.
  unfoldable pub persist_decision :
      Database b
      → ActorContext
      → StoredPlan b
      → ApprovalRequest
      → GovernedApprovalRequest
      → Decision
      → ℕ
      → Option (Database b)
  unfolding recheck audited
  persist_decision db actor plan approval body decision now =
      if not (recheck decision plan actor (approvals.find db.approvals approval.id))
      then none
      else if not
          (approvals.count db.approvals approval.id (awaits actor.organization_id plan.id) == 1)
      then none
      else if not (plans.count db.plans plan.id (undecided actor.organization_id) == 1)
      then none
      else some (
          audited b
            (record db {
              approvals =
                  approvals.update db.approvals approval.id (awaits actor.organization_id plan.id)
                    (decide_request actor body decision (approval_payload_hash b plan) now);
              plans =
                  plans.update db.plans plan.id (undecided actor.organization_id)
                    (decide_plan actor body decision approval.id now);
            })
            actor plan.id (decided_action decision))

  -- After a lost race the plan is read again.
  unfoldable pub lost : Database b → ActorContext → String → Database b × Reply
  lost db actor plan_id = elim (find_plan b db actor plan_id) [
    | none ↦ (db, missing)
    | some current ↦ non_mutating_blocked_decision b db actor current already_processed
  ]

  abbrev pub settled :
      Database b → ActorContext → String → Decision → Option (Database b) → Database b × Reply
  settled db actor plan_id decision none = lost db actor plan_id
  settled db actor plan_id decision (some done) = (done, replied (decided_message decision))

  -- The checks on the one pending request, and the transaction.
  unfoldable pub decide_pending :
      (Database b → Database b)
      → Database b
      → ActorContext
      → StoredPlan b
      → ApprovalRequest
      → GovernedApprovalRequest
      → Decision
      → ℕ
      → Database b × Reply
  decide_pending others db actor plan approval body decision now =
      let decided =
        settled (others db) actor plan.id decision
          (persist_decision (others db) actor plan approval body decision now) in
      if is_past approval.expires_at now
      then blocked_mutation b db actor plan "Approval request has expired." now
      else if needs_capture decision plan
      then (elim (capture_failure plan approval) [
        | some failure ↦ non_mutating_blocked_decision b db actor plan failure
        | none ↦ decided
      ])
      else decided

  abbrev pub on_pending :
      (Database b → Database b)
      → Database b
      → ActorContext
      → StoredPlan b
      → GovernedApprovalRequest
      → Decision
      → ℕ
      → List ApprovalRequest
      → Database b × Reply
  on_pending others db actor plan body decision now [] = lost db actor plan.id
  on_pending others db actor plan body decision now (approval ∷ []) =
      decide_pending others db actor plan approval body decision now
  on_pending others db actor plan body decision now (_ ∷ _ ∷ _) =
      blocked_mutation b db actor plan "Exactly one pending approval request is required." now

  unfoldable pub decide :
      (Database b → Database b)
      → Database b
      → ActorContext
      → String
      → GovernedApprovalRequest
      → Decision
      → ℕ
      → Database b × Reply
  unfolding find_plan
  decide others db actor plan_id body decision now = elim (find_plan b db actor plan_id) [
    | none ↦ (db, missing)
    | some plan ↦
        if not (plan.lifecycle_state == LifecycleState.pending_approval)
        then non_mutating_blocked_decision b db actor plan
            "Plan must be pending approval before decision."
        else if not (option_beq (some body.confirmation_token) plan.confirmation_token_required)
        then blocked_mutation b db actor plan "Incorrect confirmation token for approval decision."
            now
        else if plan.created_by_id == actor.user_id
        then blocked_mutation b db actor plan "Self-approval is blocked for governed AWS changes."
            now
        else on_pending others db actor plan body decision now
            (pending db.approvals actor.organization_id plan.id)
  ]
