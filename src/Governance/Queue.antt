-- ===== src/Governance/Queue.antt =====
-- Queueing an approved change
-- (apps/backend/src/modules/governance/aws-change-execution.service.ts).
-- `evidence_failure` stands for the checks of the captured resource state that a bound request
-- carries, `others` for what other processes write between the reads and the conditional update.
use text.Mathlib.Text.{find?}
use cloudshield_enterprise.Prelude.{
  String, ℕ, Bool, true, false, not, ◌&&◌, ◌||◌, Option, none, some, ◌∷◌, if◌then◌else◌, ◌==◌,
  string_eq, nat_eq, option_beq, is_some,
}
use cloudshield_enterprise.Accounts.{
  AwsAccount, GuardError, assert_governance_target_operationally_active,
}
use cloudshield_enterprise.Governance.Types.{
  Mode, LifecycleState, ApprovalStatus, ExecutionStatus, MutationOutcome, RequestStatus, mode_eq,
  lifecycle_state_eq, request_status_eq, approval_status_eq, mutation_outcome_eq,
}
use cloudshield_enterprise.Governance.Plan.{ApprovalRequest, ActorContext}
use cloudshield_enterprise.Governance.Backend.{Backend, Database, StoredPlan, find_plan, audited}
use cloudshield_enterprise.Governance.Approval.{
  Reply, missing, replied, is_past, blocked_mutation, non_mutating_blocked_decision,
}

-- The relations of a plan: its finding's account and its resource, whose serialised text in lower
-- case is what `isSampleResource` searches.
pub record Target : Type 0 where
  pub aws_account : Option AwsAccount
  pub resource : Option String

unfoldable pub is_sample_resource : String → Bool
is_sample_resource blob = is_some (find? blob "sample") || is_some (find? blob "demo")

pub record GovernedExecuteRequest : Type 0 where
  pub confirmation_token : String
  pub idempotency_key : String

-- `||` of two possible refusals, the first one first
infixr 20 ◌or_else◌
abbrev pub ◌or_else◌ : Option String → Option String → Option String
none or_else later = later
some reason or_else later = some reason

abbrev pub refuse_if : Bool → String → Option String
refuse_if true reason = some reason
refuse_if false reason = none

-- A text column that is `null` or empty is falsy.
abbrev pub is_blank : Option String → Bool
is_blank none = true
is_blank (some s) = s == ""

abbrev pub guard_message : Option GuardError → Option String
guard_message none = none
guard_message (some e) = some e.message

-- The relation `approvedByRequest`
abbrev pub bound_request : (b : Backend) → Database b → StoredPlan b → Option ApprovalRequest
bound_request b db plan = elim plan.approved_by_request_id [
  | none ↦ none
  | some id ↦ b.approvals.find db.approvals id
]

module _ (b : Backend) (evidence_failure : ApprovalRequest → Option String) where
  -- The tests of the request that the plan is bound to.
  unfoldable pub bound_approval_failure : StoredPlan b → Option ApprovalRequest → ℕ → Option String
  bound_approval_failure plan none now = some "Exact approved request binding is missing."
  bound_approval_failure plan (some r) now =
      refuse_if (is_blank plan.approved_by_request_id) "Exact approved request binding is missing."
      or_else refuse_if (not (r.remediation_plan_id == plan.id))
          "Bound approval does not belong to this plan."
      or_else refuse_if (not (r.organization_id == plan.organization_id))
          "Bound approval does not belong to this organization."
      or_else refuse_if (not (r.status == RequestStatus.approved)) "Bound approval is not approved."
      or_else refuse_if (is_past r.expires_at now) "Bound approval has expired."
      or_else refuse_if (is_blank r.approved_by_id) "Bound approval approver is missing."
      or_else refuse_if (option_beq (some r.requested_by_id) r.approved_by_id)
          "Bound approval violates maker-checker policy."
      or_else refuse_if (is_blank r.payload_hash) "Bound approval payload hash is missing."
      or_else evidence_failure r

  unfoldable pub account_failure : Mode → Option AwsAccount → Option String
  account_failure mode none = some "Registered AWS account is required."
  account_failure mode (some a) =
      refuse_if (not a.organization_change_execution_enabled)
        "Organization is not enabled for governed AWS changes."
      or_else refuse_if (not a.change_execution_enabled)
          "AWS account is not enabled for governed AWS changes."
      or_else refuse_if
          (mode == Mode.staging && not (a.environment == "staging" || a.environment == "sandbox"))
          "Staging mode allows only staging or sandbox accounts."
      or_else refuse_if (is_blank a.execution_role_arn_placeholder)
          "Execution role is not configured for this account."

  unfoldable pub resource_failure : Option String → Option String
  unfolding is_sample_resource
  resource_failure none = some "Verified resource is required."
  resource_failure (some blob) =
      refuse_if (is_sample_resource blob) "SAMPLE DATA - EXECUTION NOT ALLOWED."

  unfoldable pub validate_execution_ready :
      Mode
      → StoredPlan b
      → Target
      → Option ApprovalRequest
      → GovernedExecuteRequest
      → ℕ
      → Option String
  validate_execution_ready mode plan target bound body now =
      guard_message (assert_governance_target_operationally_active target.aws_account)
      or_else refuse_if (mode == Mode.disabled) "AWS_CHANGE_EXECUTION_MODE is disabled."
      or_else refuse_if (mode == Mode.production)
          "Production execution is configured but not enabled in this pilot milestone."
      or_else refuse_if (not (plan.lifecycle_state == LifecycleState.approved))
          "Plan must be approved before execution can be queued."
      or_else refuse_if (not (plan.approval_status == ApprovalStatus.approved))
          "Approval is missing."
      or_else refuse_if
          (not (option_beq plan.mutation_outcome (some MutationOutcome.not_attempted)))
          "Mutation outcome does not permit queueing or automatic replay."
      or_else bound_approval_failure plan bound now
      or_else refuse_if
          (not (option_beq (some body.confirmation_token) plan.confirmation_token_required))
          "Incorrect confirmation token."
      or_else refuse_if (is_past plan.approval_expires_at now) "Approval has expired."
      or_else refuse_if (not (is_some target.resource)) "Verified resource is required."
      or_else refuse_if (not (is_some target.aws_account)) "Registered AWS account is required."
      or_else resource_failure target.resource
      or_else account_failure mode target.aws_account

  -- The states in which another plan has used up its idempotency key.
  abbrev pub has_used_key : StoredPlan b → Bool
  has_used_key r =
      r.lifecycle_state == LifecycleState.queued
      || (r.lifecycle_state == LifecycleState.preflight_validating
          || (r.lifecycle_state == LifecycleState.executing
              || r.lifecycle_state == LifecycleState.succeeded))

  -- The `where` of the update that claims the plan for the queue.
  abbrev pub claimable : String → StoredPlan b → StoredPlan b → Bool
  claimable organization plan r =
      r.organization_id == organization
      && (r.lifecycle_state == LifecycleState.approved
          && (r.approval_status == ApprovalStatus.approved
              && (option_beq r.mutation_outcome (some MutationOutcome.not_attempted)
                  && (option_beq r.approved_by_request_id plan.approved_by_request_id
                      && r.updated_at == plan.updated_at))))

  abbrev pub queue_plan : String → ℕ → StoredPlan b → StoredPlan b
  queue_plan key now r = record r {
    lifecycle_state = LifecycleState.queued;
    execution_status = ExecutionStatus.ready_for_execution;
    idempotency_key = some key;
    queued_at = some now;
    updated_at = now;
    blocked_reason = none;
  }

  abbrev pub is_queued_at : String → ℕ → StoredPlan b → Bool
  is_queued_at organization queued_at r =
      r.organization_id == organization
      && (r.lifecycle_state == LifecycleState.queued && r.updated_at == queued_at)

  abbrev pub fail_to_queue : String → ℕ → StoredPlan b → StoredPlan b
  fail_to_queue key now r = record r {
    lifecycle_state = LifecycleState.failed;
    execution_status = ExecutionStatus.execution_blocked;
    idempotency_key = some key;
    failure_classification = some "QUEUE_ENQUEUE_FAILED";
    execution_completed_at = some now;
    blocked_reason = some "Governed AWS change could not be queued.";
    mutation_outcome = some MutationOutcome.not_attempted;
    updated_at = now;
  }

  -- `queueEnqueueFailed`
  unfoldable pub queue_enqueue_failed :
      Database b → ActorContext → StoredPlan b → String → ℕ → ℕ → Database b × Reply
  unfolding audited
  queue_enqueue_failed db actor plan key queued_at now =
      if not (b.plans.count db.plans plan.id (is_queued_at actor.organization_id queued_at) == 1)
      then (db, Reply.raised "STALE_STATE_CONFLICT")
      else (
        audited b
            (record db {
              plans =
                  b.plans.update db.plans plan.id (is_queued_at actor.organization_id queued_at)
                    (fail_to_queue key now);
            })
            actor plan.id "governance.aws_change.queue_failed",
        replied "Governed AWS change could not be queued. No provider execution was attempted.",
      )

  abbrev pub queued_message : String
  queued_message =
      "Governed AWS change queued. Worker will enforce preflight gates before any mutation."

  -- What follows the conditional update, which tells whether it claimed the plan.
  unfoldable pub enqueue_claimed :
      (Database b → Database b)
      → Database b
      → ActorContext
      → StoredPlan b
      → GovernedExecuteRequest
      → String
      → Bool
      → ℕ
      → Bool
      → Database b × Reply
  unfolding audited find_plan
  enqueue_claimed later db actor plan body correlation_id accepted now false =
      elim (find_plan b db actor plan.id) [
        | none ↦ (db, missing)
        | some current ↦
            non_mutating_blocked_decision b db actor current
              "Governed AWS change queue transition was already claimed."
      ]
  enqueue_claimed later db actor plan body correlation_id accepted now true =
      let claimed : Database b = record db {
        plans =
            b.plans.update db.plans plan.id (claimable actor.organization_id plan)
              (queue_plan body.idempotency_key now);
      } in
      if not accepted
      then queue_enqueue_failed (later claimed) actor plan body.idempotency_key now now
      else (
        audited b
            (record claimed {
              jobs =
                  (record {
                    organization_id = actor.organization_id;
                    plan_id = plan.id;
                    requested_by_id = actor.user_id;
                    idempotency_key = body.idempotency_key;
                    correlation_id = correlation_id;
                  })
                  ∷ claimed.jobs;
            })
            actor plan.id "governance.aws_change.execution_queued",
        replied queued_message,
      )

  -- The conditional update, and the job that is added only after it.
  unfoldable pub claim_and_enqueue :
      (Database b → Database b)
      → Database b
      → ActorContext
      → StoredPlan b
      → GovernedExecuteRequest
      → String
      → Bool
      → ℕ
      → Database b × Reply
  claim_and_enqueue later db actor plan body correlation_id accepted now =
      enqueue_claimed later db actor plan body correlation_id accepted now
        (b.plans.count db.plans plan.id (claimable actor.organization_id plan) == 1)

  abbrev names_other : StoredPlan b → Option (StoredPlan b) → Bool
  names_other plan none = false
  names_other plan (some other) = not (other.id == plan.id)

  -- `queueGovernedAwsChangeExecution`; `accepted` tells whether the queue took the job.
  unfoldable pub queue_execution :
      (Database b → Database b)
      → (Database b → Database b)
      → Mode
      → (StoredPlan b → Target)
      → Database b
      → ActorContext
      → String
      → GovernedExecuteRequest
      → String
      → Bool
      → ℕ
      → Database b × Reply
  unfolding find_plan
  queue_execution others later mode target db actor plan_id body correlation_id accepted now =
      elim (find_plan b db actor plan_id) [
        | none ↦ (db, missing)
        | some plan ↦
            if not (plan.lifecycle_state == LifecycleState.approved)
            then non_mutating_blocked_decision b db actor plan (
                if plan.lifecycle_state == LifecycleState.queued
                  && option_beq plan.idempotency_key (some body.idempotency_key)
                then "Governed AWS change was already queued with this idempotency key."
                else "Plan must be approved before execution can be queued.")
            else (elim (validate_execution_ready mode plan (target plan) (bound_request b db plan)
                body now) [
                  | some reason ↦ blocked_mutation b db actor plan reason now
                  | none ↦
                      if names_other plan (
                        b.first_with_key db.plans actor.organization_id body.idempotency_key
                          has_used_key)
                      then blocked_mutation b db actor plan
                          "Idempotency key has already completed or queued a governed change." now
                      else claim_and_enqueue later (others db) actor plan body correlation_id
                          accepted now
                ])
      ]
