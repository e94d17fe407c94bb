-- ===== src/Worker/Process.antt =====
-- One delivery of a job (apps/worker/src/index.ts, `processGovernedAwsChangeJob` and
-- `verifyBoundApproval`). `evidence_failure` stands for the checks of the captured resource state;
-- `others` for what other processes write between the reads and the claim.
use cloudshield_enterprise.Prelude.{
  String, ℕ, Bool, true, false, not, ◌&&◌, ◌||◌, Option, none, some, if◌then◌else◌, ltb, ◌==◌,
  string_eq, nat_eq, option_beq, is_some,
}
use cloudshield_enterprise.Governance.Types.{
  Mode, LifecycleState, ApprovalStatus, ExecutionStatus, MutationOutcome, ReconciliationStatus,
  RequestStatus, mode_eq, lifecycle_state_eq, approval_status_eq, request_status_eq,
  mutation_outcome_eq,
}
use cloudshield_enterprise.Governance.Plan.{ApprovalRequest}
use cloudshield_enterprise.Governance.Backend.{
  Backend, Db, Database, StoredPlan, GovernedAwsChangeJob, approval_payload_hash,
}
use cloudshield_enterprise.Governance.Approval.{is_past}
use cloudshield_enterprise.Governance.Queue.{◌or_else◌, refuse_if, is_blank, bound_request}
use cloudshield_enterprise.Worker.Job.{Environment, Relations, Provider, WorkerReply, World}
use cloudshield_enterprise.Worker.Gates.{validate_worker_gate}
use cloudshield_enterprise.Worker.Record.{
  worker_audited, is_unsettled, mutation_outcome_response, fail_governed_plan, block_governed_plan,
  ensure_scheduled,
}
use cloudshield_enterprise.Worker.Tagging.{SafetyState, execute_tagging}

abbrev expires_after : Option ℕ → ℕ → Bool
expires_after none now = true
expires_after (some t) now = ltb now t

abbrev pub is_done : LifecycleState → Bool
is_done s = s == LifecycleState.succeeded || s == LifecycleState.rollback_available

abbrev pub is_completed : Option MutationOutcome → LifecycleState → Bool
is_completed o s = option_beq o (some MutationOutcome.confirmed_succeeded) || is_done s

abbrev pub prevents_replay : Option MutationOutcome → Bool
prevents_replay o =
    is_unsettled o
    || (option_beq o (some MutationOutcome.confirmed_failed)
        || option_beq o (some MutationOutcome.manual_review_required))

-- A refusal that is recorded as a block, as a failure, or not at all.
pub data Refusal : Type 0 where
  blocks fails drops : String → Refusal
  spent : Refusal

abbrev refuse : Bool → Refusal → Option Refusal → Option Refusal
refuse true reason later = some reason
refuse false reason later = later

abbrev refuse_for : (String → Refusal) → Option String → Option Refusal → Option Refusal
refuse_for kind none later = later
refuse_for kind (some reason) later = some (kind reason)

module _ (b : Backend) (fingerprint : SafetyState → Option String)
    (evidence_failure : ApprovalRequest → Option String) where
  abbrev pub has_finished : StoredPlan b → Bool
  has_finished r =
      is_done r.lifecycle_state
      || (r.lifecycle_state == LifecycleState.failed
          || (r.lifecycle_state == LifecycleState.blocked
              || (r.lifecycle_state == LifecycleState.rolled_back
                  || r.lifecycle_state == LifecycleState.executing)))

  -- `verifyBoundApproval`
  unfoldable pub verify_bound_approval : StoredPlan b → Option ApprovalRequest → ℕ → Option String
  unfolding approval_payload_hash
  verify_bound_approval plan none now =
      refuse_if (is_blank plan.approved_by_request_id) "APPROVAL_REQUEST_BINDING_MISSING"
      or_else some "APPROVAL_REQUEST_BINDING_INVALID"
  verify_bound_approval plan (some r) now =
      refuse_if (is_blank plan.approved_by_request_id) "APPROVAL_REQUEST_BINDING_MISSING"
      or_else refuse_if (not (option_beq (some r.id) plan.approved_by_request_id))
          "APPROVAL_REQUEST_BINDING_INVALID"
      or_else refuse_if (not (r.remediation_plan_id == plan.id)) "APPROVAL_REQUEST_PLAN_MISMATCH"
      or_else refuse_if (not (r.organization_id == plan.organization_id))
          "APPROVAL_REQUEST_TENANT_MISMATCH"
      or_else refuse_if (not (r.status == RequestStatus.approved)) "APPROVAL_INVALID"
      or_else refuse_if
          (is_blank r.approved_by_id || option_beq (some r.requested_by_id) r.approved_by_id)
          "APPROVAL_INVALID"
      or_else refuse_if (is_past r.expires_at now) "APPROVAL_EXPIRED"
      or_else refuse_if (is_blank r.payload_hash) "APPROVAL_PAYLOAD_MISMATCH"
      or_else refuse_if (not (option_beq r.payload_hash (some (approval_payload_hash b plan))))
          "APPROVAL_PAYLOAD_MISMATCH"
      or_else evidence_failure r

  -- The `where` of the claim, and its write.
  abbrev pub is_claimable : GovernedAwsChangeJob → ℕ → StoredPlan b → Bool
  is_claimable job now r =
      r.organization_id == job.organization_id
      && (option_beq r.idempotency_key (some job.idempotency_key)
          && ((r.lifecycle_state == LifecycleState.queued
                || r.lifecycle_state == LifecycleState.approved)
              && (r.approval_status == ApprovalStatus.approved
                  && (option_beq r.mutation_outcome (some MutationOutcome.not_attempted)
                      && expires_after r.approval_expires_at now))))

  abbrev pub start_plan : GovernedAwsChangeJob → ℕ → StoredPlan b → StoredPlan b
  start_plan job now r = record r {
    lifecycle_state = LifecycleState.executing;
    idempotency_key = some job.idempotency_key;
    execution_started_at = some now;
    execution_lease_started_at = some now;
    updated_at = now;
  }

  abbrev pub simulate_plan : ℕ → StoredPlan b → StoredPlan b
  simulate_plan now r = record r {
    lifecycle_state = LifecycleState.succeeded;
    execution_status = ExecutionStatus.ready_for_execution;
    execution_completed_at = some now;
    mutation_outcome = some MutationOutcome.not_attempted;
    reconciliation_status = some ReconciliationStatus.not_required;
    updated_at = now;
  }

  -- The reply to a job whose key an earlier run has used.
  unfoldable pub repeated :
      World b → GovernedAwsChangeJob → ℕ → StoredPlan b → World b × WorkerReply
  repeated w job now earlier =
      if not (earlier.id == job.plan_id)
      then (w, WorkerReply.blocked "Another operation used the same idempotency key.")
      else if is_completed earlier.mutation_outcome earlier.lifecycle_state
      then (w, WorkerReply.completed earlier.lifecycle_state false)
      else if prevents_replay earlier.mutation_outcome
      then (ensure_scheduled b w earlier now, mutation_outcome_response earlier.mutation_outcome)
      else if earlier.lifecycle_state == LifecycleState.executing
      then (w, WorkerReply.stale "Operation is currently executing.")
      else (w, WorkerReply.completed earlier.lifecycle_state false)

  -- The checks between the read of the plan and the claim, in their order.
  unfoldable pub refusal :
      Environment
      → GovernedAwsChangeJob
      → StoredPlan b
      → Relations
      → Option ApprovalRequest
      → ℕ
      → Option Refusal
  refusal env job plan relations bound now =
      refuse
        (not (
          plan.lifecycle_state == LifecycleState.queued
          || plan.lifecycle_state == LifecycleState.approved))
        (blocks "Plan is not queued for worker execution.")
        (refuse (not (is_some plan.mutation_outcome)) (fails "HISTORICAL_MUTATION_OUTCOME_MISSING")
          (refuse (not (option_beq plan.mutation_outcome (some MutationOutcome.not_attempted)))
            spent
            (refuse (not (plan.approval_status == ApprovalStatus.approved))
              (fails "APPROVAL_INVALID")
              (refuse (is_past plan.approval_expires_at now) (fails "APPROVAL_EXPIRED") (
                refuse (not (option_beq plan.idempotency_key (some job.idempotency_key)))
                  (drops "Job idempotency key does not match current plan state.")
                  (refuse
                    (not (plan.created_by_id == "")
                      && option_beq (some plan.created_by_id) plan.approved_by_id)
                    (fails "APPROVAL_INVALID")
                    (refuse_for fails (verify_bound_approval plan bound now) (
                      refuse_for blocks
                        (validate_worker_gate env plan.allowlisted_operation relations) none))))))))

  unfoldable pub refused : World b → StoredPlan b → ℕ → Refusal → World b × WorkerReply
  refused w plan now (blocks reason) = block_governed_plan b w plan.id reason now
  refused w plan now (fails reason) = fail_governed_plan b w plan.id reason now
  refused w plan now (drops reason) = (w, WorkerReply.stale reason)
  refused w plan now spent =
      (ensure_scheduled b w plan now, mutation_outcome_response plan.mutation_outcome)

  abbrev pub claim_lost : World b → Option (StoredPlan b) → World b × WorkerReply
  claim_lost w none = (w, WorkerReply.stale "Atomic claim failed or state became stale.")
  claim_lost w (some reloaded) =
      if is_done reloaded.lifecycle_state
      then (w, WorkerReply.completed reloaded.lifecycle_state false)
      else (w, WorkerReply.stale "Atomic claim failed or state became stale.")

  module _ (later during : Database b → Database b) (env : Environment) (provider : Provider)
      (job : GovernedAwsChangeJob) (now : ℕ) where
    -- What follows the claim, which tells whether it was won.
    unfoldable pub run_claimed : World b → StoredPlan b → Relations → Bool → World b × WorkerReply
    unfolding worker_audited
    run_claimed w plan relations false = claim_lost w (b.plans.find w.db.plans plan.id)
    run_claimed w plan relations true =
        let started : Db b.plans.State b.approvals.State = record w.db {
          plans = b.plans.update w.db.plans plan.id (is_claimable job now) (start_plan job now);
        } in
        if env.mode == Mode.simulation
        then (
          record w {
            db =
                worker_audited b
                  (record started {
                    plans = b.plans.update started.plans plan.id (λ _. true) (simulate_plan now);
                  })
                  plan.organization_id (some job.requested_by_id) plan.id
                  "governance.aws_change.worker_simulated";
          },
          WorkerReply.completed LifecycleState.succeeded false,
        )
        else execute_tagging b fingerprint plan relations job.requested_by_id now later during
            provider env (record w { db = started })

    unfoldable pub run_plan :
        (Database b → Database b) → World b → Relations → StoredPlan b → World b × WorkerReply
    run_plan others w relations plan =
        elim (refusal env job plan relations (bound_request b w.db plan) now) [
          | some reason ↦ refused w plan now reason
          | none ↦
              let claiming : World b = record w { db = others w.db } in
              run_claimed claiming plan relations
                (b.plans.count claiming.db.plans plan.id (is_claimable job now) == 1)
        ]

    abbrev pub plan_not_found : WorkerReply
    plan_not_found = WorkerReply.failed "Plan not found for organization."

    unfoldable pub process_job :
        (Database b → Database b) → World b → Relations → World b × WorkerReply
    process_job others w relations =
        elim (b.first_with_key w.db.plans job.organization_id job.idempotency_key has_finished) [
          | some earlier ↦ repeated w job now earlier
          | none ↦ elim (b.plans.find w.db.plans job.plan_id) [
            | none ↦ (w, plan_not_found)
            | some plan ↦
                if plan.organization_id == job.organization_id
                then run_plan others w relations plan
                else (w, plan_not_found)
          ]
        ]
