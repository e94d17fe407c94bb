-- ===== src/Reconciliation.antt =====
-- The reconciliation of mutations whose outcome is not known
-- (apps/worker/src/mutation-reconciliation.ts). AWS is only read: `observe` is its reply to
-- `describeCurrentTags`. `requested` stands for `parseApprovedRequestedTags` and `target_failure` for
-- `validateReconciliationTarget`, which Reconciliation/Target models; `during` for what other processes
-- write between the claim and the write that follows it, on every branch.
pub mod Target
pub mod Laws
pub mod Bounds
pub mod Claimed
mod Tests
use cloudshield_enterprise.Prelude.{
  String, ℕ, suc, ◌+◌, ◌-◌, ◌*◌, ◌^◌, min, max, Bool, true, false, not, ◌&&◌, ◌||◌, Option, none,
  some, List, [], ◌∷◌, if◌then◌else◌, ltb, leb, ◌==◌, string_eq, nat_eq, option_beq,
}
use cloudshield_enterprise.Governance.Types.{
  LifecycleState, ExecutionStatus, MutationOutcome, ReconciliationStatus, lifecycle_state_eq,
  mutation_outcome_eq, reconciliation_status_eq,
}
use cloudshield_enterprise.Governance.Backend.{Backend, Db, Database, StoredPlan}
use cloudshield_enterprise.Worker.Job.{AwsTag, Attempt, threw, returned, Instance}
use cloudshield_enterprise.Worker.Gates.{has_tags}
use cloudshield_enterprise.Worker.Record.{is_unsettled, worker_audited}

abbrev pub default_stale_ms : ℕ
default_stale_ms = 15 * 60 * 1000

-- `Math.min(Math.max(n, 1), 100)` and the bound of the attempts
abbrev pub clamp : ℕ → ℕ → ℕ
clamp n most = min (max n 1) most

abbrev pub batch_size : ℕ → ℕ
batch_size n = clamp n 100

abbrev pub max_attempts_of : ℕ → ℕ
max_attempts_of n = clamp n 10

-- The delay before the next read.
abbrev pub backoff_ms : ℕ → ℕ
backoff_ms attempt = min (60000 * 2 ^ attempt) (15 * 60000)

pub data Result : Type 0 where
  not_claimed stale_resolution failed_retryable : Result
  settled : ReconciliationStatus → MutationOutcome → Result

-- `t <= bound` of a time that may be missing
abbrev pub is_before : Option ℕ → ℕ → Bool
is_before none bound = false
is_before (some t) bound = leb t bound

abbrev is_due : Option ReconciliationStatus → Option ℕ → ℕ → Bool
is_due none next now = true
is_due (some ReconciliationStatus.pending) next now = true
is_due (some ReconciliationStatus.failed_retryable) next now = is_before next now
is_due (some ReconciliationStatus.not_required) next now = false
is_due (some ReconciliationStatus.in_progress) next now = false
is_due (some ReconciliationStatus.resolved) next now = false
is_due (some ReconciliationStatus.manual_review_required) next now = false

abbrev pub is_open : Option ReconciliationStatus → Bool
is_open s =
    option_beq s none
    || (option_beq s (some ReconciliationStatus.pending)
        || option_beq s (some ReconciliationStatus.failed_retryable))

module _ (b : Backend) where
  -- The `where` of the batch's query.
  abbrev pub is_candidate : ℕ → ℕ → ℕ → StoredPlan b → Bool
  is_candidate now stale_before max_attempts r =
      ltb r.reconciliation_attempt_count max_attempts
      && ((is_unsettled r.mutation_outcome
            && ((is_before r.mutation_attempted_at stale_before
                  && is_due r.reconciliation_status r.next_reconciliation_at now)
                || (option_beq r.reconciliation_status (some ReconciliationStatus.in_progress)
                    && is_before r.last_reconciliation_at stale_before)))
          || (r.lifecycle_state == LifecycleState.executing
              && (is_before r.execution_lease_started_at stale_before
                  && (option_beq r.mutation_outcome (some MutationOutcome.not_attempted)
                      && is_due r.reconciliation_status r.next_reconciliation_at now))))

  abbrev pub is_stale_in_progress : ℕ → StoredPlan b → Bool
  is_stale_in_progress stale_before plan =
      option_beq plan.reconciliation_status (some ReconciliationStatus.in_progress)
      && (is_before plan.last_reconciliation_at stale_before && is_unsettled plan.mutation_outcome)

  -- The `where` of the claim, and its write.
  abbrev pub is_claimable : StoredPlan b → ℕ → StoredPlan b → Bool
  is_claimable plan stale_before r =
      r.reconciliation_attempt_count == plan.reconciliation_attempt_count
      && (r.organization_id == plan.organization_id
          && (option_beq r.mutation_outcome plan.mutation_outcome
              && (option_beq r.reconciliation_status plan.reconciliation_status
                  && (if is_stale_in_progress stale_before plan
                      then option_beq r.last_reconciliation_at plan.last_reconciliation_at
                      else is_open r.reconciliation_status))))

  abbrev pub claim_plan : ℕ → StoredPlan b → StoredPlan b
  claim_plan now r = record r {
    reconciliation_status = some ReconciliationStatus.in_progress;
    reconciliation_attempt_count = suc r.reconciliation_attempt_count;
    last_reconciliation_at = some now;
    next_reconciliation_at = none;
    updated_at = now;
  }

  -- The `where` of every write after the claim.
  abbrev pub is_held : StoredPlan b → StoredPlan b → Bool
  is_held plan r =
      r.organization_id == plan.organization_id
      && (option_beq r.mutation_outcome plan.mutation_outcome
          && (option_beq r.reconciliation_status (some ReconciliationStatus.in_progress)
              && r.reconciliation_attempt_count == suc plan.reconciliation_attempt_count))

  -- A write under `where`, with its audit event if it met the row.
  unfoldable pub committed :
      Database b
      → StoredPlan b
      → (StoredPlan b → StoredPlan b)
      → String
      → Result
      → Database b × Result
  unfolding worker_audited
  committed db plan write action done =
      if b.plans.count db.plans plan.id (is_held plan) == 1
      then (
        worker_audited b
            (record db { plans = b.plans.update db.plans plan.id (is_held plan) write })
            plan.organization_id none plan.id action,
        done,
      )
      else (db, stale_resolution)

  -- `persistResolution`, for an attempt that was never made and for one that succeeded
  abbrev pub resolve_unattempted : ℕ → StoredPlan b → StoredPlan b
  resolve_unattempted now r = record r {
    mutation_outcome = some MutationOutcome.not_attempted;
    reconciliation_status = some ReconciliationStatus.resolved;
    last_reconciliation_at = some now;
    next_reconciliation_at = none;
    lifecycle_state = LifecycleState.failed;
    failure_classification = some "STALE_MUTATION_ATTEMPT";
    manual_review_reason = none;
    updated_at = now;
  }

  abbrev pub resolve_succeeded : ℕ → StoredPlan b → StoredPlan b
  resolve_succeeded now r = record r {
    mutation_outcome = some MutationOutcome.confirmed_succeeded;
    reconciliation_status = some ReconciliationStatus.resolved;
    last_reconciliation_at = some now;
    next_reconciliation_at = none;
    lifecycle_state = LifecycleState.rollback_available;
    mutation_confirmed_at = some now;
    manual_review_reason = none;
    updated_at = now;
  }

  -- `persistManualReview`
  abbrev pub request_review : ℕ → String → StoredPlan b → StoredPlan b
  request_review now reason r = record r {
    mutation_outcome = some MutationOutcome.manual_review_required;
    reconciliation_status = some ReconciliationStatus.manual_review_required;
    lifecycle_state = LifecycleState.failed;
    execution_status = ExecutionStatus.execution_blocked;
    failure_classification = some "MANUAL_REVIEW_REQUIRED";
    manual_review_reason = some reason;
    last_reconciliation_at = some now;
    next_reconciliation_at = none;
    updated_at = now;
  }

  unfoldable pub persist_manual_review :
      Database b → StoredPlan b → ℕ → String → Database b × Result
  persist_manual_review db plan now reason =
      committed db plan (request_review now reason) "governance.aws_change.manual_review_required"
        (settled ReconciliationStatus.manual_review_required MutationOutcome.manual_review_required)

  abbrev pub retry_later : ℕ → ℕ → StoredPlan b → StoredPlan b
  retry_later now attempt r = record r {
    reconciliation_status = some ReconciliationStatus.failed_retryable;
    next_reconciliation_at = some (now + backoff_ms attempt);
    failure_classification = some "RECONCILIATION_READ_FAILED";
    updated_at = now;
  }

  module _ (target_failure : StoredPlan b → Option String) (requested : StoredPlan b → List AwsTag)
      (target_id : StoredPlan b → String) where
    -- What the read shows.
    unfoldable pub judge :
        Database b → StoredPlan b → ℕ → ℕ → Attempt Instance → Database b × Result
    judge db plan now max_attempts (threw c error_id) =
        if leb max_attempts (suc plan.reconciliation_attempt_count)
        then persist_manual_review db plan now "Read-only reconciliation retry limit was reached."
        else committed db plan (retry_later now (suc plan.reconciliation_attempt_count))
            "governance.aws_change.reconciliation_read_failed" failed_retryable
    judge db plan now max_attempts (returned observed) =
        if not (observed.instance_id == target_id plan)
        then persist_manual_review db plan now
            "Reconciliation target identity did not match the approved resource."
        else if not (has_tags observed.tags (requested plan))
        then persist_manual_review db plan now
            "Requested tags are not all present, but causality cannot be proven safely."
        else committed db plan (resolve_succeeded now)
            "governance.aws_change.reconciliation_resolved"
            (settled ReconciliationStatus.resolved MutationOutcome.confirmed_succeeded)

    -- What follows the claim.
    unfoldable pub reconcile_claimed :
        (Database b → Database b)
        → Database b
        → StoredPlan b
        → ℕ
        → ℕ
        → Attempt Instance
        → Database b × Result
    reconcile_claimed during db plan now max_attempts observe =
        if option_beq plan.mutation_outcome (some MutationOutcome.not_attempted)
        then committed (during db) plan (resolve_unattempted now)
            "governance.aws_change.reconciliation_resolved"
            (settled ReconciliationStatus.resolved MutationOutcome.not_attempted)
        else (elim (target_failure plan) [
          | some reason ↦ persist_manual_review (during db) plan now reason
          | none ↦ judge (during db) plan now max_attempts observe
        ])

    -- `reconcileMutationCandidate`
    unfoldable pub reconcile :
        (Database b → Database b)
        → Database b
        → StoredPlan b
        → ℕ
        → ℕ
        → ℕ
        → Attempt Instance
        → Database b × Result
    reconcile during db plan now stale_before max_attempts observe =
        if b.plans.count db.plans plan.id (is_claimable plan stale_before) == 1
        then reconcile_claimed during
            (record db {
              plans =
                  b.plans.update db.plans plan.id (is_claimable plan stale_before) (claim_plan now);
            })
            plan now max_attempts observe
        else (db, not_claimed)

    -- The loop of `runMutationReconciliationBatch` over the rows that its query returned.
    unfoldable pub run_batch :
        (Database b → Database b)
        → (StoredPlan b → Attempt Instance)
        → ℕ
        → ℕ
        → ℕ
        → List (StoredPlan b)
        → Database b
        → Database b
    run_batch during observe now stale_before max_attempts [] db = db
    run_batch during observe now stale_before max_attempts (plan ∷ plans) db =
        run_batch during observe now stale_before max_attempts plans
          (reconcile during db plan now stale_before max_attempts (observe plan)).0
