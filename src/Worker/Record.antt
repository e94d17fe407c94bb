-- ===== src/Worker/Record.antt =====
-- What the worker writes about a job's end
-- (apps/worker/src/index.ts, `failGovernedPlan`, `blockGovernedPlan`, `persistMutationOutcome` and
-- `ensureMutationReconciliationScheduled`). The evidence documents are not part of the rows.
use cloudshield_enterprise.Prelude.{
  String, ℕ, Bool, true, false, not, ◌&&◌, ◌||◌, Option, none, some, ◌∷◌, if◌then◌else◌, ◌==◌,
  string_eq, nat_eq, option_beq,
}
use cloudshield_enterprise.Governance.Types.{
  LifecycleState, ExecutionStatus, MutationOutcome, ReconciliationStatus, mutation_outcome_eq,
  reconciliation_status_eq,
}
use cloudshield_enterprise.Governance.Backend.{Backend, Database, StoredPlan}
use cloudshield_enterprise.Worker.Job.{World, WorkerReply}

abbrev pub or_else_option : Option String → Option String → Option String
or_else_option none later = later
or_else_option (some s) later = some s

abbrev differ : Option String → Option String → Bool
differ (some s) (some t) = not (s == t)
differ (some s) none = false
differ none _ = false

-- What an outcome that the provider did not confirm leaves to be done.
abbrev pub reconciliation_after : Bool → ReconciliationStatus
reconciliation_after true = ReconciliationStatus.pending
reconciliation_after false = ReconciliationStatus.resolved

abbrev pub outcome_after : Bool → MutationOutcome
outcome_after true = MutationOutcome.outcome_unknown
outcome_after false = MutationOutcome.confirmed_failed

abbrev pub is_unsettled : Option MutationOutcome → Bool
is_unsettled o =
    option_beq o (some MutationOutcome.attempted)
    || option_beq o (some MutationOutcome.outcome_unknown)

abbrev pub is_scheduled : Option ReconciliationStatus → Bool
is_scheduled s =
    option_beq s (some ReconciliationStatus.pending)
    || (option_beq s (some ReconciliationStatus.in_progress)
        || option_beq s (some ReconciliationStatus.failed_retryable))

-- `mutationOutcomeResponse`
abbrev pub mutation_outcome_response : Option MutationOutcome → WorkerReply
mutation_outcome_response o =
    WorkerReply.outcome o
      (is_unsettled o || option_beq o (some MutationOutcome.manual_review_required))

module _ (b : Backend) where
  -- `audit`, whose actor may be missing
  unfoldable pub worker_audited : Database b → String → Option String → String → String → Database b
  worker_audited db organization actor target_id action = record db {
    audits =
        (record {
          organization_id = organization;
          actor_user_id = actor;
          action = action;
          target_id = target_id;
        })
        ∷ db.audits;
  }

  -- An update by key throws where the row is missing.
  abbrev pub written :
      World b
      → String
      → (StoredPlan b → StoredPlan b)
      → String
      → WorkerReply
      → Option (StoredPlan b)
      → World b × WorkerReply
  written w id write action reply none = (w, WorkerReply.raised)
  written w id write action reply (some p) = (
    record w {
      db = record w.db {
        plans = b.plans.update w.db.plans id (λ _. true) write;
        audits =
            (record {
              organization_id = p.organization_id;
              actor_user_id = none;
              action = action;
              target_id = id;
            })
            ∷ w.db.audits;
      };
    },
    reply,
  )

  unfoldable pub fail_governed_plan : World b → String → String → ℕ → World b × WorkerReply
  fail_governed_plan w id classification now =
      written w id
        (λ r. record r {
          lifecycle_state = LifecycleState.failed;
          execution_status = ExecutionStatus.execution_blocked;
          failure_classification = some classification;
          execution_completed_at = some now;
          updated_at = now;
        })
        "governance.aws_change.worker_failed" (WorkerReply.failed classification)
        (b.plans.find w.db.plans id)

  unfoldable pub block_governed_plan : World b → String → String → ℕ → World b × WorkerReply
  block_governed_plan w id reason now =
      written w id
        (λ r. record r {
          lifecycle_state = LifecycleState.blocked;
          execution_status = ExecutionStatus.execution_blocked;
          blocked_reason = some reason;
          execution_completed_at = some now;
          updated_at = now;
        })
        "governance.aws_change.worker_blocked" (WorkerReply.blocked reason)
        (b.plans.find w.db.plans id)

  -- The row is still the attempted one that the transaction has read.
  abbrev pub is_attempted_as : StoredPlan b → StoredPlan b → Bool
  is_attempted_as current r =
      option_beq r.mutation_outcome (some MutationOutcome.attempted)
      && (option_beq r.mutation_provider_request_id current.mutation_provider_request_id
          && option_beq r.aws_request_id current.aws_request_id)

  -- The request id that is kept: one that is stored is never replaced.
  abbrev request_id_after : Option String → Option String → Option String → Option String
  request_id_after (some s) existing candidate = some s
  request_id_after none existing candidate =
      if differ candidate existing then none else or_else_option existing candidate

  abbrev pub record_outcome :
      Bool → String → Option String → ℕ → StoredPlan b → StoredPlan b → StoredPlan b
  record_outcome uncertain classification candidate now current r =
      let existing = or_else_option current.mutation_provider_request_id current.aws_request_id in
      record r {
        lifecycle_state = LifecycleState.failed;
        execution_status = ExecutionStatus.execution_blocked;
        mutation_outcome = some (outcome_after uncertain);
        mutation_confirmed_at = if uncertain then none else some now;
        mutation_provider_request_id =
            request_id_after current.mutation_provider_request_id existing candidate;
        aws_request_id = request_id_after current.aws_request_id existing candidate;
        reconciliation_status = some (reconciliation_after uncertain);
        next_reconciliation_at = if uncertain then some now else none;
        failure_classification = some classification;
        execution_completed_at = some now;
        updated_at = now;
      }

  abbrev outcome_action : Bool → String
  outcome_action true = "governance.aws_change.outcome_unknown"
  outcome_action false = "governance.aws_change.outcome_confirmed_failed"

  -- `persistMutationOutcome`; the reply to a conflict is that the outcome is not known.
  abbrev pub outcome_recorded :
      World b
      → StoredPlan b
      → Bool
      → String
      → Option String
      → ℕ
      → Option (StoredPlan b)
      → World b × WorkerReply
  outcome_recorded w plan uncertain classification candidate now none =
      (w, WorkerReply.unconfirmed "MUTATION_CONFIRMATION_PERSISTENCE_FAILED")
  outcome_recorded w plan uncertain classification candidate now (some current) =
      if b.plans.count w.db.plans plan.id (is_attempted_as current) == 1
      then (
        record w {
          db = record w.db {
            plans =
                b.plans.update w.db.plans plan.id (is_attempted_as current)
                  (record_outcome uncertain classification candidate now current);
            audits =
                (record {
                  organization_id = plan.organization_id;
                  actor_user_id = none;
                  action = outcome_action uncertain;
                  target_id = plan.id;
                })
                ∷ w.db.audits;
          };
        },
        WorkerReply.outcome (some (outcome_after uncertain)) uncertain,
      )
      else (w, WorkerReply.unconfirmed "MUTATION_CONFIRMATION_PERSISTENCE_FAILED")

  unfoldable pub persist_mutation_outcome :
      World b → StoredPlan b → Bool → String → Option String → ℕ → World b × WorkerReply
  persist_mutation_outcome w plan uncertain classification candidate now =
      outcome_recorded w plan uncertain classification candidate now
        (b.plans.find w.db.plans plan.id)

  -- `ensureMutationReconciliationScheduled`
  unfoldable pub ensure_scheduled : World b → StoredPlan b → ℕ → World b
  ensure_scheduled w plan now =
      if not (is_unsettled plan.mutation_outcome)
      then w
      else if is_scheduled plan.reconciliation_status
      then w
      else record w {
        db = record w.db {
          plans =
              b.plans.update w.db.plans plan.id
                (λ r.
                  option_beq r.mutation_outcome plan.mutation_outcome
                  && option_beq r.reconciliation_status plan.reconciliation_status)
                λ r. record r {
                  reconciliation_status = some ReconciliationStatus.pending;
                  next_reconciliation_at = some now;
                  updated_at = now;
                };
        };
      }
