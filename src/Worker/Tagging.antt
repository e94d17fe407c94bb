-- ===== src/Worker/Tagging.antt =====
-- The tagging of an instance (apps/worker/src/index.ts, `executeGovernedEc2Tagging`). `fingerprint`
-- stands for `computeEc2TagSafetyFingerprint`, which throws on malformed identifiers; `later` and
-- `during` for what other processes write before the barrier and while `CreateTags` is under way.
use cloudshield_enterprise.Prelude.{
  String, ℕ, Bool, true, false, not, ◌&&◌, Option, none, some, List, ◌∷◌, if◌then◌else◌, ◌==◌,
  string_eq, nat_eq, option_beq,
}
use cloudshield_enterprise.Accounts.{AwsAccount}
use cloudshield_enterprise.Governance.Types.{
  LifecycleState, ExecutionStatus, MutationOutcome, ReconciliationStatus, lifecycle_state_eq,
  mutation_outcome_eq,
}
use cloudshield_enterprise.Governance.Queue.{◌or_else◌, refuse_if}
use cloudshield_enterprise.Governance.Backend.{Backend, Database, StoredPlan}
use cloudshield_enterprise.Worker.Job.{
  AwsTag, Environment, TargetResource, Relations, Attempt, threw, returned, Identity, Instance,
  CreateReply, malformed, accepted, Provider, WorkerReply, World,
}
use cloudshield_enterprise.Worker.Gates.{
  has_tags, lookup_tag, preflight_failure, identity_failure, safety_failure, classify_aws_error,
  is_definitive,
}
use cloudshield_enterprise.Worker.Record.{
  or_else_option, worker_audited, fail_governed_plan, persist_mutation_outcome,
}

-- The state of the resource that an approval is bound to.
pub record SafetyState : Type 0 where
  pub resource_id : String
  pub account_id : String
  pub region : String
  pub cloud_shield_managed : Option String
  pub cloud_shield_protected : Option String
  pub environment : Option String

abbrev or_resource : Option String → (TargetResource → String) → Option TargetResource → String
or_resource none of_resource none = ""
or_resource none of_resource (some r) = of_resource r
or_resource (some s) of_resource resource =
    if s == "" then (elim resource [ none ↦ "" | some r ↦ of_resource r ]) else s

abbrev pub region_of : Relations → String
region_of relations = or_resource relations.payload.region (λ r. r.region) relations.resource

abbrev pub instance_of : Relations → String
instance_of relations =
    or_resource relations.payload.resource_id (λ r. r.resource_id) relations.resource

abbrev pub of_account : (AwsAccount → String) → Option AwsAccount → String
of_account field none = ""
of_account field (some a) = field a

abbrev pub expected_outcome : Bool → MutationOutcome
expected_outcome true = MutationOutcome.attempted
expected_outcome false = MutationOutcome.not_attempted

module _ (b : Backend) (fingerprint : SafetyState → Option String) where
  abbrev pub safety_state : Relations → Instance → SafetyState
  safety_state relations now = record {
    resource_id = now.instance_id;
    account_id = of_account (λ a. a.account_id) relations.aws_account;
    region = region_of relations;
    cloud_shield_managed = lookup_tag now.tags "CloudShieldManaged";
    cloud_shield_protected = lookup_tag now.tags "CloudShieldProtected";
    environment = lookup_tag now.tags "Environment";
  }

  abbrev pub drift : String → Option String → Option String
  drift approved none = some "RESOURCE_STATE_READ_FAILED"
  drift approved (some current) = refuse_if (not (approved == current)) "RESOURCE_STATE_DRIFTED"

  -- The checks of the instance as `DescribeInstances` shows it.
  unfoldable pub state_failure : Relations → Instance → Option String
  state_failure relations now =
      drift relations.approved_fingerprint (fingerprint (safety_state relations now))
      or_else safety_failure (of_account (λ a. a.environment) relations.aws_account) now.tags

  -- The `where` of the barrier, and its write.
  abbrev pub is_unattempted : String → StoredPlan b → Bool
  is_unattempted organization r =
      r.organization_id == organization
      && (r.lifecycle_state == LifecycleState.executing
          && option_beq r.mutation_outcome (some MutationOutcome.not_attempted))

  abbrev pub attempt_plan : ℕ → StoredPlan b → StoredPlan b
  attempt_plan now r = record r {
    mutation_outcome = some MutationOutcome.attempted;
    mutation_attempted_at = some now;
    reconciliation_status = some ReconciliationStatus.pending;
    updated_at = now;
  }

  abbrev pub has_outcome : MutationOutcome → StoredPlan b → Bool
  has_outcome o r = option_beq r.mutation_outcome (some o)

  -- The write of a verified end; `attempted` tells whether `CreateTags` was sent.
  abbrev pub confirm_plan : StoredPlan b → Bool → ℕ → StoredPlan b → StoredPlan b
  confirm_plan plan attempted now r = record r {
    before_state = b.rollback_document plan.before_state;
    lifecycle_state = LifecycleState.rollback_available;
    execution_status = ExecutionStatus.ready_for_execution;
    mutation_outcome =
        some (
          if attempted then MutationOutcome.confirmed_succeeded else MutationOutcome.not_attempted);
    mutation_confirmed_at = if attempted then some now else none;
    reconciliation_status =
        some
          (if attempted then ReconciliationStatus.resolved else ReconciliationStatus.not_required);
    next_reconciliation_at = none;
    manual_review_reason = none;
    execution_completed_at = some now;
    rollback_available_at = some now;
    updated_at = now;
  }

  abbrev pub unidentified : StoredPlan b → Bool
  unidentified r =
      option_beq r.mutation_outcome (some MutationOutcome.attempted)
      && (option_beq r.mutation_provider_request_id none && option_beq r.aws_request_id none)

  abbrev identify : String → ℕ → StoredPlan b → StoredPlan b
  identify request_id now r = record r {
    mutation_provider_request_id = some request_id;
    aws_request_id = some request_id;
    updated_at = now;
  }

  abbrev pub has_request_id : String → Option (StoredPlan b) → Bool
  has_request_id request_id none = false
  has_request_id request_id (some r) =
      option_beq r.mutation_provider_request_id (some request_id)
      && option_beq r.aws_request_id (some request_id)

  module _ (plan : StoredPlan b) (relations : Relations) (user : String) (now : ℕ) where
    abbrev tags : List AwsTag
    tags = relations.payload.tags

    abbrev unknown : World b → String → Option String → World b × WorkerReply
    unknown w classification request_id =
        persist_mutation_outcome b w plan true classification request_id now

    unfoldable pub confirm : World b → Bool → Option String → World b × WorkerReply
    unfolding worker_audited
    confirm w attempted request_id =
        if b.plans.count w.db.plans plan.id (has_outcome (expected_outcome attempted)) == 1
        then (
          record w {
            db =
                worker_audited b
                  (record w.db {
                    plans =
                        b.plans.update w.db.plans plan.id (has_outcome (expected_outcome attempted))
                          (confirm_plan plan attempted now);
                  })
                  plan.organization_id (some user) plan.id
                  (if attempted
                    then "governance.aws_change.outcome_confirmed_succeeded"
                    else "governance.aws_change.tagging_succeeded");
          },
          WorkerReply.completed LifecycleState.rollback_available attempted,
        )
        else if attempted
        then unknown w "MUTATION_CONFIRMATION_PERSISTENCE_FAILED" request_id
        else fail_governed_plan b w plan.id "LOCAL_PERSISTENCE_FAILED" now

    -- The read that follows, and what it shows.
    unfoldable pub verify :
        World b → Bool → Option String → Attempt Instance → World b × WorkerReply
    verify w attempted request_id (threw c error_id) =
        if attempted
        then unknown w "MUTATION_CONFIRMATION_READ_FAILED" (or_else_option request_id error_id)
        else fail_governed_plan b w plan.id "RESOURCE_STATE_READ_FAILED" now
    verify w attempted request_id (returned after) =
        if has_tags after.tags tags
        then confirm w attempted request_id
        else if attempted
        then unknown w "MUTATION_OUTCOME_UNKNOWN" request_id
        else fail_governed_plan b w plan.id "AFTER_STATE_VERIFICATION_FAILED" now

    -- What follows the reply to `CreateTags`.
    unfoldable pub after_create :
        World b → Attempt Instance → Attempt CreateReply → World b × WorkerReply
    after_create w after (threw c error_id) =
        if is_definitive c
        then persist_mutation_outcome b w plan false "MUTATION_PROVIDER_DEFINITIVE_FAILURE" error_id
            now
        else unknown w "MUTATION_OUTCOME_UNKNOWN" error_id
    after_create w after (returned malformed) = unknown w "MUTATION_OUTCOME_UNKNOWN" none
    after_create w after (returned (accepted none)) = verify w true none after
    after_create w after (returned (accepted (some request_id))) =
        if b.plans.count w.db.plans plan.id unidentified == 1
        then verify
            (record w {
              db = record w.db {
                plans = b.plans.update w.db.plans plan.id unidentified (identify request_id now);
              };
            })
            true (some request_id) after
        else if has_request_id request_id (b.plans.find w.db.plans plan.id)
        then verify w true (some request_id) after
        else unknown w "PROVIDER_REQUEST_ID_CONFLICT" (some request_id)

    module _ (later during : Database b → Database b) (provider : Provider) where
      -- `CreateTags` is sent only where the barrier has recorded the attempt.
      unfoldable pub send_recorded : World b → Bool → World b × WorkerReply
      unfolding worker_audited
      send_recorded w false =
          fail_governed_plan b w plan.id "MUTATION_ATTEMPT_PERSISTENCE_FAILED" now
      send_recorded w true =
          after_create
            (record {
              db = during (
                  worker_audited b
                    (record w.db {
                      plans =
                          b.plans.update w.db.plans plan.id (is_unattempted plan.organization_id)
                            (attempt_plan now);
                    })
                    plan.organization_id (some user) plan.id
                    "governance.aws_change.mutation_attempt_recorded");
              created = (record { resource = instance_of relations; tags = tags }) ∷ w.created;
            })
            provider.after provider.create

      unfoldable pub send : World b → World b × WorkerReply
      send w =
          send_recorded w
            (b.plans.count w.db.plans plan.id (is_unattempted plan.organization_id) == 1)

      abbrev moved : World b → World b
      moved w = record w { db = later w.db }

      unfoldable pub with_instance : World b → Attempt Instance → World b × WorkerReply
      with_instance w (threw c error_id) =
          fail_governed_plan b w plan.id "RESOURCE_STATE_READ_FAILED" now
      with_instance w (returned before) = elim (state_failure relations before) [
        | some failure ↦ fail_governed_plan b w plan.id failure now
        | none ↦
            if has_tags before.tags tags then verify w false none provider.after else send (moved w)
      ]

      unfoldable pub with_identity :
          Environment → World b → Attempt Identity → World b × WorkerReply
      with_identity env w (threw c error_id) =
          fail_governed_plan b w plan.id (classify_aws_error c) now
      with_identity env w (returned identity) =
          elim (identity_failure env (of_account (λ a. a.account_id) relations.aws_account)
            identity) [
              | some failure ↦ fail_governed_plan b w plan.id failure now
              | none ↦ with_instance w provider.before
            ]

      unfoldable pub execute_tagging : Environment → World b → World b × WorkerReply
      execute_tagging env w =
          elim (preflight_failure env (region_of relations)
            (of_account (λ a. a.account_id) relations.aws_account) tags) [
              | some failure ↦ fail_governed_plan b w plan.id failure now
              | none ↦ with_identity env w provider.identity
            ]
