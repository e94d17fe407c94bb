-- ===== src/Reconciliation/Tests.antt =====
-- Witnesses of the reconciliation.
use cloudshield_enterprise.Prelude.{
  String, ◌≡◌, ◌≢◌, refl, sym, ap, ◌∙◌, Option, none, some, List, [], ◌∷◌, true, false, arith, Bool,
}
use cloudshield_enterprise.Governance.Types.{
  operation_code, request_status_code, LifecycleState, MutationOutcome, ReconciliationStatus,
  mutation_outcome_code, lifecycle_state_code, reconciliation_status_code,
}
use cloudshield_enterprise.Governance.Plan.{Plan}
use cloudshield_enterprise.Governance.Backend.{Database}
use cloudshield_enterprise.Store.Rows.{Every}
use cloudshield_enterprise.Scenario.{
  backend, approved_plan, approved_request, holding, holding-Every,
}
use cloudshield_enterprise.Worker.Job.{AwsTag, Attempt, returned, Instance}
use cloudshield_enterprise.Worker.Record.{worker_audited}
use cloudshield_enterprise.Reconciliation.{
  Result, settled, not_claimed, reconcile, reconcile_claimed, judge, committed, run_batch,
}
use cloudshield_enterprise.Reconciliation.Target.{
  Target, validate_reconciliation_target, IsApprovedTarget, validated-IsApprovedTarget,
}
use cloudshield_enterprise.Reconciliation.Claimed.{confirmed-IsApprovedTarget}
use cloudshield_enterprise.Reconciliation.Bounds.{IsWithin, batch-IsWithin}
use cloudshield_enterprise.Reconciliation.Claimed.{second_not_claimed, confirmed_is_observed, Shows}

abbrev owner_tag : AwsTag
owner_tag = record { key = "Owner"; value = "team" }

abbrev requested : Plan String → List AwsTag
requested p = owner_tag ∷ []

abbrev target_id : Plan String → String
target_id p = "i-0123456789abcdef0"

abbrev no_failure : Plan String → Option String
no_failure p = none

abbrev shown : Attempt Instance
shown = returned (record { instance_id = "i-0123456789abcdef0"; tags = owner_tag ∷ [] })

abbrev unknown_plan : Plan String
unknown_plan = record approved_plan {
  lifecycle_state = LifecycleState.failed;
  mutation_outcome = some MutationOutcome.outcome_unknown;
  mutation_attempted_at = some 200;
  reconciliation_status = some ReconciliationStatus.pending;
}

abbrev unknown_db : Database backend
unknown_db = holding unknown_plan approved_request

abbrev same : Database backend → Database backend
same d = d

resolves :
    (reconcile backend no_failure requested target_id same unknown_db unknown_plan 2000000 1100000 3
      shown).1
    ≡ settled ReconciliationStatus.resolved MutationOutcome.confirmed_succeeded
unfolding reconcile reconcile_claimed judge committed worker_audited mutation_outcome_code
    lifecycle_state_code reconciliation_status_code
resolves = refl

confirmed_is_observed_example :
    (no_failure unknown_plan ≡ none)
    × Shows backend no_failure requested target_id unknown_plan shown
confirmed_is_observed_example =
    confirmed_is_observed backend no_failure requested target_id unknown_plan same unknown_db
      2000000 1100000 3 shown resolves

is_claimed : Result → Bool
is_claimed not_claimed = false
is_claimed Result.stale_resolution = true
is_claimed Result.failed_retryable = true
is_claimed (settled s o) = true

resolves_claimed :
    (reconcile backend no_failure requested target_id same unknown_db unknown_plan 2000000 1100000 3
      shown).1
    ≢ not_claimed
unfolding is_claimed
resolves_claimed e = ground (arith, ap is_claimed (sym resolves ∙ e))

abbrev first_db : Database backend
first_db =
    (reconcile backend no_failure requested target_id same unknown_db unknown_plan 2000000 1100000 3
      shown).0

second_not_claimed_example :
    reconcile backend no_failure requested target_id same first_db unknown_plan 2000001 1100001 3
      shown
    ≡ (first_db, not_claimed)
second_not_claimed_example =
    second_not_claimed backend no_failure requested target_id unknown_plan same same same unknown_db
      2000000 1100000 2000001 1100001 3 shown shown (λ d h. h) (λ d h. h) resolves_claimed

batch-IsWithin_example :
    Every
      (IsWithin 3)
      backend.plans
      (run_batch backend no_failure requested target_id same
        (λ p. shown)
        2000000
        1100000
        3
        (unknown_plan ∷ [])
        unknown_db).plans
unfolding mutation_outcome_code reconciliation_status_code
batch-IsWithin_example =
    batch-IsWithin backend no_failure requested target_id same (λ p. shown) 2000000 1100000 3
      (unknown_plan ∷ []) unknown_db (λ id d h. h) (refl, tt)
      (holding-Every (IsWithin 3) unknown_plan (omega arith) approved_request)

abbrev target : Target
target = record {
  resource = some (record {
    organization_id = "org-1";
    resource_id = "i-0123456789abcdef0";
    region = "eu-west-1";
  });
  account_organization_id = some "org-1";
  payload_failure = none;
  payload_resource_id = "i-0123456789abcdef0";
  payload_region = "eu-west-1";
  approval = some approved_request;
}

target_passes : validate_reconciliation_target target unknown_plan ≡ none
unfolding validate_reconciliation_target operation_code request_status_code
target_passes = refl

validated-IsApprovedTarget_example : IsApprovedTarget target unknown_plan
validated-IsApprovedTarget_example = validated-IsApprovedTarget target unknown_plan target_passes

abbrev failure_of : Plan String → Option String
failure_of p = validate_reconciliation_target target p

resolves_target :
    (reconcile backend failure_of requested target_id same unknown_db unknown_plan 2000000 1100000 3
      shown).1
    ≡ settled ReconciliationStatus.resolved MutationOutcome.confirmed_succeeded
unfolding reconcile reconcile_claimed judge committed worker_audited mutation_outcome_code
    lifecycle_state_code reconciliation_status_code validate_reconciliation_target operation_code
    request_status_code
resolves_target = refl

confirmed-IsApprovedTarget_example : IsApprovedTarget target unknown_plan
confirmed-IsApprovedTarget_example =
    confirmed-IsApprovedTarget backend (λ p. target) requested target_id unknown_plan same
      unknown_db 2000000 1100000 3 shown resolves_target
