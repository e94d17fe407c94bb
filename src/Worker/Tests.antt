-- ===== src/Worker/Tests.antt =====
-- Witnesses: two deliveries of one job, the first of which sends.
use cloudshield_enterprise.Prelude.{
  false, All, ◌≢◌, sym, ap, ◌∙◌, arith, String, ◌≤◌, ◌≡◌, refl, Option, none, some, List, [], ◌∷◌,
  length, true,
}
use cloudshield_enterprise.Accounts.{AwsAccount, ConnectionStatus}
use cloudshield_enterprise.Governance.Types.{
  Mode, LifecycleState, MutationOutcome, ReconciliationStatus, reconciliation_status_code,
  mutation_outcome_code, lifecycle_state_code, approval_status_code, request_status_code, mode_code,
  operation_code,
}
use cloudshield_enterprise.Governance.Plan.{Plan, ApprovalRequest}
use cloudshield_enterprise.Governance.Backend.{
  Database, GovernedAwsChangeJob, approval_payload_hash,
}
use cloudshield_enterprise.Governance.Queue.{is_sample_resource}
use cloudshield_enterprise.Scenario.{backend, approved_plan, approved_request, holding}
use cloudshield_enterprise.Worker.Text.{utf16_length, is_blank_text, is_aws_reserved, last_segment}
use cloudshield_enterprise.Worker.Job.{
  AwsTag, Environment, Relations, returned, accepted, Provider, World,
}
use cloudshield_enterprise.Worker.Gates.{
  validate_worker_gate, tag_failure, preflight_failure, identity_failure, safety_failure,
}
use cloudshield_enterprise.Worker.Record.{
  fail_governed_plan, block_governed_plan, persist_mutation_outcome, ensure_scheduled,
  worker_audited,
}
use cloudshield_enterprise.Worker.Tagging.{
  is_unattempted, SafetyState, confirm, verify, after_create, send_recorded, send, with_instance,
  with_identity, execute_tagging, state_failure,
}
use cloudshield_enterprise.Worker.Process.{
  verify_bound_approval, repeated, refusal, refused, run_claimed, run_plan, process_job,
}
use cloudshield_enterprise.Worker.Attempts.{Spent, unconfirmed-IsSpent}
use cloudshield_enterprise.Reconciliation.{is_held}
use cloudshield_enterprise.Worker.Safety.{
  IsAllowed, IsDistinct, tag_failure-none, IsCleared, sent-IsCleared,
}
use cloudshield_enterprise.Worker.Outcomes.{follows, attempted_review_is_unlisted}
use cloudshield_enterprise.Worker.Deliveries.{
  Delivery, IsFor, deliver_all, Spent-sends_nothing, created_at_most_once,
}

abbrev fingerprint : SafetyState → Option String
fingerprint s = some "state-1"

abbrev no_failure : ApprovalRequest → Option String
no_failure a = none

abbrev staging_account : AwsAccount
staging_account = record {
  id = "account-1";
  organization_id = "org-1";
  account_id = "123456789012";
  archived_at = none;
  connection_status = ConnectionStatus.validation_succeeded;
  environment = "staging";
  change_execution_enabled = true;
  organization_change_execution_enabled = true;
  execution_role_arn_placeholder = some "arn:role";
}

abbrev worker_environment : Environment
worker_environment = record {
  mode = Mode.staging;
  allowed_account_ids = "123456789012" ∷ [];
  allowed_regions = "eu-west-1" ∷ [];
  allowed_tag_keys = "Owner" ∷ [];
  executor_role_arn = some "arn:aws:iam::123456789012:role/executor";
  executor_external_id = some "external";
}

abbrev owner_tag : AwsTag
owner_tag = record { key = "Owner"; value = "team" }

abbrev managed_tags : List AwsTag
managed_tags =
    (record { key = "CloudShieldManaged"; value = "true" })
    ∷ (record { key = "Environment"; value = "sandbox" })
    ∷ []

abbrev relations : Relations
relations = record {
  aws_account = some staging_account;
  account_regions = "eu-west-1" ∷ [];
  resource = some (record {
    region = "eu-west-1";
    resource_id = "i-0123456789abcdef0";
    resource_type = "EC2_INSTANCE";
    source = some "AWS_SYNC";
    blob = "{}";
  });
  payload = record {
    operation = some "EC2_APPLY_GOVERNANCE_TAGS";
    region = some "eu-west-1";
    resource_id = some "i-0123456789abcdef0";
    tags = owner_tag ∷ [];
  };
  approved_fingerprint = "state-1";
}

abbrev provider : Provider
provider = record {
  identity = returned (record {
    account = some "123456789012";
    arn = some "arn:aws:sts::123456789012:assumed-role/executor/session";
  });
  before = returned (record { instance_id = "i-0123456789abcdef0"; tags = managed_tags });
  create = returned (accepted (some "request-id"));
  after =
      returned (record { instance_id = "i-0123456789abcdef0"; tags = owner_tag ∷ managed_tags });
}

abbrev job : GovernedAwsChangeJob
job = record {
  organization_id = "org-1";
  plan_id = "plan-1";
  requested_by_id = "operator";
  idempotency_key = "key-1";
  correlation_id = "correlation-1";
}

abbrev delivery : Delivery backend
delivery = record {
  earlier = λ d. d;
  others = λ d. d;
  later = λ d. d;
  during = λ d. d;
  environment = worker_environment;
  provider = provider;
  job = job;
  now = 1000;
  relations = relations;
}

delivery-IsFor : IsFor backend "plan-1" delivery
delivery-IsFor = record {
  of_plan = refl;
  earlier = λ d h. h;
  others = λ d h. h;
  later = λ d h. h;
  during = λ d h. h;
}

abbrev queued : World backend
queued = record {
  db = holding (record approved_plan { lifecycle_state = LifecycleState.queued }) approved_request;
  created = [];
}

abbrev unknown : World backend
unknown = record {
  db =
      holding
        (record approved_plan {
          lifecycle_state = LifecycleState.failed;
          mutation_outcome = some MutationOutcome.outcome_unknown;
        })
        approved_request;
  created = [];
}

sends_once :
    length (deliver_all backend fingerprint no_failure (delivery ∷ delivery ∷ []) queued).created
    ≡ 1
unfolding process_job run_plan run_claimed refusal verify_bound_approval validate_worker_gate
    is_sample_resource execute_tagging preflight_failure tag_failure is_blank_text utf16_length
    is_aws_reserved with_identity identity_failure last_segment with_instance state_failure
    safety_failure send send_recorded after_create verify confirm worker_audited
    mutation_outcome_code lifecycle_state_code approval_status_code request_status_code mode_code
    operation_code approval_payload_hash repeated refused block_governed_plan fail_governed_plan
    persist_mutation_outcome ensure_scheduled
sends_once = refl

created_at_most_once_example :
    length (deliver_all backend fingerprint no_failure (delivery ∷ delivery ∷ []) queued).created
    ≤ 1
created_at_most_once_example =
    created_at_most_once backend fingerprint no_failure "plan-1" (delivery ∷ delivery ∷ []) queued
      (delivery-IsFor, (delivery-IsFor, tt))

unknown-Spent : Spent backend "plan-1" unknown.db
unknown-Spent = unconfirmed-IsSpent true

Spent-sends_nothing_example :
    ((deliver_all backend fingerprint no_failure (delivery ∷ []) unknown).created ≡ [])
    × Spent backend "plan-1" (deliver_all backend fingerprint no_failure (delivery ∷ []) unknown).db
Spent-sends_nothing_example =
    Spent-sends_nothing backend fingerprint no_failure "plan-1" (delivery ∷ []) unknown
      (delivery-IsFor, tt) unknown-Spent

owner_passes : tag_failure ("Owner" ∷ []) [] (owner_tag ∷ []) ≡ none
unfolding tag_failure is_blank_text utf16_length is_aws_reserved
owner_passes = refl

tag_failure-none_example :
    All (IsAllowed ("Owner" ∷ [])) (owner_tag ∷ []) × IsDistinct [] (owner_tag ∷ [])
tag_failure-none_example = tag_failure-none ("Owner" ∷ []) [] (owner_tag ∷ []) owner_passes

abbrev executing : World backend
executing = record {
  db =
      holding (record approved_plan { lifecycle_state = LifecycleState.executing })
        approved_request;
  created = [];
}

abbrev same : Database backend → Database backend
same d = d

tagging_sends :
    length
      (execute_tagging backend fingerprint approved_plan relations "operator" 1000 same same
        provider worker_environment executing).0.created
    ≡ 1
unfolding execute_tagging preflight_failure tag_failure is_blank_text utf16_length is_aws_reserved
    with_identity identity_failure last_segment with_instance state_failure safety_failure send
    send_recorded after_create verify confirm worker_audited mutation_outcome_code
    lifecycle_state_code mode_code
tagging_sends = refl

tagging_adds :
    (execute_tagging backend fingerprint approved_plan relations "operator" 1000 same same provider
      worker_environment executing).0.created
    ≢ []
tagging_adds e = omega (arith, sym tagging_sends ∙ ap length e)

sent-IsCleared_example : IsCleared backend fingerprint worker_environment relations provider
sent-IsCleared_example =
    sent-IsCleared backend fingerprint approved_plan relations "operator" 1000 same same
      worker_environment provider executing tagging_adds

abbrev executing_plan : Plan String
executing_plan = record approved_plan { lifecycle_state = LifecycleState.executing }

executing_unattempted : is_unattempted backend fingerprint "org-1" executing_plan ≡ true
unfolding mutation_outcome_code lifecycle_state_code
executing_unattempted = refl

abbrev held_plan : Plan String
held_plan = record approved_plan {
  mutation_outcome = some MutationOutcome.attempted;
  reconciliation_status = some ReconciliationStatus.in_progress;
  reconciliation_attempt_count = 1;
}

abbrev read_plan : Plan String
read_plan = record held_plan {
  reconciliation_status = some ReconciliationStatus.pending;
  reconciliation_attempt_count = 0;
}

read_is_held : is_held backend read_plan held_plan ≡ true
unfolding mutation_outcome_code reconciliation_status_code
read_is_held = refl

attempted_review_is_unlisted_example :
    follows (some MutationOutcome.attempted) (some MutationOutcome.manual_review_required) ≡ false
attempted_review_is_unlisted_example =
    attempted_review_is_unlisted backend read_plan held_plan 2000 "unclear" read_is_held refl
