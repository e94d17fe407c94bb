-- ===== src/Governance/Tests.antt =====
-- Witnesses of the governance service.
use mathlib.Core.Option.{some-injective, none-ne-some}
use cloudshield_enterprise.Prelude.{
  String, ◌≤◌, ◌≡◌, ◌≢◌, false, refl, sym, ap, ◌∙◌, Option, none, some, [], length, true, arith,
}
use cloudshield_enterprise.Accounts.{
  ConnectionStatus, assert_governance_target_operationally_active, connection_code,
  get_aws_account_operational_block_reason,
}
use cloudshield_enterprise.Governance.Types.{
  Operation, MutationOutcome, Mode, LifecycleState, ApprovalStatus, RequestStatus,
  mutation_outcome_code, lifecycle_state_code, approval_status_code, request_status_code, mode_code,
}
use cloudshield_enterprise.Governance.Plan.{Plan, ApprovalRequest, ActorContext}
use cloudshield_enterprise.Governance.Backend.{Database, find_plan, audited}
use cloudshield_enterprise.Governance.Approval.{GovernedApprovalRequest, approve}
use cloudshield_enterprise.Governance.Decide.{decide}
use cloudshield_enterprise.Governance.Queue.{
  Target, GovernedExecuteRequest, bound_request, queue_execution, validate_execution_ready,
  bound_approval_failure, account_failure, resource_failure, is_sample_resource, claim_and_enqueue,
  enqueue_claimed,
}
use cloudshield_enterprise.Governance.Ready.{IsAuthorised, queued-IsAuthorised}
use cloudshield_enterprise.Governance.Claims.{attempt, jobs_at_most_one}
use cloudshield_enterprise.Governance.MakerChecker.{IsChecked, AllChecked, decide-AllChecked}
use cloudshield_enterprise.Store.Rows.{Holds}
use cloudshield_enterprise.Governance.Simulate.{
  Documents, GovernedSimulationRequest, Loaded, simulate,
}
use cloudshield_enterprise.Governance.Forgets.{IsFresh, simulate-IsFresh}
use cloudshield_enterprise.Scenario.{
  backend, approved_plan, approved_request, holding, holding-Every, operator,
}

abbrev no_failure : ApprovalRequest → Option String
no_failure a = none

abbrev capture : Plan String → ApprovalRequest → Option String
capture p a = none

abbrev same : Database backend → Database backend
same d = d

abbrev approved_db : Database backend
approved_db = holding approved_plan approved_request

abbrev target : Plan String → Target
target p = record {
  aws_account = some (record {
    id = "account-1";
    organization_id = "org-1";
    account_id = "123456789012";
    archived_at = none;
    connection_status = ConnectionStatus.validation_succeeded;
    environment = "staging";
    change_execution_enabled = true;
    organization_change_execution_enabled = true;
    execution_role_arn_placeholder = some "arn:role";
  });
  resource = some "{}";
}

abbrev execute_body : GovernedExecuteRequest
execute_body = record { confirmation_token = "CONFIRM"; idempotency_key = "key-1" }

queues_one :
    length
      (queue_execution backend no_failure same same Mode.simulation target approved_db operator
        "plan-1" execute_body "c" true 1000).0.jobs
    ≡ 1
unfolding queue_execution find_plan validate_execution_ready bound_approval_failure account_failure
    resource_failure is_sample_resource claim_and_enqueue enqueue_claimed audited
    mutation_outcome_code lifecycle_state_code approval_status_code request_status_code mode_code
    assert_governance_target_operationally_active connection_code
    get_aws_account_operational_block_reason
queues_one = refl

queued_adds :
    (queue_execution backend no_failure same same Mode.simulation target approved_db operator
      "plan-1" execute_body "c" true 1000).0.jobs
    ≢ []
queued_adds e = omega (arith, sym queues_one ∙ ap length e)

queued-IsAuthorised_example :
    (plan : Plan String) × (find_plan backend approved_db operator "plan-1" ≡ some plan)
    × IsAuthorised backend no_failure Mode.simulation plan
        (target plan)
        (bound_request backend approved_db plan)
        1000
queued-IsAuthorised_example =
    queued-IsAuthorised backend no_failure same same Mode.simulation target approved_db operator
      "plan-1" execute_body "c" true 1000 queued_adds

jobs_at_most_one_example :
    length
      (attempt backend no_failure same approved_plan
        (attempt backend no_failure same approved_plan approved_db operator execute_body "c" 1000)
        operator
        execute_body
        "d"
        1001).jobs
    ≤ 1
jobs_at_most_one_example =
    jobs_at_most_one backend no_failure same approved_plan approved_db operator operator
      execute_body execute_body "c" "d" 1000 1001

abbrev pending_plan : Plan String
pending_plan = record approved_plan {
  lifecycle_state = LifecycleState.pending_approval;
  approval_status = ApprovalStatus.pending_approval;
  approved_by_id = none;
  approved_by_request_id = none;
}

abbrev pending_db : Database backend
pending_db =
    holding pending_plan
      (record approved_request { status = RequestStatus.pending; approved_by_id = none })

abbrev decision_body : GovernedApprovalRequest
decision_body = record {
  reason = "reviewed";
  expected_impact = "tags";
  confirmation_token = "CONFIRM";
}

abbrev checker : ActorContext
checker = record { organization_id = "org-1"; user_id = "checker" }

pending-AllChecked : AllChecked backend pending_db
pending-AllChecked = holding-Every IsChecked pending_plan (λ e. none-ne-some _ e) approved_request

decide-AllChecked_example :
    AllChecked backend
      (decide backend capture same pending_db checker "plan-1" decision_body approve 1000).0
decide-AllChecked_example =
    decide-AllChecked backend capture same pending_db checker "plan-1" decision_body approve 1000
      pending-AllChecked pending-AllChecked
      λ id p q e f. ap (λ (r : Plan String). r.created_by_id) (some-injective q p (sym f ∙ e))

abbrev documents : Plan String → GovernedSimulationRequest → Documents String
documents p body = record {
  requested_action = "";
  normalized_payload = "";
  before_state = "";
  expected_after_state = "";
  rollback_payload = "";
  generated_key = "key-2";
}

abbrev simulation_body : GovernedSimulationRequest
simulation_body = record {
  operation = Operation.ec2_apply_governance_tags;
  payload_operation = Operation.ec2_apply_governance_tags;
  payload_tags = [];
  expected_impact = "tags";
  idempotency_key = none;
}

abbrev loaded : Plan String → Loaded
loaded p = record {
  aws_account = none;
  aws_account_id = "account-1";
  finding_is_resolved = false;
  resource = none;
}

abbrev unknown_plan : Plan String
unknown_plan = record approved_plan { mutation_outcome = some MutationOutcome.outcome_unknown }

unknown_found :
    find_plan backend (holding unknown_plan approved_request) operator "plan-1" ≡ some unknown_plan
unfolding find_plan
unknown_found = refl

simulate-IsFresh_example : Holds IsFresh (
    backend.plans.find
      (simulate backend documents same Mode.simulation loaded
        (holding unknown_plan approved_request)
        operator
        "plan-1"
        simulation_body
        1000).0.plans
      "plan-1")
simulate-IsFresh_example =
    simulate-IsFresh backend documents same Mode.simulation loaded
      (holding unknown_plan approved_request) operator "plan-1" simulation_body 1000 unknown_plan
      unknown_found
