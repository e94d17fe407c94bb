-- ===== src/Governance/Simulate.antt =====
-- Simulating a change
-- (apps/backend/src/modules/governance/aws-change-execution.service.ts, `simulateGovernedAwsChange`, and
-- apps/backend/src/modules/governance/aws-change-execution.policy.ts). `documents` stands for the JSON
-- documents that are stored with a plan.
use Prim.Native.String.{◌++◌}
use cloudshield_enterprise.Prelude.{
  String, ℕ, ◌+◌, ◌*◌, Bool, true, false, not, ◌||◌, Option, none, some, List, [], ◌∷◌,
  if◌then◌else◌, ltb, ◌==◌, string_eq, includes, is_some,
}
use cloudshield_enterprise.Accounts.{AwsAccount, assert_governance_target_operationally_active}
use cloudshield_enterprise.Governance.Types.{
  Mode, Operation, LifecycleState, ApprovalStatus, ExecutionStatus, MutationOutcome,
  ReconciliationStatus, mode_eq, operation_eq,
}
use cloudshield_enterprise.Governance.Plan.{ActorContext}
use cloudshield_enterprise.Governance.Backend.{Backend, Database, StoredPlan, find_plan, audited}
use cloudshield_enterprise.Governance.Approval.{Reply, missing, replied}
use cloudshield_enterprise.Governance.Queue.{
  ◌or_else◌, refuse_if, is_sample_resource, guard_message,
}
use cloudshield_enterprise.Worker.Text.{utf16_length, is_aws_reserved}
use cloudshield_enterprise.Worker.Job.{AwsTag}

abbrev approval_ttl_ms : ℕ
approval_ttl_ms = 1000 * 60 * 60 * 24

-- `ALLOWLISTED_GOVERNED_AWS_OPERATIONS`
abbrev pub is_enabled : Operation → Bool
is_enabled Operation.ec2_apply_governance_tags = true
is_enabled Operation.ec2_remove_public_ssh_ingress = false

abbrev pub governance_tag_keys : List String
governance_tag_keys =
    "CloudShieldManaged" ∷ "CloudShieldOwner" ∷ "CloudShieldEnvironment" ∷ "CloudShieldReviewDate"
    ∷ []

abbrev when_ : Bool → String → List String → List String
when_ c s rest = if c then s ∷ rest else rest

-- `validateGovernanceTags` of a tagging payload
unfoldable pub validate_governance_tags : List AwsTag → List String
unfolding utf16_length is_aws_reserved
validate_governance_tags [] = []
validate_governance_tags (t ∷ tags) =
    when_ (not (includes governance_tag_keys t.key)) ("Tag key " ++ t.key ++ " is not allowlisted.")
      (when_ (is_aws_reserved t.key) "AWS reserved tag prefixes are not allowed." (
        when_ (ltb 128 (utf16_length t.key) || ltb 256 (utf16_length t.value))
          ("Tag " ++ t.key ++ " exceeds AWS tag length limits.") (validate_governance_tags tags)))

-- `violations.join(" ")` of a list that is not empty
abbrev joined : List String → Option String
joined [] = none
joined (s ∷ rest) = elim (joined rest) [ none ↦ some s | some t ↦ some (s ++ " " ++ t) ]

pub record GovernedSimulationRequest : Type 0 where
  pub operation : Operation
  pub payload_operation : Operation
  pub payload_tags : List AwsTag
  pub expected_impact : String
  pub idempotency_key : Option String

pub record LoadedResource : Type 0 where
  pub aws_account_id : String
  pub blob : String

-- The relations of a plan that its preparation reads.
pub record Loaded : Type 0 where
  pub aws_account : Option AwsAccount
  pub aws_account_id : String
  pub finding_is_resolved : Bool
  pub resource : Option LoadedResource

abbrev resource_refusal : Loaded → Option LoadedResource → Option String
resource_refusal loaded none = some "Execution requires a verified CloudShield resource."
resource_refusal loaded (some r) =
    refuse_if (not (r.aws_account_id == loaded.aws_account_id))
      "Resource/account ownership mismatch."
    or_else refuse_if (is_sample_resource r.blob) "SAMPLE DATA - EXECUTION NOT ALLOWED."

abbrev tag_refusal : Operation → List AwsTag → Option String
tag_refusal Operation.ec2_apply_governance_tags tags = joined (validate_governance_tags tags)
tag_refusal Operation.ec2_remove_public_ssh_ingress tags = none

unfoldable pub validate_preparation : Loaded → GovernedSimulationRequest → Option String
unfolding is_sample_resource
validate_preparation loaded body =
    guard_message (assert_governance_target_operationally_active loaded.aws_account)
    or_else refuse_if (not (is_enabled body.operation))
        "Requested operation is not enabled in the governed execution allowlist."
    or_else refuse_if (not (body.operation == body.payload_operation))
        "Operation and payload operation do not match."
    or_else refuse_if loaded.finding_is_resolved "Finding is already resolved."
    or_else resource_refusal loaded loaded.resource
    or_else tag_refusal body.payload_operation body.payload_tags
    or_else refuse_if (body.operation == Operation.ec2_remove_public_ssh_ingress)
        "Public SSH rule removal remains disabled until staging safety validation is complete."

abbrev pub simulation_refusal : Mode → Loaded → GovernedSimulationRequest → Option String
simulation_refusal mode loaded body =
    refuse_if (mode == Mode.disabled) "AWS_CHANGE_EXECUTION_MODE is disabled."
    or_else refuse_if (mode == Mode.production)
        "Production execution is configured but not enabled in this pilot milestone."
    or_else validate_preparation loaded body

pub record Documents (Json : Type 0) : Type 0 where
  pub requested_action : Json
  pub normalized_payload : Json
  pub before_state : Json
  pub expected_after_state : Json
  pub rollback_payload : Json
  pub generated_key : String

abbrev confirmation_token : Operation → String
confirmation_token Operation.ec2_apply_governance_tags = "APPLY_GOVERNANCE_TAGS"
confirmation_token Operation.ec2_remove_public_ssh_ingress = "REMOVE_PUBLIC_SSH_RULE"

abbrev mode_name : Mode → String
mode_name Mode.disabled = "disabled"
mode_name Mode.simulation = "simulation"
mode_name Mode.staging = "staging"
mode_name Mode.production = "production"

abbrev key_or : Option String → String → String
key_or none generated = generated
key_or (some key) generated = key

module _ (b : Backend)
    (documents : StoredPlan b → GovernedSimulationRequest → Documents b.Json) where
  -- The data of the update.
  abbrev pub simulate_plan :
      Mode
      → GovernedSimulationRequest
      → Documents b.Json
      → Option String
      → ℕ
      → StoredPlan b
      → StoredPlan b
  simulate_plan mode body docs refusal now r = record r {
    execution_mode = mode_name mode;
    lifecycle_state = if is_some refusal then LifecycleState.blocked else LifecycleState.simulated;
    allowlisted_operation = some body.operation;
    confirmation_token_required = some (confirmation_token body.operation);
    requested_action = docs.requested_action;
    normalized_payload = docs.normalized_payload;
    before_state = docs.before_state;
    expected_after_state = docs.expected_after_state;
    rollback_payload = docs.rollback_payload;
    blocked_reason = refusal;
    idempotency_key = some (key_or body.idempotency_key docs.generated_key);
    simulated_at = some now;
    approval_expires_at = some (now + approval_ttl_ms);
    approval_status = ApprovalStatus.draft;
    execution_status = ExecutionStatus.execution_blocked;
    mutation_outcome = some MutationOutcome.not_attempted;
    reconciliation_status = some ReconciliationStatus.not_required;
    reconciliation_attempt_count = 0;
    mutation_attempted_at = none;
    mutation_confirmed_at = none;
    mutation_provider_request_id = none;
    last_reconciliation_at = none;
    next_reconciliation_at = none;
    manual_review_reason = none;
    execution_lease_started_at = none;
    updated_at = now;
  }

  abbrev simulated_action : Option String → String
  simulated_action none = "governance.aws_change.simulated"
  simulated_action (some _) = "governance.aws_change.simulation_blocked"

  abbrev simulated_message : Option String → String
  simulated_message none = "Simulation evidence generated. No AWS mutation was executed."
  simulated_message (some _) = "Simulation blocked by governed execution safety gates."

  unfoldable pub simulate :
      (Database b → Database b)
      → Mode
      → (StoredPlan b → Loaded)
      → Database b
      → ActorContext
      → String
      → GovernedSimulationRequest
      → ℕ
      → Database b × Reply
  unfolding audited
  simulate others mode loaded db actor plan_id body now = elim (find_plan b db actor plan_id) [
    | none ↦ (db, missing)
    | some plan ↦
        let refusal = simulation_refusal mode (loaded plan) body in
        let now_db = others db in
        (
          audited b
              (record now_db {
                plans =
                    b.plans.update now_db.plans plan.id (λ _. true)
                      (simulate_plan mode body (documents plan body) refusal now);
              })
              actor plan.id (simulated_action refusal),
          replied (simulated_message refusal),
        )
  ]
