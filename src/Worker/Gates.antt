-- ===== src/Worker/Gates.antt =====
-- The checks of a tagging job before anything is sent
-- (apps/worker/src/index.ts, `validateWorkerGate` and the tests of `executeGovernedEc2Tagging`).
use text.Mathlib.Text.{find?, starts_with}
use Prim.Native.String.{◌++◌}
use cloudshield_enterprise.Prelude.{
  String, Bool, true, false, not, ◌&&◌, ◌||◌, Option, none, some, List, [], ◌∷◌, if◌then◌else◌, ltb,
  ◌==◌, string_eq, option_beq, includes, is_some, all,
}
use cloudshield_enterprise.Accounts.{AwsAccount}
use cloudshield_enterprise.Governance.Types.{Mode, Operation, mode_eq, operation_eq}
use cloudshield_enterprise.Governance.Queue.{◌or_else◌, refuse_if, is_blank, is_sample_resource}
use cloudshield_enterprise.Worker.Text.{utf16_length, is_blank_text, is_aws_reserved, last_segment}
use cloudshield_enterprise.Worker.Job.{
  AwsTag, Environment, TargetResource, Relations, Identity, ErrorCategory,
}

abbrev pub is_empty {ℓ} : {A : Type ℓ} → List A → Bool
is_empty [] = true
is_empty (_ ∷ _) = false

-- `tags[key]`
abbrev pub lookup_tag : List AwsTag → String → Option String
lookup_tag [] key = none
lookup_tag (t ∷ tags) key =
    let rest = lookup_tag tags key in
    if is_some rest then rest else if t.key == key then some t.value else none

-- `requestedTags.every((tag) => tags[tag.Key] === tag.Value)`
abbrev pub has_tags : List AwsTag → List AwsTag → Bool
has_tags tags requested = all (λ t. option_beq (lookup_tag tags t.key) (some t.value)) requested

abbrev account_gate : Mode → Environment → Option AwsAccount → Option String
account_gate mode env none = some "Organization is not enabled for governed AWS changes."
account_gate mode env (some a) =
    refuse_if (not a.organization_change_execution_enabled)
      "Organization is not enabled for governed AWS changes."
    or_else refuse_if (not a.change_execution_enabled)
        "AWS account is not enabled for governed AWS changes."
    or_else refuse_if
        (mode == Mode.staging && not (a.environment == "staging" || a.environment == "sandbox"))
        "Staging mode allows only staging or sandbox accounts."
    or_else refuse_if (is_blank a.execution_role_arn_placeholder)
        "Execution role is not configured."
    or_else refuse_if (is_blank env.executor_role_arn || is_blank env.executor_external_id)
        "Executor role environment configuration is missing."

abbrev region_of : Option TargetResource → String
region_of none = "undefined"
region_of (some r) = r.region

abbrev resource_gate : Option TargetResource → Option String
resource_gate none = some "Governed tagging pilot requires a verified EC2 instance."
resource_gate (some r) =
    refuse_if (not (r.resource_type == "EC2_INSTANCE"))
      "Governed tagging pilot requires a verified EC2 instance."
    or_else refuse_if (not (starts_with r.resource_id "i-"))
        "Target resource is not a valid EC2 instance ID."
    or_else refuse_if (not (option_beq r.source (some "AWS_SYNC")))
        "Target resource must come from AWS_SYNC inventory."
    or_else refuse_if (is_sample_resource r.blob) "SAMPLE DATA - EXECUTION NOT ALLOWED."

unfoldable pub validate_worker_gate : Environment → Option Operation → Relations → Option String
unfolding is_sample_resource
validate_worker_gate env operation relations =
    refuse_if (env.mode == Mode.disabled) "AWS_CHANGE_EXECUTION_MODE is disabled."
    or_else refuse_if (env.mode == Mode.production)
        "Production execution is not enabled in this pilot."
    or_else account_gate env.mode env relations.aws_account
    or_else refuse_if (not (includes relations.account_regions (region_of relations.resource)))
        "Target region is not allowlisted on the registered AWS account."
    or_else refuse_if (not (option_beq operation (some Operation.ec2_apply_governance_tags)))
        "Only EC2_APPLY_GOVERNANCE_TAGS is enabled for sandbox validation."
    or_else refuse_if
        (not (option_beq relations.payload.operation (some "EC2_APPLY_GOVERNANCE_TAGS")))
        "Normalized payload is not an EC2 tagging action."
    or_else resource_gate relations.resource

abbrev pub control_keys : List String
control_keys = "CloudShieldManaged" ∷ "CloudShieldProtected" ∷ "Environment" ∷ []

-- The loop over the requested tags; `seen` holds the keys of the tags before.
unfoldable pub tag_failure : List String → List String → List AwsTag → Option String
unfolding is_blank_text utf16_length is_aws_reserved
tag_failure allowed seen [] = none
tag_failure allowed seen (t ∷ tags) =
    refuse_if (is_blank_text t.key) "MALFORMED_TAG_PAYLOAD"
    or_else refuse_if (includes seen t.key) "MALFORMED_TAG_PAYLOAD"
    or_else refuse_if (ltb 128 (utf16_length t.key) || ltb 256 (utf16_length t.value))
        "MALFORMED_TAG_PAYLOAD"
    or_else refuse_if (is_aws_reserved t.key) "TAG_KEY_NOT_ALLOWLISTED"
    or_else refuse_if (includes control_keys t.key) "TAG_KEY_NOT_ALLOWLISTED"
    or_else refuse_if (not (is_empty allowed) && not (includes allowed t.key))
        "TAG_KEY_NOT_ALLOWLISTED"
    or_else tag_failure allowed (t.key ∷ seen) tags

-- The allowlists and the tags, before the executor's role is assumed.
unfoldable pub preflight_failure : Environment → String → String → List AwsTag → Option String
preflight_failure env region account tags =
    refuse_if
      (env.mode == Mode.staging
        && (is_empty env.allowed_account_ids || is_empty env.allowed_regions))
      "ALLOWLIST_NOT_CONFIGURED"
    or_else refuse_if
        (not (is_empty env.allowed_account_ids) && not (includes env.allowed_account_ids account))
        "ACCOUNT_NOT_ALLOWLISTED"
    or_else refuse_if
        (not (is_empty env.allowed_regions) && not (includes env.allowed_regions region))
        "REGION_NOT_ALLOWLISTED"
    or_else refuse_if (env.mode == Mode.staging && is_empty env.allowed_tag_keys)
        "TAG_ALLOWLIST_NOT_CONFIGURED"
    or_else refuse_if (is_empty tags) "MALFORMED_TAG_PAYLOAD"
    or_else tag_failure env.allowed_tag_keys [] tags

abbrev pub is_role : String → Option String → Bool
is_role name none = false
is_role name (some arn) = is_some (find? arn ("assumed-role/" ++ name ++ "/"))

abbrev pub role_name : Option String → String
role_name none = ""
role_name (some arn) = last_segment arn

abbrev is_listed : List String → Option String → Bool
is_listed allowed none = true
is_listed allowed (some account) = account == "" || includes allowed account

-- The executor's identity must be the expected account and role.
unfoldable pub identity_failure : Environment → String → Identity → Option String
unfolding last_segment
identity_failure env account identity =
    refuse_if
      (not (is_empty env.allowed_account_ids)
        && not (is_listed env.allowed_account_ids identity.account))
      "ACCOUNT_NOT_ALLOWLISTED"
    or_else refuse_if (not (option_beq identity.account (some account))) "IDENTITY_MISMATCH"
    or_else refuse_if
        (role_name env.executor_role_arn == ""
          || not (is_role (role_name env.executor_role_arn) identity.arn))
        "ROLE_PRINCIPAL_MISMATCH"

-- The control tags of the instance as it is now.
unfoldable pub safety_failure : String → List AwsTag → Option String
safety_failure expected_environment before =
    refuse_if (option_beq (lookup_tag before "Environment") (some "prod")) "PRODUCTION_TARGET"
    or_else refuse_if (option_beq (lookup_tag before "CloudShieldProtected") (some "true"))
        "PROTECTED_TARGET"
    or_else refuse_if (not (option_beq (lookup_tag before "CloudShieldManaged") (some "true")))
        "RESOURCE_NOT_MANAGED"
    or_else refuse_if
        (not (option_beq (lookup_tag before "Environment") (some "sandbox"))
          && not (
              option_beq (lookup_tag before "Environment") (some "staging")
              && expected_environment == "staging"))
        "ENVIRONMENT_MISMATCH"

-- `classifyAwsError`
unfoldable pub classify_aws_error : ErrorCategory → String
classify_aws_error ErrorCategory.access_denied = "AWS_PERMISSION_DENIED"
classify_aws_error ErrorCategory.resource_not_found = "RESOURCE_NOT_FOUND"
classify_aws_error ErrorCategory.rate_limited = "PROVIDER_NETWORK_FAILURE"
classify_aws_error ErrorCategory.transient_network = "PROVIDER_NETWORK_FAILURE"
classify_aws_error ErrorCategory.authentication_failed = "AWS_AUTHENTICATION_FAILURE"
classify_aws_error ErrorCategory.invalid_provider_configuration = "AWS_EXECUTION_FAILED"
classify_aws_error ErrorCategory.unknown = "AWS_EXECUTION_FAILED"

-- `isDefinitiveMutationProviderFailure`
unfoldable pub is_definitive : ErrorCategory → Bool
is_definitive ErrorCategory.access_denied = true
is_definitive ErrorCategory.resource_not_found = true
is_definitive ErrorCategory.invalid_provider_configuration = true
is_definitive ErrorCategory.authentication_failed = true
is_definitive ErrorCategory.rate_limited = false
is_definitive ErrorCategory.transient_network = false
is_definitive ErrorCategory.unknown = false
