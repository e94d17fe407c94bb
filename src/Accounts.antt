-- ===== src/Accounts.antt =====
-- Which AWS accounts, resources and findings operational workflows may use
-- (apps/backend/src/modules/aws-account-lifecycle/aws-account-lifecycle.policy.ts,
-- apps/backend/src/modules/inventory-lifecycle/inventory-lifecycle.policy.ts and the guard of
-- apps/backend/src/modules/governance-action-guard/governance-action-guard.policy.ts).
-- A Prisma `where` object is the test that it makes of a row with its relations.
pub mod Laws
mod Tests
use cloudshield_enterprise.Prelude.{
  String, ℕ, Bool, true, false, not, ◌&&◌, ◌||◌, Option, none, some, if◌then◌else◌, ◌==◌, string_eq,
  is_some, ◌≡◌, arith, Comparable, code_eq,
}

-- `AwsConnectionStatus`
pub data ConnectionStatus : Type 0 where
  not_configured ready_for_validation validation_not_implemented validation_succeeded
        validation_failed connected_demo_only auth_failed permission_denied disabled :
      ConnectionStatus

unfoldable pub connection_code : ConnectionStatus → ℕ
connection_code not_configured = 0
connection_code ready_for_validation = 1
connection_code validation_not_implemented = 2
connection_code validation_succeeded = 3
connection_code validation_failed = 4
connection_code connected_demo_only = 5
connection_code auth_failed = 6
connection_code permission_denied = 7
connection_code disabled = 8

pub connection_code_injective :
    (a b : ConnectionStatus) → connection_code a ≡ connection_code b → a ≡ b
unfolding connection_code
connection_code_injective a b e = ground arith

instance abbrev pub connection_eq : Comparable ConnectionStatus
connection_eq = code_eq connection_code connection_code_injective

pub record AwsAccount : Type 0 where
  pub id : String
  pub organization_id : String
  pub account_id : String
  pub archived_at : Option ℕ
  pub connection_status : ConnectionStatus
  pub environment : String
  pub change_execution_enabled : Bool
  pub organization_change_execution_enabled : Bool
  pub execution_role_arn_placeholder : Option String

pub record CloudResource : Type 0 where
  pub id : String
  pub organization_id : String
  pub archived_at : Option ℕ
  pub stale_at : Option ℕ
  pub aws_account : AwsAccount

pub record ResourceRelationship : Type 0 where
  pub organization_id : String
  pub stale_at : Option ℕ
  pub source_resource : CloudResource
  pub target_resource : CloudResource

-- A finding, cost finding or piece of evidence that may name a resource.
pub record SecurityFinding : Type 0 where
  pub organization_id : String
  pub archived_at : Option ℕ
  pub aws_account : AwsAccount
  pub resource : Option CloudResource

unfoldable pub get_aws_account_operational_block_reason : AwsAccount → Option String
get_aws_account_operational_block_reason account =
    if is_some account.archived_at
    then some "AWS account registry record is archived."
    else if account.connection_status == disabled
    then some "AWS account registry record is disabled."
    else none

unfoldable pub is_aws_account_operationally_active : AwsAccount → Bool
is_aws_account_operationally_active account =
    not (is_some (get_aws_account_operational_block_reason account))

-- What `assertGovernanceTargetOperationallyActive` throws: the HTTP status and the message.
pub record GuardError : Type 0 where
  pub status_code : ℕ
  pub message : String

unfoldable pub assert_governance_target_operationally_active : Option AwsAccount → Option GuardError
assert_governance_target_operationally_active none = some (record {
  status_code = 400;
  message = "AWS account is required for operational governance actions.";
})
assert_governance_target_operationally_active (some account) =
    elim (get_aws_account_operational_block_reason account) [
      | some reason ↦ some (record { status_code = 409; message = reason })
      | none ↦ none
    ]

unfoldable pub active_aws_account_relation_where : AwsAccount → Bool
active_aws_account_relation_where account =
    not (is_some account.archived_at) && not (account.connection_status == disabled)

unfoldable pub active_aws_account_where : String → (AwsAccount → Bool) → AwsAccount → Bool
active_aws_account_where organization filters account =
    account.organization_id == organization
    && (not (is_some account.archived_at)
        && (not (account.connection_status == disabled) && filters account))

unfoldable pub active_cloud_resource_where : String → (CloudResource → Bool) → CloudResource → Bool
active_cloud_resource_where organization filters r =
    r.organization_id == organization
    && (not (is_some r.archived_at)
        && (active_aws_account_relation_where r.aws_account && filters r))

unfoldable pub active_security_finding_where :
    String → (SecurityFinding → Bool) → SecurityFinding → Bool
active_security_finding_where organization filters f =
    f.organization_id == organization
    && (not (is_some f.archived_at)
        && (active_aws_account_relation_where f.aws_account && filters f))

unfoldable pub active_resource_where : String → (CloudResource → Bool) → CloudResource → Bool
active_resource_where organization filters r =
    r.organization_id == organization
    && (not (is_some r.archived_at)
        && (not (is_some r.stale_at)
            && (active_aws_account_relation_where r.aws_account && filters r)))

abbrev pub is_live_resource : CloudResource → Bool
is_live_resource r = not (is_some r.archived_at) && not (is_some r.stale_at)

unfoldable pub active_relationship_where :
    String → (ResourceRelationship → Bool) → ResourceRelationship → Bool
active_relationship_where organization filters l =
    l.organization_id == organization
    && (not (is_some l.stale_at)
        && ((is_live_resource l.source_resource
              && active_aws_account_relation_where l.source_resource.aws_account)
            && ((is_live_resource l.target_resource
                  && active_aws_account_relation_where l.target_resource.aws_account)
                && filters l)))

abbrev without_or_live : Option CloudResource → Bool
without_or_live none = true
without_or_live (some r) = is_live_resource r

unfoldable pub active_finding_for_active_resource_where :
    String → (SecurityFinding → Bool) → SecurityFinding → Bool
active_finding_for_active_resource_where organization filters f =
    f.organization_id == organization
    && (not (is_some f.archived_at)
        && (active_aws_account_relation_where f.aws_account
            && (without_or_live f.resource && filters f)))
