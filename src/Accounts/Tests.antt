-- ===== src/Accounts/Tests.antt =====
-- Witnesses.
use cloudshield_enterprise.Prelude.{◌⊎◌, ◌≡◌, refl, ◌↔◌, true, none, some}
use cloudshield_enterprise.Accounts.{
  SecurityFinding, CloudResource, is_live_resource, active_finding_for_active_resource_where,
  active_security_finding_where, AwsAccount, CloudResource, ResourceRelationship,
  connected_demo_only, disabled, connection_code, assert_governance_target_operationally_active,
  active_aws_account_relation_where, active_relationship_where,
}
use cloudshield_enterprise.Accounts.Laws.{finding_where_iff, guard_iff}

abbrev account : AwsAccount
account = record {
  id = "a1";
  organization_id = "org";
  account_id = "111122223333";
  archived_at = none;
  connection_status = connected_demo_only;
  environment = "sandbox";
  change_execution_enabled = true;
  organization_change_execution_enabled = true;
  execution_role_arn_placeholder = none;
}

abbrev off : AwsAccount
off = record account { connection_status = disabled }

abbrev instance_ : CloudResource
instance_ = record {
  id = "r1";
  organization_id = "org";
  archived_at = none;
  stale_at = none;
  aws_account = account;
}

abbrev link : ResourceRelationship
link = record {
  organization_id = "org";
  stale_at = none;
  source_resource = instance_;
  target_resource = instance_;
}

guard_iff_example :
    (assert_governance_target_operationally_active (some off) ≡ none)
    ↔ ((a : AwsAccount) × (some off ≡ some a) × (active_aws_account_relation_where a ≡ true))
guard_iff_example = guard_iff (some off)

link_is_active : active_relationship_where "org" (λ _. true) link ≡ true
unfolding active_relationship_where active_aws_account_relation_where connection_code
link_is_active = refl

abbrev finding : SecurityFinding
finding = record {
  organization_id = "org";
  archived_at = none;
  aws_account = account;
  resource = some (record instance_ { stale_at = some 5 });
}

finding_where_iff_example :
    (active_finding_for_active_resource_where "org" (λ _. true) finding ≡ true) ↔ (
      (active_security_finding_where "org" (λ _. true) finding ≡ true)
      × ((finding.resource ≡ none)
          ⊎ ((r : CloudResource) × (finding.resource ≡ some r) × (is_live_resource r ≡ true))))
finding_where_iff_example = finding_where_iff "org" (λ _. true) finding
