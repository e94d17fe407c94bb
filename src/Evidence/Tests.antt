-- ===== src/Evidence/Tests.antt =====
-- The roundtrip and the comparison of safety states at concrete states.
use cloudshield_enterprise.Prelude.{
  String, ◌≡◌, ◌↔◌, refl, true, false, Option, none, some, [], ◌∷◌,
}
use cloudshield_enterprise.Worker.Text.{utf16_length}
use cloudshield_enterprise.Evidence.Patterns.{is_instance_id, is_account_id, is_region}
use cloudshield_enterprise.Evidence.{
  ControlTag, SafetyState, SafetyStateInput, build_safety_state, parse_safety_evidence, state_json,
  schema_version, policy_version, changed_fields, control_tag,
}
use cloudshield_enterprise.Evidence.Laws.{parse-build, changed-none_iff}

abbrev input : Option String → SafetyStateInput
input protected_ = record {
  resource_id = "i-0123456789abcdef0";
  account_id = "123456789012";
  region = "us-east-1";
  managed = some "true";
  protected_ = protected_;
  environment = none;
}

abbrev tag : Option String → ControlTag
tag none = record { present = false; value = none }
tag (some v) = record { present = true; value = some v }

abbrev state : Option String → SafetyState
state protected_ = record {
  schema_version = schema_version;
  policy_version = policy_version;
  resource_id = "i-0123456789abcdef0";
  account_id = "123456789012";
  region = "us-east-1";
  control_tags = record {
    cloud_shield_managed = tag (some "true");
    cloud_shield_protected = tag protected_;
    environment = tag none;
  };
}

builds_open : build_safety_state schema_version policy_version (input none) ≡ some (state none)
unfolding build_safety_state control_tag is_instance_id is_account_id is_region utf16_length
builds_open = refl

builds_protected :
    build_safety_state schema_version policy_version (input (some "true"))
    ≡ some (state (some "true"))
unfolding build_safety_state control_tag is_instance_id is_account_id is_region utf16_length
builds_protected = refl

one_letter_region : is_region "us-east-12" ≡ false
unfolding is_region
one_letter_region = refl

protection_noticed : changed_fields (state none) (state (some "true")) ≡ "CloudShieldProtected" ∷ []
unfolding changed_fields
protection_noticed = refl

parse-build_example :
    parse_safety_evidence (state_json (state (some "true"))) schema_version policy_version
    ≡ some (state (some "true"))
parse-build_example =
    parse-build schema_version policy_version (input (some "true")) (state (some "true"))
      builds_protected

changed-none_iff_example :
    (changed_fields (state none) (state (some "true")) ≡ []) ↔ (state none ≡ state (some "true"))
changed-none_iff_example =
    changed-none_iff schema_version policy_version (input none) (input (some "true")) (state none)
      (state (some "true")) builds_open builds_protected
