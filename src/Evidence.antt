-- ===== src/Evidence.antt =====
-- The safety state of an instance's control tags, as it is stored with a request for approval and read
-- back (packages/utils/src/index.ts). `none` is an error that is thrown.
pub mod Patterns
pub mod Laws
mod Tests
use cloudshield_enterprise.Prelude.{
  String, ℕ, suc, Bool, true, false, not, ◌&&◌, ◌||◌, Option, none, some, List, [], ◌∷◌, ◌++◌, all,
  length, if◌then◌else◌, ◌==◌, string_eq, nat_eq, option_beq, is_some, leb,
}
use cloudshield_enterprise.Worker.Text.{utf16_length}
use cloudshield_enterprise.Evidence.Patterns.{is_instance_id, is_account_id, is_region}

-- A JSON value; `other` is an array or a number that is no natural number. The keys of an object are
-- distinct.
mutual
  pub data Json : Type 0 where
    null other : Json
    boolean : Bool → Json
    number : ℕ → Json
    text : String → Json
    object : Fields → Json

  pub data Fields : Type 0 where
    end : Fields
    field : String → Json → Fields → Fields

unfoldable pub get : String → Fields → Option Json
get key end = none
get key (field k v fs) = if k == key then some v else get key fs

unfoldable pub field_count : Fields → ℕ
field_count end = 0
field_count (field k v fs) = suc (field_count fs)

infixl 5 ◌>>=◌ ◌>>◌
abbrev pub ◌>>=◌ : {A B : Type 0} → Option A → (A → Option B) → Option B
none >>= f = none
some a >>= f = f a

abbrev pub ◌>>◌ : {B : Type 0} → Option (Unit {0}) → Option B → Option B
none >> k = none
some _ >> k = k

abbrev pub guard : Bool → Option (Unit {0})
guard true = some tt
guard false = none

-- `assertExactJsonObject`
unfoldable pub assert_exact_json_object : List String → Json → Option Fields
assert_exact_json_object keys (object fs) =
    if field_count fs == length keys && all (λ key. is_some (get key fs)) keys
    then some fs
    else none
assert_exact_json_object keys _ = none

-- `{ present, value }`
pub record ControlTag : Type 0 where
  pub present : Bool
  pub value : Option String

pub record ControlTags : Type 0 where
  pub cloud_shield_managed : ControlTag
  pub cloud_shield_protected : ControlTag
  pub environment : ControlTag

-- What `buildCanonicalEc2TagSafetyState` returns.
pub record SafetyState : Type 0 where
  pub schema_version : ℕ
  pub policy_version : String
  pub resource_id : String
  pub account_id : String
  pub region : String
  pub control_tags : ControlTags

-- `Ec2TagSafetyStateInput`, with the three tags that are read; a tag that is not there is `none`.
pub record SafetyStateInput : Type 0 where
  pub resource_id : String
  pub account_id : String
  pub region : String
  pub managed : Option String
  pub protected_ : Option String
  pub environment : Option String

abbrev pub schema_version : ℕ
schema_version = 1

abbrev pub policy_version : String
policy_version = "ec2-governance-tag-safety-v1"

-- `controlTag`
unfoldable pub control_tag : Option String → Option ControlTag
control_tag none = some (record { present = false; value = none })
control_tag (some v) =
    if leb (utf16_length v) 256 then some (record { present = true; value = some v }) else none

-- `buildCanonicalEc2TagSafetyState`
unfoldable pub build_safety_state : ℕ → String → SafetyStateInput → Option SafetyState
build_safety_state schema policy input = do
  guard (schema == schema_version)
  guard (policy == policy_version)
  guard (is_instance_id input.resource_id)
  guard (is_account_id input.account_id)
  guard (is_region input.region)
  managed ← control_tag input.managed
  protected_ ← control_tag input.protected_
  environment ← control_tag input.environment
  some (record {
    schema_version = schema;
    policy_version = policy;
    resource_id = input.resource_id;
    account_id = input.account_id;
    region = input.region;
    control_tags = record {
      cloud_shield_managed = managed;
      cloud_shield_protected = protected_;
      environment = environment;
    };
  })

-- The JSON that a state is stored as.
abbrev pub tag_value : Option String → Json
tag_value none = null
tag_value (some v) = text v

unfoldable pub tag_json : ControlTag → Json
tag_json t = object (field "present" (boolean t.present) (field "value" (tag_value t.value) end))

unfoldable pub state_json : SafetyState → Json
state_json s = object (
    field "schemaVersion" (number s.schema_version) (
      field "policyVersion" (text s.policy_version) (
        field "resourceId" (text s.resource_id) (
          field "accountId" (text s.account_id) (
            field "region" (text s.region) (
              field "controlTags"
                (object (
                  field "CloudShieldManaged" (tag_json s.control_tags.cloud_shield_managed) (
                    field "CloudShieldProtected" (tag_json s.control_tags.cloud_shield_protected)
                      (field "Environment" (tag_json s.control_tags.environment) end))))
                end))))))

-- The tag that an entry of `controlTags` stands for; `some none` is one that is not there.
unfoldable pub tag_of : Option Json → Option Json → Option (Option String)
tag_of (some (boolean true)) (some (text v)) = some (some v)
tag_of (some (boolean false)) (some null) = some none
tag_of _ _ = none

unfoldable pub parse_tag : Option Json → Option (Option String)
parse_tag none = none
parse_tag (some v) = do
  tag ← assert_exact_json_object ("present" ∷ "value" ∷ []) v
  tag_of (get "present" tag) (get "value" tag)

-- `value.resourceId as string`. A value that is no string is refused here; in the source the test of a
-- regular expression first turns it into one, so that a number of twelve digits passes as an account.
abbrev pub as_text : Option Json → Option String
as_text (some (text s)) = some s
as_text _ = none

abbrev pub is_number : ℕ → Option Json → Bool
is_number n (some (number m)) = m == n
is_number n _ = false

-- `parseCanonicalEc2TagSafetyEvidence`
unfoldable pub parse_safety_evidence : Json → ℕ → String → Option SafetyState
parse_safety_evidence evidence schema policy = do
  value ←
      assert_exact_json_object
        ("schemaVersion" ∷ "policyVersion" ∷ "resourceId" ∷ "accountId" ∷ "region" ∷ "controlTags"
          ∷ [])
        evidence
  guard (
      is_number schema (get "schemaVersion" value)
      && option_beq (as_text (get "policyVersion" value)) (some policy))
  control ← get "controlTags" value
  tags ←
      assert_exact_json_object ("CloudShieldManaged" ∷ "CloudShieldProtected" ∷ "Environment" ∷ [])
        control
  managed ← parse_tag (get "CloudShieldManaged" tags)
  protected_ ← parse_tag (get "CloudShieldProtected" tags)
  environment ← parse_tag (get "Environment" tags)
  resource_id ← as_text (get "resourceId" value)
  account_id ← as_text (get "accountId" value)
  region ← as_text (get "region" value)
  build_safety_state schema policy (record {
    resource_id = resource_id;
    account_id = account_id;
    region = region;
    managed = managed;
    protected_ = protected_;
    environment = environment;
  })

abbrev pub same_flag : Bool → Bool → Bool
same_flag true b = b
same_flag false b = not b

abbrev pub same_tag : ControlTag → ControlTag → Bool
same_tag a b = same_flag a.present b.present && option_beq a.value b.value

abbrev changed_if : Bool → String → List String
changed_if same name = if same then [] else name ∷ []

-- `changedEc2TagSafetyFields`
unfoldable pub changed_fields : SafetyState → SafetyState → List String
changed_fields stored current =
    changed_if (stored.resource_id == current.resource_id) "resourceId"
    ++ changed_if (stored.account_id == current.account_id) "accountId"
    ++ changed_if (stored.region == current.region) "region"
    ++ changed_if
        (same_tag stored.control_tags.cloud_shield_managed
          current.control_tags.cloud_shield_managed)
        "CloudShieldManaged"
    ++ changed_if
        (same_tag stored.control_tags.cloud_shield_protected
          current.control_tags.cloud_shield_protected)
        "CloudShieldProtected"
    ++ changed_if (same_tag stored.control_tags.environment current.control_tags.environment)
        "Environment"
