-- ===== src/Evidence/Laws.antt =====
-- What is stored is what is read back, and a change of the state is noticed.
use mathlib.Core.Path.{subst}
use text.Mathlib.TextPositions.{eq_refl}
use cloudshield_enterprise.Prelude.{
  String, ℕ, ◌≡◌, ◌↔◌, refl, ◌∙◌, Bool, true, ◌&&◌, Option, none, some, [], ◌==◌, string_eq, nat_eq,
  option_beq_iff, arith, eq_iff, nat_beq_iff,
}
use cloudshield_enterprise.Evidence.Patterns.{is_instance_id, is_account_id, is_region}
use cloudshield_enterprise.Evidence.{
  get, field_count, assert_exact_json_object, ControlTag, SafetyState, SafetyStateInput,
  schema_version, policy_version, control_tag, build_safety_state, tag_json, state_json, tag_of,
  parse_tag, parse_safety_evidence, changed_fields, same_tag,
}

-- A tag is read back as it was.
parse-tag_json :
    (v : Option String) (t : ControlTag)
    → control_tag v ≡ some t
    → parse_tag (some (tag_json t)) ≡ some v
unfolding control_tag tag_json parse_tag assert_exact_json_object field_count get tag_of
parse-tag_json none t e = ground arith
parse-tag_json (some v) t e = ground arith

-- The tests of the builder.
abbrev is_well_formed : ℕ → String → SafetyStateInput → Bool
is_well_formed schema policy input =
    schema == schema_version
    && (policy == policy_version
        && (is_instance_id input.resource_id
            && (is_account_id input.account_id && is_region input.region)))

built :
    (schema : ℕ) (policy : String) (input : SafetyStateInput) (s : SafetyState)
    → build_safety_state schema policy input ≡ some s
    → (s.schema_version ≡ schema)
      × (s.policy_version ≡ policy)
      × (s.resource_id ≡ input.resource_id)
      × (s.account_id ≡ input.account_id)
      × (s.region ≡ input.region)
      × (control_tag input.managed ≡ some s.control_tags.cloud_shield_managed)
      × (control_tag input.protected_ ≡ some s.control_tags.cloud_shield_protected)
      × (control_tag input.environment ≡ some s.control_tags.environment)
unfolding build_safety_state
built schema policy input s e = (
  ground arith,
  ground arith,
  ground arith,
  ground arith,
  ground arith,
  ground arith,
  ground arith,
  ground arith,
)

parse-state_json :
    (s : SafetyState) (managed protected_ environment : Option String)
    → parse_tag (some (tag_json s.control_tags.cloud_shield_managed)) ≡ some managed
    → parse_tag (some (tag_json s.control_tags.cloud_shield_protected)) ≡ some protected_
    → parse_tag (some (tag_json s.control_tags.environment)) ≡ some environment
    → parse_safety_evidence (state_json s) s.schema_version s.policy_version
      ≡ build_safety_state s.schema_version s.policy_version (record {
        resource_id = s.resource_id;
        account_id = s.account_id;
        region = s.region;
        managed = managed;
        protected_ = protected_;
        environment = environment;
      })
unfolding parse_safety_evidence state_json assert_exact_json_object field_count get
parse-state_json s managed protected_ environment m p e =
    rw ((nat_beq_iff s.schema_version s.schema_version).1 refl, eq_refl s.policy_version, m, p, e)
      refl

same_input :
    (schema : ℕ) (policy : String) (input : SafetyStateInput) {n : ℕ}
    {q resource account region_ : String}
    → n ≡ schema
    → q ≡ policy
    → resource ≡ input.resource_id
    → account ≡ input.account_id
    → region_ ≡ input.region
    → build_safety_state n q (record {
      resource_id = resource;
      account_id = account;
      region = region_;
      managed = input.managed;
      protected_ = input.protected_;
      environment = input.environment;
    })
      ≡ build_safety_state schema policy input
same_input schema policy input a b c d e i = build_safety_state (a i) (b i) (record {
  resource_id = c i;
  account_id = d i;
  region = e i;
  managed = input.managed;
  protected_ = input.protected_;
  environment = input.environment;
})

-- A safety state that is built and stored as JSON is read back as the state that was built.
pub parse-build :
    (schema : ℕ) (policy : String) (input : SafetyStateInput) (s : SafetyState)
    → build_safety_state schema policy input ≡ some s
    → parse_safety_evidence (state_json s) schema policy ≡ some s
parse-build schema policy input s e =
    let (same_schema, same_policy, resource, account, region_, managed, protected_, environment) =
      built schema policy input s e in
    subst (λ (n : ℕ). parse_safety_evidence (state_json s) n policy ≡ some s) same_schema
      (subst (λ (q : String). parse_safety_evidence (state_json s) s.schema_version q ≡ some s)
        same_policy
        (parse-state_json s input.managed input.protected_ input.environment
            (parse-tag_json input.managed _ managed) (parse-tag_json input.protected_ _ protected_)
            (parse-tag_json input.environment _ environment)
          ∙ same_input schema policy input same_schema same_policy resource account region_
          ∙ e))

same_tag_iff : (a b : ControlTag) → (same_tag a b ≡ true) ↔ (a ≡ b)
same_tag_iff a b = (
  λ h. ground (arith, option_beq_iff a.value b.value),
  λ h. ground (arith, option_beq_iff a.value b.value),
)

-- Between two states that are built under the same versions, no field is reported as changed exactly where
-- the states are equal.
pub changed-none_iff :
    (schema : ℕ) (policy : String) (before now : SafetyStateInput) (stored current : SafetyState)
    → build_safety_state schema policy before ≡ some stored
    → build_safety_state schema policy now ≡ some current
    → (changed_fields stored current ≡ []) ↔ (stored ≡ current)
unfolding changed_fields
changed-none_iff schema policy before now stored current e e' =
    let (a₁, a₂, _, _, _, _, _, _) = built schema policy before stored e in
    let (b₁, b₂, _, _, _, _, _, _) = built schema policy now current e' in
    let ids = eq_iff stored.resource_id current.resource_id in
    let accounts = eq_iff stored.account_id current.account_id in
    let regions = eq_iff stored.region current.region in
    let managed =
      same_tag_iff stored.control_tags.cloud_shield_managed
        current.control_tags.cloud_shield_managed in
    let protected_ =
      same_tag_iff stored.control_tags.cloud_shield_protected
        current.control_tags.cloud_shield_protected in
    let environment =
      same_tag_iff stored.control_tags.environment current.control_tags.environment in
    (λ h. ground arith, λ h. ground arith)
