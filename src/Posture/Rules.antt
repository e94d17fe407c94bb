-- ===== src/Posture/Rules.antt =====
-- The catalog of security rules (packages/database/src/security-posture/security-rule.catalog.ts).
use cloudshield_enterprise.Prelude.{
  String, ℕ, Bool, false, not, ◌&&◌, ◌||◌, Option, none, some, List, [], ◌∷◌, any, includes,
  if◌then◌else◌, ◌==◌, string_eq, nat_eq, option_beq,
}
use cloudshield_enterprise.Posture.{InboundRule, JsonFlag, Metadata, Resource, Severity, Evaluation}

-- `SecurityRuleDefinition`, without its texts.
pub record SecurityRule : Type 0 where
  pub rule_id : String
  pub severity : Severity
  pub evaluate : Resource → Evaluation

abbrev pub is_open_rule : ℕ → InboundRule → Bool
is_open_rule port rule =
    option_beq rule.port (some port)
    && (option_beq rule.cidr (some "0.0.0.0/0") || option_beq rule.cidr (some "::/0"))

unfoldable pub has_open_port : Resource → ℕ → Bool
has_open_port resource port = elim resource.metadata.inbound_rules [
  | none ↦ false
  | some rules ↦ any (is_open_rule port) rules
]

abbrev pub truthy : Option String → Bool
truthy none = false
truthy (some s) = not (s == "")

-- `metadata.publicIpAddress || metadata.PublicIpAddress`
unfoldable pub has_public_ip : Resource → Bool
has_public_ip resource =
    truthy resource.metadata.public_ip_address || truthy resource.metadata.capital_public_ip_address

-- `metadata.encrypted ?? metadata.Encrypted`
unfoldable pub encrypted_flag : Metadata → JsonFlag
encrypted_flag m = elim m.encrypted [
  | JsonFlag.undefined_ ↦ m.capital_encrypted
  | JsonFlag.null_ ↦ m.capital_encrypted
  | JsonFlag.other ↦ JsonFlag.other
  | JsonFlag.boolean b ↦ JsonFlag.boolean b
]

unfoldable pub judge_encryption : JsonFlag → Evaluation
judge_encryption JsonFlag.undefined_ = Evaluation.not_applicable
judge_encryption JsonFlag.null_ = Evaluation.not_applicable
judge_encryption JsonFlag.other = Evaluation.pass
judge_encryption (JsonFlag.boolean encrypted) =
    if encrypted then Evaluation.pass else Evaluation.finding

abbrev pub is_empty_array : Option ℕ → Bool
is_empty_array none = false
is_empty_array (some n) = n == 0

abbrev pub instance_types : List String
instance_types = "ec2-instance" ∷ "EC2_INSTANCE" ∷ []

abbrev pub group_types : List String
group_types = "security-group" ∷ "SECURITY_GROUP" ∷ []

abbrev pub volume_types : List String
volume_types = "ebs-volume" ∷ "EBS_VOLUME" ∷ []

abbrev pub owner_keys : List String
owner_keys = "owner" ∷ "CloudShieldOwner" ∷ "CloudShield:Owner" ∷ []

abbrev pub environment_keys : List String
environment_keys =
    "environment" ∷ "Environment" ∷ "ENV" ∷ "env" ∷ "CloudShieldEnvironment"
    ∷ "CloudShield:Environment" ∷ []

-- The check of the resource's type, which six of the rules make.
abbrev pub for_types : List String → (Resource → Evaluation) → Resource → Evaluation
for_types types evaluate resource =
    if includes types resource.resource_type then evaluate resource else Evaluation.not_applicable

abbrev pub finding_if : Bool → Evaluation
finding_if present = if present then Evaluation.finding else Evaluation.pass

abbrev pub sg_open_ssh_to_world : SecurityRule
sg_open_ssh_to_world = record {
  rule_id = "SG_OPEN_SSH_TO_WORLD";
  severity = Severity.high;
  evaluate = for_types group_types λ r. finding_if (has_open_port r 22);
}

abbrev pub sg_open_rdp_to_world : SecurityRule
sg_open_rdp_to_world = record {
  rule_id = "SG_OPEN_RDP_TO_WORLD";
  severity = Severity.high;
  evaluate = for_types group_types λ r. finding_if (has_open_port r 3389);
}

abbrev pub ec2_public_ip_present : SecurityRule
ec2_public_ip_present = record {
  rule_id = "EC2_PUBLIC_IP_PRESENT";
  severity = Severity.medium;
  evaluate = for_types instance_types λ r. finding_if (has_public_ip r);
}

abbrev pub ebs_unencrypted : SecurityRule
ebs_unencrypted = record {
  rule_id = "EBS_UNENCRYPTED";
  severity = Severity.medium;
  evaluate = for_types volume_types λ r. judge_encryption (encrypted_flag r.metadata);
}

abbrev pub ebs_volume_unattached : SecurityRule
ebs_volume_unattached = record {
  rule_id = "EBS_VOLUME_UNATTACHED";
  severity = Severity.low;
  evaluate =
      for_types volume_types
        λ r. finding_if (r.status == "available" || is_empty_array r.metadata.attachments);
}

-- It asks for a public address only, whatever the security groups of the instance let in.
abbrev pub public_network_with_compute_attachment : SecurityRule
public_network_with_compute_attachment = record {
  rule_id = "PUBLIC_NETWORK_WITH_COMPUTE_ATTACHMENT";
  severity = Severity.high;
  evaluate = for_types instance_types λ r. finding_if (has_public_ip r);
}

module _ (to_lower_case : String → String) where
  -- `hasTag`
  unfoldable pub has_tag : List String → List String → Bool
  has_tag present keys =
      any (λ key. any (λ tag. to_lower_case tag == to_lower_case key) present) keys

  abbrev pub missing_owner_tag : SecurityRule
  missing_owner_tag = record {
    rule_id = "MISSING_OWNER_TAG";
    severity = Severity.low;
    evaluate = λ r. finding_if (not (has_tag r.tag_keys owner_keys || truthy r.owner_team_id));
  }

  abbrev pub missing_environment_tag : SecurityRule
  missing_environment_tag = record {
    rule_id = "MISSING_ENVIRONMENT_TAG";
    severity = Severity.low;
    evaluate = λ r. finding_if (not (has_tag r.tag_keys environment_keys));
  }

  -- `SECURITY_RULE_CATALOG`
  abbrev pub security_rule_catalog : List SecurityRule
  security_rule_catalog =
      sg_open_ssh_to_world ∷ sg_open_rdp_to_world ∷ ec2_public_ip_present ∷ ebs_unencrypted
      ∷ ebs_volume_unattached ∷ missing_owner_tag ∷ missing_environment_tag
      ∷ public_network_with_compute_attachment ∷ []
