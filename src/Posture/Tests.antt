-- ===== src/Posture/Tests.antt =====
-- A volume, findings of it, runs of the engine, and witnesses.
use cloudshield_enterprise.Prelude.{
  ltb, if◌then◌else◌, ◌-◌, ◌≤◌, ◌≡◌, refl, true, false, Option, none, some, List, [], ◌∷◌, length,
  filter, map,
}
use cloudshield_enterprise.Store.Listed.{update_first}
use cloudshield_enterprise.Risk.Matrix.{WorkflowStatus, RiskStatus}
use cloudshield_enterprise.Posture.{JsonFlag, Resource, Severity}
use cloudshield_enterprise.Posture.Rules.{
  SecurityRule, encrypted_flag, judge_encryption, has_tag, security_rule_catalog,
}
use cloudshield_enterprise.Posture.Engine.{
  EngineFinding, EngineState, see_again, record_failure, evaluate_rule, evaluate_rules,
  evaluate_resources, resolve_all, evaluate_security_rules,
}
use cloudshield_enterprise.Posture.Score.{
  pos, penalty, calculate_security_score, severity_count, severity_counts, account_posture,
  AccountPosture, is_evaluated,
}
use cloudshield_enterprise.Posture.Evolves.{Changes, Evolves, evaluate-Evolves}
use cloudshield_enterprise.Posture.Penalties.{total_penalty, counted_findings, account_posture_lem}

abbrev volume : JsonFlag → Resource
volume encrypted = record {
  id = "volume-1";
  organization_id = "org-1";
  aws_account_id = "account-1";
  resource_type = "ebs-volume";
  status = "in-use";
  tag_keys = "owner" ∷ "env" ∷ [];
  metadata = record {
    inbound_rules = none;
    public_ip_address = none;
    capital_public_ip_address = none;
    encrypted = encrypted;
    capital_encrypted = JsonFlag.undefined_;
    attachments = some 1;
  };
  owner_team_id = none;
  is_synced = true;
  archived_at = none;
}

abbrev unencrypted : WorkflowStatus → EngineFinding
unencrypted status = record {
  organization_id = "org-1";
  aws_account_id = "account-1";
  resource_id = some "volume-1";
  rule_id = "EBS_UNENCRYPTED";
  severity = Severity.medium;
  status = RiskStatus.workflow status;
  workflow_status = RiskStatus.workflow status;
  is_rule_engine = true;
  archived_at = none;
  resolved_at = none;
  reopened_at = none;
  last_seen_at = none;
  last_evaluated_at = none;
}

abbrev holding : List EngineFinding → EngineState
holding fs = record {
  findings = fs;
  snapshots = [];
  recommendations = [];
  active_findings = [];
  findings_created = 0;
  findings_updated = 0;
}

abbrev catalog : List SecurityRule
catalog = security_rule_catalog (λ s. s)

abbrev run : JsonFlag → WorkflowStatus → List RiskStatus
run encrypted status =
    map (λ (f : EngineFinding). f.status)
      (evaluate_security_rules "org-1" 50 catalog (volume encrypted ∷ [])
        (holding (unencrypted status ∷ []))).0.findings

reopens :
    run (JsonFlag.boolean false) WorkflowStatus.resolved
    ≡ RiskStatus.workflow WorkflowStatus.reopened ∷ []
unfolding evaluate_security_rules evaluate_resources evaluate_rules evaluate_rule record_failure
    update_first see_again resolve_all encrypted_flag judge_encryption has_tag
reopens = refl

-- A finding that was dismissed comes back as a second one.
duplicates :
    run (JsonFlag.boolean false) WorkflowStatus.false_positive
    ≡ RiskStatus.workflow WorkflowStatus.false_positive
      ∷ RiskStatus.workflow WorkflowStatus.opened
      ∷ []
unfolding evaluate_security_rules evaluate_resources evaluate_rules evaluate_rule record_failure
    update_first see_again resolve_all encrypted_flag judge_encryption has_tag
duplicates = refl

-- A finding is resolved where the metadata no longer tell.
resolves :
    run JsonFlag.undefined_ WorkflowStatus.assigned
    ≡ RiskStatus.workflow WorkflowStatus.resolved ∷ []
unfolding evaluate_security_rules evaluate_resources evaluate_rules evaluate_rule record_failure
    update_first see_again resolve_all encrypted_flag judge_encryption has_tag
resolves = refl

abbrev resources : List Resource
resources = volume (JsonFlag.boolean false) ∷ []

abbrev before : EngineState
before = holding (unencrypted WorkflowStatus.resolved ∷ [])

abbrev after : List EngineFinding
after = (evaluate_security_rules "org-1" 50 catalog resources before).0.findings

evaluate-Evolves_example : Evolves Changes before.findings after
evaluate-Evolves_example = evaluate-Evolves "org-1" 50 catalog resources before

abbrev resource_of : EngineFinding → Option Resource
resource_of f = some (volume (JsonFlag.boolean false))

abbrev assigned : List EngineFinding
assigned = unencrypted WorkflowStatus.assigned ∷ []

abbrev posture : AccountPosture
posture = record {
  score = pos 97;
  active_finding_count = 1;
  evaluated_resource_count = 1;
  severity_counts = record { critical = 0; high = 0; medium = 1; low = 0; info = 0 };
}

has_posture : account_posture "org-1" "account-1" resource_of resources assigned ≡ some posture
unfolding account_posture severity_counts severity_count calculate_security_score penalty
has_posture = refl

seven_critical :
    calculate_security_score (record { critical = 7; high = 0; medium = 0; low = 0; info = 0 })
    ≡ pos 0
unfolding calculate_security_score penalty
seven_critical = refl

account_posture_lem_example :
    (pos 97
      ≡ pos (
          if ltb (total_penalty "org-1" "account-1" resource_of assigned) 100
          then 100 - total_penalty "org-1" "account-1" resource_of assigned
          else 0))
    × (1 ≡ counted_findings "org-1" "account-1" resource_of assigned)
    × (1 ≤ length (filter (is_evaluated "org-1" "account-1" resource_of) resources))
account_posture_lem_example =
    account_posture_lem "org-1" "account-1" resource_of resources assigned posture has_posture
