-- ===== src/Posture/Engine.antt =====
-- The engine that runs the rules over stored inventory
-- (packages/database/src/security-posture/security-rule.engine.ts). Findings are rows in the order in
-- which `findFirst` comes upon them; a row is updated by its primary key, so that the row that was found
-- is the row that is written. A finding's key, the text of its rule and its resource, is the pair.
use cloudshield_enterprise.Prelude.{
  String, ℕ, ◌+◌, Bool, true, false, not, ◌&&◌, Option, none, some, List, [], ◌∷◌, ◌++◌, map, any,
  filter, length, if◌then◌else◌, ◌==◌, string_eq, nat_eq, option_beq, is_some,
}
use cloudshield_enterprise.Risk.Matrix.{WorkflowStatus, RiskStatus}
use cloudshield_enterprise.Posture.{Resource, Severity, Evaluation}
use cloudshield_enterprise.Posture.Rules.{SecurityRule}
use cloudshield_enterprise.Store.Listed.{update_first}

-- The columns of `SecurityFinding` that the engine reads or writes.
pub record EngineFinding : Type 0 where
  pub organization_id : String
  pub aws_account_id : String
  pub resource_id : Option String
  pub rule_id : String
  pub severity : Severity
  pub status : RiskStatus
  pub workflow_status : RiskStatus
  pub is_rule_engine : Bool
  pub archived_at : Option ℕ
  pub resolved_at : Option ℕ
  pub reopened_at : Option ℕ
  pub last_seen_at : Option ℕ
  pub last_evaluated_at : Option ℕ

-- A row of `SecurityFindingEvidenceSnapshot`.
pub record EvidenceSnapshot : Type 0 where
  pub organization_id : String
  pub resource_id : String
  pub rule_id : String
  pub captured_at : ℕ

-- The key of a finding: `${ruleId}::${resource.id}`
pub record FindingKey : Type 0 where
  pub rule_id : String
  pub resource_id : String

pub record EngineState : Type 0 where
  pub findings : List EngineFinding
  pub snapshots : List EvidenceSnapshot
  -- The rules whose findings got a recommendation.
  pub recommendations : List String
  pub active_findings : List FindingKey
  pub findings_created : ℕ
  pub findings_updated : ℕ

pub record EvaluationSummary : Type 0 where
  pub evaluated_resource_count : ℕ
  pub findings_created : ℕ
  pub findings_updated : ℕ
  pub findings_resolved : ℕ

-- The statuses of which the last query of the engine speaks.
abbrev pub is_active_workflow : WorkflowStatus → Bool
is_active_workflow WorkflowStatus.opened = true
is_active_workflow WorkflowStatus.acknowledged = true
is_active_workflow WorkflowStatus.assigned = true
is_active_workflow WorkflowStatus.remediation_planned = true
is_active_workflow WorkflowStatus.reopened = true
is_active_workflow _ = false

abbrev pub is_active_status : RiskStatus → Bool
is_active_status RiskStatus.accepted_risk = false
is_active_status (RiskStatus.workflow s) = is_active_workflow s

-- The statuses of a finding that the engine takes up again.
abbrev pub is_existing_status : RiskStatus → Bool
is_existing_status (RiskStatus.workflow WorkflowStatus.risk_accepted) = true
is_existing_status (RiskStatus.workflow WorkflowStatus.resolved) = true
is_existing_status s = is_active_status s

abbrev pub is_resolved : RiskStatus → Bool
is_resolved (RiskStatus.workflow WorkflowStatus.resolved) = true
is_resolved _ = false

abbrev pub is_of_key : FindingKey → EngineFinding → Bool
is_of_key k f = f.rule_id == k.rule_id && option_beq f.resource_id (some k.resource_id)

abbrev pub is_existing : String → FindingKey → EngineFinding → Bool
is_existing organization k f =
    f.organization_id == organization
    && (is_of_key k f
        && (f.is_rule_engine && (not (is_some f.archived_at) && is_existing_status f.status)))

-- The update of a finding that is seen again.
unfoldable pub see_again : ℕ → EngineFinding → EngineFinding
see_again at f =
    if is_resolved f.status
    then record f {
      status = RiskStatus.workflow WorkflowStatus.reopened;
      workflow_status = RiskStatus.workflow WorkflowStatus.reopened;
      resolved_at = none;
      reopened_at = some at;
      last_seen_at = some at;
      last_evaluated_at = some at;
    }
    else record f { last_seen_at = some at; last_evaluated_at = some at }

abbrev pub opened_finding : String → Resource → SecurityRule → ℕ → EngineFinding
opened_finding organization r rule at = record {
  organization_id = organization;
  aws_account_id = r.aws_account_id;
  resource_id = some r.id;
  rule_id = rule.rule_id;
  severity = rule.severity;
  status = RiskStatus.workflow WorkflowStatus.opened;
  workflow_status = RiskStatus.workflow WorkflowStatus.opened;
  is_rule_engine = true;
  archived_at = none;
  resolved_at = none;
  reopened_at = none;
  last_seen_at = some at;
  last_evaluated_at = some at;
}

abbrev pub is_failing : Evaluation → Bool
is_failing Evaluation.finding = true
is_failing Evaluation.pass = false
is_failing Evaluation.not_applicable = false

module _ (organization : String) (evaluated_at : ℕ) where
  abbrev pub key_of : SecurityRule → Resource → FindingKey
  key_of rule r = record { rule_id = rule.rule_id; resource_id = r.id }

  unfoldable pub record_failure : Resource → SecurityRule → EngineState → EngineState
  record_failure r rule s =
      let k = key_of rule r in
      let found = any (is_existing organization k) s.findings in
      record s {
        active_findings = k ∷ s.active_findings;
        findings =
            if found
            then update_first (is_existing organization k) (see_again evaluated_at) s.findings
            else s.findings ++ (opened_finding organization r rule evaluated_at ∷ []);
        snapshots =
            (record {
              organization_id = organization;
              resource_id = r.id;
              rule_id = rule.rule_id;
              captured_at = evaluated_at;
            })
            ∷ s.snapshots;
        recommendations = if found then s.recommendations else rule.rule_id ∷ s.recommendations;
        findings_created = if found then s.findings_created else s.findings_created + 1;
        findings_updated = if found then s.findings_updated + 1 else s.findings_updated;
      }

  unfoldable pub evaluate_rule : Resource → SecurityRule → EngineState → EngineState
  evaluate_rule r rule s = if is_failing (rule.evaluate r) then record_failure r rule s else s

  unfoldable pub evaluate_rules : Resource → List SecurityRule → EngineState → EngineState
  evaluate_rules r [] s = s
  evaluate_rules r (rule ∷ rules) s = evaluate_rules r rules (evaluate_rule r rule s)

  unfoldable pub evaluate_resources : List SecurityRule → List Resource → EngineState → EngineState
  evaluate_resources rules [] s = s
  evaluate_resources rules (r ∷ rs) s = evaluate_resources rules rs (evaluate_rules r rules s)

  -- The query of the open findings of the evaluated resources.
  abbrev pub is_open_finding : List SecurityRule → List Resource → EngineFinding → Bool
  is_open_finding rules resources f =
      f.organization_id == organization
      && (any (λ r. option_beq f.resource_id (some r.id)) resources
          && (f.is_rule_engine
              && (not (is_some f.archived_at)
                  && (any (λ rule. f.rule_id == rule.rule_id) rules && is_active_status f.status))))

  abbrev pub resolve_finding : EngineFinding → EngineFinding
  resolve_finding f = record f {
    status = RiskStatus.workflow WorkflowStatus.resolved;
    workflow_status = RiskStatus.workflow WorkflowStatus.resolved;
    resolved_at = some evaluated_at;
    last_evaluated_at = some evaluated_at;
  }

  abbrev pub is_over : List SecurityRule → List Resource → List FindingKey → EngineFinding → Bool
  is_over rules resources active f =
      is_open_finding rules resources f && not (any (λ k. is_of_key k f) active)

  unfoldable pub resolve_all :
      List SecurityRule → List Resource → List FindingKey → List EngineFinding → List EngineFinding
  resolve_all rules resources active fs =
      map (λ f. if is_over rules resources active f then resolve_finding f else f) fs

  -- `evaluateSecurityRules` over the resources of the organisation that are not archived.
  unfoldable pub evaluate_security_rules :
      List SecurityRule → List Resource → EngineState → EngineState × EvaluationSummary
  evaluate_security_rules rules resources s =
      let seen =
        evaluate_resources rules resources
          (record s { active_findings = []; findings_created = 0; findings_updated = 0 }) in
      (
        record seen { findings = resolve_all rules resources seen.active_findings seen.findings },
        record {
          evaluated_resource_count = length resources;
          findings_created = seen.findings_created;
          findings_updated = seen.findings_updated;
          findings_resolved =
              length (filter (is_over rules resources seen.active_findings) seen.findings);
        },
      )
