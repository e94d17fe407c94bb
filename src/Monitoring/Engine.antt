-- ===== src/Monitoring/Engine.antt =====
-- The engine that evaluates the monitoring rules
-- (packages/security-monitoring/src/monitoring.engine.ts). `none` is the TypeError that it throws where
-- it calls `filter` on an object.
use cloudshield_enterprise.Prelude.{
  String, ℕ, ◌+◌, ◌-◌, ◌*◌, Bool, not, ◌&&◌, ◌||◌, Option, none, some, List, [], ◌∷◌, ◌++◌, map,
  filter, includes, length, if◌then◌else◌, ◌==◌, string_eq, nat_eq, option_beq, ltb, leb, is_some,
}
use cloudshield_enterprise.Monitoring.{
  RuleKey, MonitoredAccount, MonitoredFinding, FailedScan, ControlState, AccountState, Fingerprints,
  Snapshot, EvaluationInput, AlertEvidence, EvaluatedAlert, is_critical, is_high,
}

abbrev pub day_ms : ℕ
day_ms = 24 * 60 * 60 * 1000

abbrev pub public_exposure_rule_keys : List String
public_exposure_rule_keys =
    "s3-bucket-public-read" ∷ "s3-bucket-public-write" ∷ "sg-open-to-world"
    ∷ "rds-publicly-accessible" ∷ "redshift-publicly-accessible" ∷ []

-- The object that a `reduce` builds, read under a key: the last entry wins.
unfoldable pub state_of_account : List AccountState → String → Option String
state_of_account [] id = none
state_of_account (s ∷ ss) id =
    let later = state_of_account ss id in
    if is_some later then later else if s.account_id == id then some s.connection_status else none

unfoldable pub state_of_control : List ControlState → String → Option String
state_of_control [] id = none
state_of_control (s ∷ ss) id =
    let later = state_of_control ss id in
    if is_some later then later else if s.control_id == id then some s.status else none

abbrev pub previous_accounts : Option Snapshot → List AccountState
previous_accounts none = []
previous_accounts (some s) = s.account_state

abbrev pub is_failing_status : String → Bool
is_failing_status status =
    includes ("AUTH_FAILED" ∷ "PERMISSION_DENIED" ∷ "VALIDATION_FAILED" ∷ []) status

abbrev pub was_usable : List AccountState → MonitoredAccount → Bool
was_usable previous account =
    option_beq (state_of_account previous account.id) (some "VALIDATION_SUCCEEDED")
    || (option_beq (state_of_account previous account.id) (some "CONNECTED")
        || is_some account.last_scan_at)

unfoldable pub connectivity_alerts : List AccountState → List MonitoredAccount → List EvaluatedAlert
connectivity_alerts previous [] = []
connectivity_alerts previous (a ∷ accounts) =
    let rest = connectivity_alerts previous accounts in
    if is_failing_status a.connection_status && was_usable previous a
    then (record {
      dedupe_key = record { rule_key = RuleKey.account_connectivity_degraded; ids = a.id ∷ [] };
      aws_account_id = some a.id;
      cloud_resource_id = none;
      security_finding_id = none;
      evidence = AlertEvidence.connection a.connection_status;
    })
      ∷ rest
    else rest

abbrev pub freshness_alert : MonitoredAccount → Option ℕ → ℕ → List EvaluatedAlert
freshness_alert a none now = []
freshness_alert a (some at) now =
    if ltb (at + day_ms) now
    then (record {
      dedupe_key = record { rule_key = RuleKey.inventory_freshness_stale; ids = a.id ∷ [] };
      aws_account_id = some a.id;
      cloud_resource_id = none;
      security_finding_id = none;
      evidence = AlertEvidence.last_scan at;
    })
      ∷ []
    else []

unfoldable pub freshness_alerts : List MonitoredAccount → ℕ → List EvaluatedAlert
freshness_alerts [] now = []
freshness_alerts (a ∷ accounts) now =
    freshness_alert a a.last_scan_at now ++ freshness_alerts accounts now

abbrev pub finding_alert : RuleKey → MonitoredFinding → EvaluatedAlert
finding_alert rule_key f = record {
  dedupe_key = record { rule_key = rule_key; ids = f.id ∷ [] };
  aws_account_id = f.aws_account_id;
  cloud_resource_id = f.resource_id;
  security_finding_id = some f.id;
  evidence = AlertEvidence.rule f.rule_id;
}

unfoldable pub critical_alerts : List MonitoredFinding → List EvaluatedAlert
critical_alerts findings = map (finding_alert RuleKey.critical_security_finding) findings

unfoldable pub exposure_alerts : List MonitoredFinding → List EvaluatedAlert
exposure_alerts findings =
    map (finding_alert RuleKey.public_exposure_detected)
      (filter (λ f. includes public_exposure_rule_keys f.rule_id) findings)

abbrev or_org : Option String → String
or_org none = "ORG"
or_org (some id) = if id == "" then "ORG" else id

unfoldable pub scan_alerts : List FailedScan → ℕ → List EvaluatedAlert
scan_alerts [] now = []
scan_alerts (s ∷ scans) now =
    let rest = scan_alerts scans now in
    if leb now (s.created_at + day_ms)
    then (record {
      dedupe_key = record {
        rule_key = RuleKey.scan_run_failed;
        ids = or_org s.aws_account_id ∷ s.id ∷ [];
      };
      aws_account_id = s.aws_account_id;
      cloud_resource_id = none;
      security_finding_id = none;
      evidence = AlertEvidence.scan_run s.id s.error_code;
    })
      ∷ rest
    else rest

-- `(findingFingerprints || []).filter(...)`, which an object does not have.
unfoldable pub high_ids : Fingerprints → Option (List String)
high_ids Fingerprints.missing = some []
high_ids (Fingerprints.array fs) =
    some (map (λ f. f.finding_id) (filter (λ f. is_high f.severity) fs))
high_ids (Fingerprints.keyed fs) = none

abbrev pub increase_alert : ℕ → List MonitoredFinding → List String → EvaluatedAlert
increase_alert previous high_findings known = record {
  dedupe_key = record { rule_key = RuleKey.high_security_finding_increase; ids = "ORG" ∷ [] };
  aws_account_id = none;
  cloud_resource_id = none;
  security_finding_id = none;
  evidence =
      AlertEvidence.increase previous (length high_findings) (length high_findings - previous)
        (map (λ f. f.id) (filter (λ f. not (includes known f.id)) high_findings));
}

unfoldable pub increase_alerts :
    Option ℕ → Fingerprints → List MonitoredFinding → Option (List EvaluatedAlert)
increase_alerts none fingerprints high_findings = some []
increase_alerts (some previous) fingerprints high_findings =
    if ltb previous (length high_findings)
    then (elim (high_ids fingerprints) [
      | none ↦ none
      | some known ↦ some (increase_alert previous high_findings known ∷ [])
    ])
    else some []

abbrev pub has_regressed : List ControlState → ControlState → Bool
has_regressed previous c =
    option_beq (state_of_control previous c.control_id) (some "PASS") && c.status == "FAIL"

abbrev regression_alert : ControlState → EvaluatedAlert
regression_alert c = record {
  dedupe_key = record { rule_key = RuleKey.compliance_control_regressed; ids = c.control_id ∷ [] };
  aws_account_id = none;
  cloud_resource_id = none;
  security_finding_id = none;
  evidence = AlertEvidence.regression c.control_id "PASS" c.status;
}

unfoldable pub regression_alerts : List ControlState → List ControlState → List EvaluatedAlert
regression_alerts previous current = map regression_alert (filter (has_regressed previous) current)

unfoldable pub transition_alerts :
    Option Snapshot → List MonitoredFinding → List ControlState → Option (List EvaluatedAlert)
transition_alerts none high_findings compliances = some []
transition_alerts (some previous) high_findings compliances =
    elim (increase_alerts previous.high_finding_count previous.finding_fingerprints high_findings) [
      | none ↦ none
      | some alerts ↦ some (alerts ++ regression_alerts previous.compliance_states compliances)
    ]

abbrev pub high_findings : List MonitoredFinding → List MonitoredFinding
high_findings fs = filter (λ f. is_high f.severity) fs

abbrev pub critical_findings : List MonitoredFinding → List MonitoredFinding
critical_findings fs = filter (λ f. is_critical f.severity) fs

-- The rules that look at the present state only.
unfoldable pub state_alerts : EvaluationInput → ℕ → List EvaluatedAlert
state_alerts input now =
    connectivity_alerts (previous_accounts input.previous_snapshot) input.accounts
    ++ freshness_alerts input.accounts now
    ++ critical_alerts (critical_findings input.open_findings)
    ++ exposure_alerts input.open_findings
    ++ scan_alerts input.failed_scans now

-- `evaluateRules`, over what the queries of a run return.
unfoldable pub evaluate_rules : EvaluationInput → ℕ → Option (List EvaluatedAlert)
evaluate_rules input now =
    elim (transition_alerts input.previous_snapshot (high_findings input.open_findings)
      input.current_compliances) [
        | none ↦ none
        | some transitions ↦ some (state_alerts input now ++ transitions)
      ]
