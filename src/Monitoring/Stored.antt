-- ===== src/Monitoring/Stored.antt =====
-- The rows that a monitoring run writes: alerts, the records beside them, and the run itself
-- (packages/database/prisma/schema.prisma and packages/security-monitoring/src/monitoring.rules.ts).
use cloudshield_enterprise.Prelude.{
  String, ℕ, ◌≡◌, Bool, true, false, ◌&&◌, ◌||◌, Option, List, [], ◌∷◌, ◌==◌, string_eq, nat_eq,
  arith, Comparable, code_eq,
}
use cloudshield_enterprise.Monitoring.{
  RuleKey, FindingSeverity, MonitoredAccount, MonitoredFinding, FailedScan, ControlState, Snapshot,
  AlertEvidence, DedupeKey, is_critical, is_high,
}

unfoldable pub rule_code : RuleKey → ℕ
rule_code RuleKey.account_connectivity_degraded = 0
rule_code RuleKey.inventory_freshness_stale = 1
rule_code RuleKey.critical_security_finding = 2
rule_code RuleKey.public_exposure_detected = 3
rule_code RuleKey.scan_run_failed = 4
rule_code RuleKey.high_security_finding_increase = 5
rule_code RuleKey.compliance_control_regressed = 6

pub rule_code_injective : (a b : RuleKey) → rule_code a ≡ rule_code b → a ≡ b
unfolding rule_code
rule_code_injective a b e = ground arith

instance abbrev pub rule_eq : Comparable RuleKey
rule_eq = code_eq rule_code rule_code_injective

abbrev pub same_ids : List String → List String → Bool
same_ids [] [] = true
same_ids (a ∷ as_) (b ∷ bs) = a == b && same_ids as_ bs
same_ids _ _ = false

pub data AlertStatus : Type 0 where
  opened acknowledged resolved : AlertStatus

abbrev pub is_resolved : AlertStatus → Bool
is_resolved AlertStatus.resolved = true
is_resolved _ = false

pub record SecurityAlert : Type 0 where
  pub organization_id : String
  pub dedupe_key : DedupeKey
  pub status : AlertStatus
  pub evidence : AlertEvidence
  pub evidence_count : ℕ
  pub mapped_evidence : List AlertEvidence
  pub first_observed_at : ℕ
  pub last_observed_at : ℕ
  pub resolved_at : Option ℕ

abbrev pub has_key : DedupeKey → DedupeKey → Bool
has_key k j = j.rule_key == k.rule_key && same_ids j.ids k.ids

pub data RunStatus : Type 0 where
  queued running completed failed : RunStatus

pub record MonitoringRun : Type 0 where
  pub status : RunStatus
  pub completed_at : Option ℕ
  pub evaluated_count : ℕ
  pub alerts_created : ℕ
  pub alerts_updated : ℕ
  pub alerts_resolved : ℕ

-- `MONITORING_RULES[ruleKey].severity`
unfoldable pub rule_severity : RuleKey → FindingSeverity
rule_severity RuleKey.account_connectivity_degraded = FindingSeverity.high
rule_severity RuleKey.inventory_freshness_stale = FindingSeverity.medium
rule_severity RuleKey.critical_security_finding = FindingSeverity.critical
rule_severity RuleKey.public_exposure_detected = FindingSeverity.critical
rule_severity RuleKey.scan_run_failed = FindingSeverity.high
rule_severity RuleKey.high_security_finding_increase = FindingSeverity.high
rule_severity RuleKey.compliance_control_regressed = FindingSeverity.high

-- Whether an alert of the rule is notified.
unfoldable pub is_notified : RuleKey → Bool
unfolding rule_code rule_severity
is_notified rule =
    is_critical (rule_severity rule)
    || (is_high (rule_severity rule) || rule == RuleKey.account_connectivity_degraded)

pub data Change : Type 0 where
  opening reopening resolution : Change

-- A row that is written beside an alert: an audit event, a notification, or a piece of its evidence.
pub data AlertRecord : Type 0 where
  audit : DedupeKey → Change → AlertRecord
  notification : DedupeKey → Change → AlertRecord
  evidence_of : DedupeKey → AlertEvidence → AlertRecord
  failure_notice : AlertRecord

-- `run` is the row that the job names, if it is there; `records` are the rows that are written beside the
-- alerts.
pub record MonitoringDb : Type 0 where
  pub run : Option MonitoringRun
  pub alerts : List SecurityAlert
  pub latest_snapshot : Option Snapshot
  pub records : List AlertRecord

pub record AlertCounts : Type 0 where
  pub alerts : List SecurityAlert
  pub records : List AlertRecord
  pub created : ℕ
  pub updated : ℕ

-- What a run reads besides the alerts and the last snapshot.
pub record Observed : Type 0 where
  pub accounts : List MonitoredAccount
  pub open_findings : List MonitoredFinding
  pub failed_scans : List FailedScan
  pub current_compliances : List ControlState
