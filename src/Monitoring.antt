-- ===== src/Monitoring.antt =====
-- Security monitoring (packages/security-monitoring/src and apps/worker/src/monitoring-orchestrator.ts):
-- the rows that a run reads, the snapshot that it leaves for the next, and the alerts that it raises.
pub mod Engine
pub mod Stored
pub mod Schemas
pub mod Alerts
pub mod Follow
pub mod Bounds
pub mod Faults
pub mod Regression
pub mod Health
mod Tests
use cloudshield_enterprise.Prelude.{String, ℕ, Bool, true, false, Option, List}

-- `MONITORING_RULES`
pub data RuleKey : Type 0 where
  account_connectivity_degraded inventory_freshness_stale critical_security_finding
        public_exposure_detected scan_run_failed high_security_finding_increase
        compliance_control_regressed :
      RuleKey

-- `FindingSeverity`
pub data FindingSeverity : Type 0 where
  critical high medium low info : FindingSeverity

abbrev pub is_critical : FindingSeverity → Bool
is_critical FindingSeverity.critical = true
is_critical _ = false

abbrev pub is_high : FindingSeverity → Bool
is_high FindingSeverity.high = true
is_high _ = false

pub record MonitoredAccount : Type 0 where
  pub id : String
  pub connection_status : String
  pub last_scan_at : Option ℕ

-- A finding with status OPEN that is not archived.
pub record MonitoredFinding : Type 0 where
  pub id : String
  pub severity : FindingSeverity
  pub rule_id : String
  pub aws_account_id : Option String
  pub resource_id : Option String
  pub title : String

pub record FailedScan : Type 0 where
  pub id : String
  pub aws_account_id : Option String
  pub error_code : Option String
  pub created_at : ℕ

-- `controlId` and `status` of a row of compliance evidence, or of a control's state in a snapshot.
pub record ControlState : Type 0 where
  pub control_id : String
  pub status : String

pub record AccountState : Type 0 where
  pub account_id : String
  pub connection_status : String

pub record Fingerprint : Type 0 where
  pub finding_id : String
  pub severity : FindingSeverity

-- The JSON of the fingerprints in a snapshot.
pub data Fingerprints : Type 0 where
  missing : Fingerprints
  array : List Fingerprint → Fingerprints
  keyed : List Fingerprint → Fingerprints

-- A stored snapshot, as far as a run reads it. The accounts and the controls are those of the values of
-- an object, in its order.
pub record Snapshot : Type 0 where
  pub account_state : List AccountState
  pub high_finding_count : Option ℕ
  pub finding_fingerprints : Fingerprints
  pub compliance_states : List ControlState

pub record EvaluationInput : Type 0 where
  pub accounts : List MonitoredAccount
  pub open_findings : List MonitoredFinding
  pub failed_scans : List FailedScan
  pub current_compliances : List ControlState
  pub previous_snapshot : Option Snapshot

pub data AlertEvidence : Type 0 where
  connection : String → AlertEvidence
  last_scan : ℕ → AlertEvidence
  rule : String → AlertEvidence
  scan_run : String → Option String → AlertEvidence
  increase : ℕ → ℕ → ℕ → List String → AlertEvidence
  regression : String → String → String → AlertEvidence

-- The text that joins the name of the rule and the ids is the pair of them.
pub record DedupeKey : Type 0 where
  pub rule_key : RuleKey
  pub ids : List String

pub record EvaluatedAlert : Type 0 where
  pub dedupe_key : DedupeKey
  pub aws_account_id : Option String
  pub cloud_resource_id : Option String
  pub security_finding_id : Option String
  pub evidence : AlertEvidence
