-- ===== src/Monitoring/Tests.antt =====
-- Runs on small databases, and witnesses.
use cloudshield_enterprise.Prelude.{
  ◌<◌, ◌≡◌, ◌↔◌, ◌⊎◌, refl, Bool, true, false, Option, none, some, List, [], ◌∷◌, any, All, map,
  arith,
}
use cloudshield_enterprise.Monitoring.{
  RuleKey, FindingSeverity, MonitoredFinding, ControlState, EvaluatedAlert, AlertEvidence,
}
use cloudshield_enterprise.Monitoring.Engine.{
  evaluate_rules, transition_alerts, increase_alerts, high_ids, regression_alerts, state_of_control,
  state_alerts, connectivity_alerts, freshness_alerts, critical_alerts, exposure_alerts,
  scan_alerts, finding_alert,
}
use cloudshield_enterprise.Monitoring.Alerts.{
  build_snapshot, control_states, save_alerts, save_alert, resolve_alerts, finish_failed,
  finish_completed, conclude, evaluated_alerts, evaluate_monitoring,
}
use cloudshield_enterprise.Monitoring.Schemas.{is_accepted, is_bounded_safe, evidence_parses}
use cloudshield_enterprise.Monitoring.Stored.{
  MonitoringDb, Observed, SecurityAlert, AlertStatus, rule_code,
}
use cloudshield_enterprise.Monitoring.Follow.{
  has_completed, is_open_alert, is_expected, evaluate_monitoring-follows,
}
use cloudshield_enterprise.Monitoring.Bounds.{IsBounded, evaluate_monitoring-AllBounded}
use cloudshield_enterprise.Monitoring.Faults.{
  has_failed, high_count, queued_run, is_refused, HasStuck, run_all, evaluate_monitoring-failed_iff,
  evaluate_monitoring-failure_lasts, exposure_alerts-none,
}
use cloudshield_enterprise.Monitoring.Regression.{is_settled, evaluate_monitoring-settles}

abbrev open_ssh : FindingSeverity → MonitoredFinding
open_ssh severity = record {
  id = "finding-1";
  severity = severity;
  rule_id = "SG_OPEN_SSH_TO_WORLD";
  aws_account_id = some "account-1";
  resource_id = some "group-1";
  title = "open";
}

abbrev failing_control : ControlState
failing_control = record { control_id = "control-1"; status = "FAIL" }

abbrev seeing : List MonitoredFinding → Observed
seeing findings = record {
  accounts = [];
  open_findings = findings;
  failed_scans = [];
  current_compliances = failing_control ∷ [];
}

-- The repository appends every record.
abbrev appends : EvaluatedAlert → Bool
appends e = true

abbrev regressed : SecurityAlert
regressed = record {
  organization_id = "org-1";
  dedupe_key = record { rule_key = RuleKey.compliance_control_regressed; ids = "control-1" ∷ [] };
  status = AlertStatus.opened;
  evidence = AlertEvidence.regression "control-1" "PASS" "FAIL";
  evidence_count = 1;
  mapped_evidence = [];
  first_observed_at = 1;
  last_observed_at = 1;
  resolved_at = none;
}

abbrev db : MonitoringDb
db = record {
  run = some queued_run;
  alerts = regressed ∷ [];
  latest_snapshot = some (build_snapshot (seeing []));
  records = [];
}

abbrev more : Observed
more = seeing (open_ssh FindingSeverity.high ∷ [])

abbrev critical : Observed
critical = seeing (open_ssh FindingSeverity.critical ∷ [])

abbrev raised : List EvaluatedAlert
raised = finding_alert RuleKey.critical_security_finding (open_ssh FindingSeverity.critical) ∷ []

abbrev after : Observed → Option (List EvaluatedAlert) → MonitoringDb
after p evaluated = conclude appends "org-1" 50 db p evaluated

fails : evaluate_monitoring appends "org-1" 50 db more ≡ some (after more none)
unfolding evaluate_monitoring evaluate_rules transition_alerts increase_alerts high_ids
    build_snapshot
fails = refl

raises : evaluated_alerts "org-1" 50 db critical ≡ some raised
unfolding evaluate_rules transition_alerts increase_alerts high_ids build_snapshot control_states
    regression_alerts state_of_control state_alerts connectivity_alerts freshness_alerts
    critical_alerts exposure_alerts scan_alerts
raises = refl

completes : evaluate_monitoring appends "org-1" 50 db critical ≡ some (after critical (some raised))
unfolding evaluate_monitoring evaluate_rules transition_alerts increase_alerts high_ids
    build_snapshot control_states regression_alerts state_of_control state_alerts
    connectivity_alerts freshness_alerts critical_alerts exposure_alerts scan_alerts
completes = refl

statuses :
    map (λ (a : SecurityAlert). a.status) (after critical (some raised)).alerts
    ≡ AlertStatus.resolved ∷ AlertStatus.opened ∷ []
unfolding conclude finish_completed is_accepted evidence_parses is_bounded_safe save_alerts
    save_alert resolve_alerts rule_code
statuses = refl

has_status : has_completed (after critical (some raised)).run ≡ true
unfolding conclude save_alerts is_accepted evidence_parses is_bounded_safe finish_completed
has_status = refl

evaluate_monitoring-follows_example :
    All
      (λ e. any (is_open_alert "org-1" e.dedupe_key) (after critical (some raised)).alerts ≡ true)
      raised
    × All
        (λ a. is_expected appends "org-1" 50 raised a ≡ true)
        (after critical (some raised)).alerts
evaluate_monitoring-follows_example =
    evaluate_monitoring-follows appends "org-1" 50 db (after critical (some raised)) critical raised
      raises completes has_status

evaluate_monitoring-AllBounded_example : All IsBounded (after critical (some raised)).alerts
evaluate_monitoring-AllBounded_example =
    evaluate_monitoring-AllBounded appends "org-1" 50 db (after critical (some raised)) critical
      (omega arith, tt) completes

evaluate_monitoring-failed_iff_example : (has_failed (after more none).run ≡ true) ↔ (
    (high_count (seeing []) < high_count more)
    ⊎ ((es : List EvaluatedAlert) × (evaluated_alerts "org-1" 50 db more ≡ some es)
        × (is_refused appends es ≡ true)))
evaluate_monitoring-failed_iff_example =
    evaluate_monitoring-failed_iff appends "org-1" 50 db (after more none) (seeing []) more refl
      fails

evaluate_monitoring-failure_lasts_example :
    HasStuck appends "org-1" db (run_all appends "org-1" ((50, more) ∷ (60, more) ∷ []) db)
evaluate_monitoring-failure_lasts_example =
    evaluate_monitoring-failure_lasts appends "org-1" db (seeing []) (50, more) ((60, more) ∷ [])
      refl (omega arith, (omega arith, tt))

-- A record that is not appended fails the run, and the alerts stay.
refused_evidence :
    let db' = conclude (λ e. false) "org-1" 50 db critical (some raised) in
    (has_failed db'.run ≡ true) × (db'.alerts ≡ db.alerts)
unfolding conclude is_accepted evidence_parses is_bounded_safe save_alerts finish_failed
refused_evidence = (refl, refl)

evaluate_monitoring-settles_example :
    All (λ a. is_settled "org-1" a ≡ true) (after critical (some raised)).alerts
evaluate_monitoring-settles_example =
    evaluate_monitoring-settles appends "org-1" 50 db (after critical (some raised)) (seeing [])
      critical raised refl refl (refl, tt) raises completes has_status

exposure_alerts-none_example : exposure_alerts (open_ssh FindingSeverity.high ∷ []) ≡ []
exposure_alerts-none_example =
    exposure_alerts-none (λ s. s) (open_ssh FindingSeverity.high ∷ []) (refl, tt)

-- What counts is the text without its white space at the ends.
trailing_tab : is_bounded_safe "SG_OPEN\t" ≡ true
unfolding is_bounded_safe
trailing_tab = refl

blank_text : is_bounded_safe "  " ≡ false
unfolding is_bounded_safe
blank_text = refl
