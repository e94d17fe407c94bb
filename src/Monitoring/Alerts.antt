-- ===== src/Monitoring/Alerts.antt =====
-- The stored alerts and what a run of the orchestrator does with them
-- (apps/worker/src/monitoring-orchestrator.ts, and the builder of snapshots of
-- packages/security-monitoring/src/monitoring.snapshot.service.ts). What a run reads is one view of the
-- database; that the run is RUNNING in between and the texts of the records are left out. Whether
-- the repository of evidence appends the record of an alert is a parameter.
use cloudshield_enterprise.Prelude.{
  String, ℕ, ◌+◌, Bool, true, false, not, ◌&&◌, Option, none, some, List, [], ◌∷◌, ◌++◌, map,
  filter, any, length, last_of, if◌then◌else◌, ◌==◌, string_eq, nat_eq,
}
use cloudshield_enterprise.Store.Listed.{update_first}
use cloudshield_enterprise.Monitoring.{
  ControlState, Fingerprints, Snapshot, EvaluationInput, DedupeKey, EvaluatedAlert,
}
use cloudshield_enterprise.Monitoring.Schemas.{is_accepted}
use cloudshield_enterprise.Monitoring.Stored.{
  rule_eq, AlertStatus, is_resolved, SecurityAlert, has_key, RunStatus, MonitoringRun, is_notified,
  Change, AlertRecord, MonitoringDb, AlertCounts, Observed,
}
use cloudshield_enterprise.Monitoring.Engine.{evaluate_rules, high_findings}

-- `findUnique` by the organisation and the key
abbrev pub is_alert : String → DedupeKey → SecurityAlert → Bool
is_alert organization k a = a.organization_id == organization && has_key k a.dedupe_key

abbrev pub created_alert : String → ℕ → EvaluatedAlert → SecurityAlert
created_alert organization now e = record {
  organization_id = organization;
  dedupe_key = e.dedupe_key;
  status = AlertStatus.opened;
  evidence = e.evidence;
  evidence_count = 1;
  mapped_evidence = e.evidence ∷ [];
  first_observed_at = now;
  last_observed_at = now;
  resolved_at = none;
}

unfoldable pub observe : ℕ → EvaluatedAlert → SecurityAlert → SecurityAlert
observe now e a =
    let again = is_resolved a.status in
    record a {
      status = if again then AlertStatus.opened else a.status;
      evidence = e.evidence;
      evidence_count = a.evidence_count + 1;
      mapped_evidence = last_of 10 (a.mapped_evidence ++ (e.evidence ∷ []));
      last_observed_at = now;
      first_observed_at = if again then now else a.first_observed_at;
      resolved_at = if again then none else a.resolved_at;
    }

-- `complianceStates` of the builder: the first row of a control counts.
unfoldable pub control_states : List ControlState → List ControlState → List ControlState
control_states seen [] = []
control_states seen (c ∷ cs) =
    let known = any (λ s. s.control_id == c.control_id) seen in
    let rest = control_states (c ∷ seen) cs in if known then rest else c ∷ rest

-- `buildSnapshot`
unfoldable pub build_snapshot : Observed → Snapshot
build_snapshot p = record {
  account_state =
      map (λ a. record { account_id = a.id; connection_status = a.connection_status }) p.accounts;
  high_finding_count = some (length (high_findings p.open_findings));
  finding_fingerprints =
      Fingerprints.keyed
        (map (λ f. record { finding_id = f.id; severity = f.severity }) p.open_findings);
  compliance_states = control_states [] p.current_compliances;
}

abbrev pub starting : MonitoringDb → AlertCounts
starting db = record { alerts = db.alerts; records = db.records; created = 0; updated = 0 }

module _ (organization : String) (now : ℕ) where
  -- The audit event of an opening or a reopening, and its notification.
  abbrev pub announced : EvaluatedAlert → Change → List AlertRecord → List AlertRecord
  announced e change records =
      let audited = AlertRecord.audit e.dedupe_key change ∷ records in
      if is_notified e.dedupe_key.rule_key
      then AlertRecord.notification e.dedupe_key change ∷ audited
      else audited

  abbrev pub is_reopened : EvaluatedAlert → SecurityAlert → Bool
  is_reopened e a = is_alert organization e.dedupe_key a && is_resolved a.status

  unfoldable pub save_alert : EvaluatedAlert → AlertCounts → AlertCounts
  save_alert e c =
      let found = any (is_alert organization e.dedupe_key) c.alerts in
      record {
        alerts =
            if found
            then update_first (is_alert organization e.dedupe_key) (observe now e) c.alerts
            else c.alerts ++ (created_alert organization now e ∷ []);
        records =
            AlertRecord.evidence_of e.dedupe_key e.evidence
            ∷ (if found
                then (if any (is_reopened e) c.alerts
                    then announced e Change.reopening c.records
                    else c.records)
                else announced e Change.opening c.records);
        created = if found then c.created else c.created + 1;
        updated = if found then c.updated + 1 else c.updated;
      }

  -- The alerts that the run resolves by itself.
  abbrev pub is_over : List EvaluatedAlert → SecurityAlert → Bool
  is_over evaluated a =
      a.organization_id == organization
      && (not (is_resolved a.status)
          && not (any (λ e. has_key e.dedupe_key a.dedupe_key) evaluated))

  abbrev pub resolve_alert : SecurityAlert → SecurityAlert
  resolve_alert a = record a { status = AlertStatus.resolved; resolved_at = some now }

  unfoldable pub resolve_alerts : List EvaluatedAlert → List SecurityAlert → List SecurityAlert
  resolve_alerts evaluated alerts =
      map (λ a. if is_over evaluated a then resolve_alert a else a) alerts

  -- The audit events of the alerts that are resolved.
  unfoldable pub resolutions :
      List EvaluatedAlert → List SecurityAlert → List AlertRecord → List AlertRecord
  resolutions evaluated alerts records =
      map (λ a. AlertRecord.audit a.dedupe_key Change.resolution)
        (filter (is_over evaluated) alerts)
      ++ records

  abbrev pub input_of : Observed → Option Snapshot → EvaluationInput
  input_of p previous = record {
    accounts = p.accounts;
    open_findings = p.open_findings;
    failed_scans = p.failed_scans;
    current_compliances = p.current_compliances;
    previous_snapshot = previous;
  }

  abbrev pub evaluated_alerts : MonitoringDb → Observed → Option (List EvaluatedAlert)
  evaluated_alerts db p = evaluate_rules (input_of p db.latest_snapshot) now

module _ (appends : EvaluatedAlert → Bool) (organization : String) (now : ℕ) where
  -- The transactions, one for each alert. The last step of a transaction is to parse the evidence and to
  -- append it: where this throws, this transaction is rolled back, those before it stay, and the flag
  -- tells that the loop was left.
  unfoldable pub save_alerts : List EvaluatedAlert → AlertCounts → AlertCounts × Bool
  save_alerts [] c = (c, true)
  save_alerts (e ∷ es) c =
      let rest = save_alerts es (save_alert organization now e c) in
      if is_accepted appends e then rest else (c, false)

  -- The end of a run whose evaluation or whose transactions threw.
  unfoldable pub finish_failed : MonitoringDb → AlertCounts → MonitoringDb
  finish_failed db saved = record db {
    run = some (record {
      status = RunStatus.failed;
      completed_at = some now;
      evaluated_count = 0;
      alerts_created = 0;
      alerts_updated = 0;
      alerts_resolved = 0;
    });
    alerts = saved.alerts;
    records = AlertRecord.failure_notice ∷ saved.records;
  }

  unfoldable pub finish_completed :
      MonitoringDb → Observed → List EvaluatedAlert → AlertCounts → MonitoringDb
  finish_completed db p evaluated saved = record db {
    run = some (record {
      status = RunStatus.completed;
      completed_at = some now;
      evaluated_count = length evaluated;
      alerts_created = saved.created;
      alerts_updated = saved.updated;
      alerts_resolved = length (filter (is_over organization now evaluated) saved.alerts);
    });
    alerts = resolve_alerts organization now evaluated saved.alerts;
    records = resolutions organization now evaluated saved.alerts saved.records;
    latest_snapshot = some (build_snapshot p);
  }

  -- What follows the evaluation; `none` is an evaluation that threw.
  unfoldable pub conclude : MonitoringDb → Observed → Option (List EvaluatedAlert) → MonitoringDb
  conclude db p none = finish_failed db (starting db)
  conclude db p (some evaluated) =
      let saved = save_alerts evaluated (starting db) in
      if saved.1 then finish_completed db p evaluated saved.0 else finish_failed db saved.0

  abbrev is_queued : Option MonitoringRun → Bool
  is_queued none = false
  is_queued (some run) = elim run.status [ RunStatus.queued ↦ true | _ ↦ false ]

  -- `evaluateMonitoring`; `none` is the error of a run that is not there or not queued.
  unfoldable pub evaluate_monitoring : MonitoringDb → Observed → Option MonitoringDb
  evaluate_monitoring db p =
      if is_queued db.run
      then some (conclude db p (evaluated_alerts organization now db p))
      else none
