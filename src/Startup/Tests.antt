-- ===== src/Startup/Tests.antt =====
-- The start-up reconciliation of a stale and a fresh scan.
use cloudshield_enterprise.Prelude.{
  String, ℕ, ◌≡◌, ◌≢◌, refl, ◌≤◌, true, false, filter, length, none, some, List, [], ◌∷◌, map, All,
  if◌then◌else◌, arith,
}
use cloudshield_enterprise.Monitoring.Stored.{RunStatus}
use cloudshield_enterprise.Startup.{
  ScanRun, ScanRunStatus, MonitoringRun, status_code, run_status_code, is_stale_run, is_stale_scan,
  fail_run, fail_scan, is_stale_monitoring, is_stale_inventory, run_startup_reconciliation,
  global_batch_limit,
}
use cloudshield_enterprise.Startup.Laws.{run_startup-fails_stale, run_startup-AllScans}

abbrev scan : String → ScanRunStatus → ℕ → ScanRun
scan id status started_at = record {
  id = id;
  organization_id = "org";
  status = status;
  queued_at = some started_at;
  started_at = started_at;
  phase = none;
  completed_at = none;
  failure_count = 0;
  failure_classification = none;
  error_code = none;
  error_message = none;
}

abbrev run : MonitoringRun
run = record {
  id = "run";
  organization_id = "org";
  status = RunStatus.running;
  started_at = 5;
  completed_at = none;
  error_code = none;
}

abbrev scans : List ScanRun
scans = scan "lost" ScanRunStatus.queued 5 ∷ scan "fresh" ScanRunStatus.running 9000000 ∷ []

-- What a scan that has failed tells.
abbrev IsExplained : ScanRun → Type 0
IsExplained r = r.status ≡ ScanRunStatus.failed → r.error_code ≢ none

few_runs : length (filter (is_stale_monitoring 10000000) (run ∷ [])) ≤ global_batch_limit
unfolding is_stale_run run_status_code
few_runs = omega arith

few_scans : length (filter (is_stale_inventory 10000000) scans) ≤ global_batch_limit
unfolding is_stale_scan status_code
few_scans = omega arith

lost_is_stale : map (is_stale_inventory 10000000) scans ≡ true ∷ false ∷ []
unfolding is_stale_scan status_code
lost_is_stale = refl

run_startup-fails_stale_example :
    ((run_startup_reconciliation (λ rs. rs) (λ rs. rs) 10000000 (run ∷ []) scans).monitoring.rows
      ≡ map (λ r. if is_stale_monitoring 10000000 r then fail_run 10000000 r r else r) (run ∷ []))
    × ((run_startup_reconciliation (λ rs. rs) (λ rs. rs) 10000000 (run ∷ []) scans).inventory.rows
        ≡ map (λ r. if is_stale_inventory 10000000 r then fail_scan 10000000 r r else r) scans)
run_startup-fails_stale_example =
    run_startup-fails_stale 10000000 (run ∷ []) scans few_runs few_scans

-- Another process requests a scan before each update.
abbrev requested : List ScanRun → List ScanRun
requested rows = scan "new" ScanRunStatus.requested 1 ∷ rows

requested-AllExplained :
    (rows : List ScanRun) → All IsExplained rows → All IsExplained (requested rows)
requested-AllExplained rows h = ((λ e. cc), h)

fail_scan-IsExplained : (c r : ScanRun) → IsExplained (fail_scan 10000000 c r)
unfolding fail_scan
fail_scan-IsExplained c r e = ground arith

run_startup-AllScans_example :
    All IsExplained
      (run_startup_reconciliation (λ rs. rs) requested 10000000 (run ∷ []) scans).inventory.rows
run_startup-AllScans_example =
    run_startup-AllScans IsExplained (λ rs. rs) requested 10000000 (run ∷ []) scans
      requested-AllExplained (λ c r _ _. fail_scan-IsExplained c r) ((λ e. cc), ((λ e. cc), tt))
