-- ===== src/Startup.antt =====
-- The reconciliation that a worker starts with: runs that were left QUEUED or RUNNING are set to FAILED
-- (apps/worker/src/reliability-reconciliation.ts and
-- packages/database/src/reliability-reconciliation.repository.ts). A table is the list of its rows, in
-- the order of the query that finds the candidates. One time stands for the times of the writes.
pub mod Batch
pub mod Laws
mod Tests
use cloudshield_enterprise.Prelude.{
  String, ℕ, suc, ◌+◌, ◌-◌, ◌*◌, ◌≡◌, Bool, true, false, ◌&&◌, ◌||◌, Option, none, some, List,
  arith, if◌then◌else◌, ◌==◌, string_eq, nat_eq, option_beq, is_some, ltb, Comparable, code_eq,
}
use cloudshield_enterprise.Monitoring.Stored.{RunStatus}
use cloudshield_enterprise.Startup.Batch.{Reconciled, reconcile_stale}

pub data ScanRunStatus : Type 0 where
  requested queued running started partially_succeeded succeeded completed cancelled blocked
        blocked_disabled not_configured auth_failed permission_denied partial_scan rate_limited
        failed :
      ScanRunStatus

unfoldable pub status_code : ScanRunStatus → ℕ
status_code ScanRunStatus.requested = 0
status_code ScanRunStatus.queued = 1
status_code ScanRunStatus.running = 2
status_code ScanRunStatus.started = 3
status_code ScanRunStatus.partially_succeeded = 4
status_code ScanRunStatus.succeeded = 5
status_code ScanRunStatus.completed = 6
status_code ScanRunStatus.cancelled = 7
status_code ScanRunStatus.blocked = 8
status_code ScanRunStatus.blocked_disabled = 9
status_code ScanRunStatus.not_configured = 10
status_code ScanRunStatus.auth_failed = 11
status_code ScanRunStatus.permission_denied = 12
status_code ScanRunStatus.partial_scan = 13
status_code ScanRunStatus.rate_limited = 14
status_code ScanRunStatus.failed = 15

pub status_code_injective : (a b : ScanRunStatus) → status_code a ≡ status_code b → a ≡ b
unfolding status_code
status_code_injective a b e = ground arith

instance abbrev pub status_eq : Comparable ScanRunStatus
status_eq = code_eq status_code status_code_injective

unfoldable pub run_status_code : RunStatus → ℕ
run_status_code RunStatus.queued = 0
run_status_code RunStatus.running = 1
run_status_code RunStatus.completed = 2
run_status_code RunStatus.failed = 3

pub run_status_code_injective : (a b : RunStatus) → run_status_code a ≡ run_status_code b → a ≡ b
unfolding run_status_code
run_status_code_injective a b e = ground arith

instance abbrev pub run_status_eq : Comparable RunStatus
run_status_eq = code_eq run_status_code run_status_code_injective

-- The columns that are tested or written; the JSON of `metadata` and `errorSummary` is left out.
pub record ScanRun : Type 0 where
  pub id : String
  pub organization_id : String
  pub status : ScanRunStatus
  pub queued_at : Option ℕ
  pub started_at : ℕ
  pub phase : Option String
  pub completed_at : Option ℕ
  pub failure_count : ℕ
  pub failure_classification : Option String
  pub error_code : Option String
  pub error_message : Option String

pub record MonitoringRun : Type 0 where
  pub id : String
  pub organization_id : String
  pub status : RunStatus
  pub started_at : ℕ
  pub completed_at : Option ℕ
  pub error_code : Option String

abbrev pub was_before : Option ℕ → ℕ → Bool
was_before none cutoff = false
was_before (some t) cutoff = ltb t cutoff

abbrev pub failure_code : Bool → String
failure_code was_queued = if was_queued then "QUEUE_JOB_LOST" else "WORKER_RUN_STALE"

-- The query of `reconcileStaleMonitoringRuns`, its conditional update, and what the update writes.
unfoldable pub is_stale_run : ℕ → ℕ → MonitoringRun → Bool
unfolding run_status_code
is_stale_run cutoff_queued cutoff_running r =
    r.status == RunStatus.queued && ltb r.started_at cutoff_queued
    || r.status == RunStatus.running && ltb r.started_at cutoff_running

unfoldable pub is_run_as_read : MonitoringRun → MonitoringRun → Bool
is_run_as_read candidate r =
    r.id == candidate.id
    && (r.organization_id == candidate.organization_id
        && (r.status == candidate.status && r.started_at == candidate.started_at))

unfoldable pub fail_run : ℕ → MonitoringRun → MonitoringRun → MonitoringRun
fail_run now candidate r = record r {
  status = RunStatus.failed;
  completed_at = some now;
  error_code = some (failure_code (candidate.status == RunStatus.queued));
}

-- The same of `reconcileStaleInventoryScans`.
unfoldable pub is_stale_scan : ℕ → ℕ → ScanRun → Bool
unfolding status_code
is_stale_scan cutoff_queued cutoff_running r =
    r.status == ScanRunStatus.queued && was_before r.queued_at cutoff_queued
    || r.status == ScanRunStatus.running && ltb r.started_at cutoff_running

unfoldable pub is_scan_as_read : ScanRun → ScanRun → Bool
unfolding status_code
is_scan_as_read candidate r =
    let queued_ = candidate.status == ScanRunStatus.queued in
    r.id == candidate.id
    && (r.organization_id == candidate.organization_id
        && (r.status == candidate.status
            && ((if queued_ && is_some candidate.queued_at
                  then option_beq r.queued_at candidate.queued_at
                  else true)
                && (if queued_ then true else r.started_at == candidate.started_at))))

abbrev pub scan_message : ScanRunStatus → String
scan_message status =
    if status == ScanRunStatus.queued
    then "Inventory scan remained in QUEUED state past the safe cutoff threshold."
    else "Inventory scan remained in RUNNING state past the safe cutoff threshold."

unfoldable pub fail_scan : ℕ → ScanRun → ScanRun → ScanRun
fail_scan now candidate r = record r {
  status = ScanRunStatus.failed;
  phase = some "reconciled_stale";
  completed_at = some now;
  failure_count = suc r.failure_count;
  failure_classification = some (failure_code (candidate.status == ScanRunStatus.queued));
  error_code = some (failure_code (candidate.status == ScanRunStatus.queued));
  error_message = some (scan_message candidate.status);
}

-- The thresholds and the limit, as the worker sets them.
abbrev pub monitoring_threshold : ℕ
monitoring_threshold = 15 * 60 * 1000

abbrev pub inventory_queued_threshold : ℕ
inventory_queued_threshold = 30 * 60 * 1000

abbrev pub inventory_running_threshold : ℕ
inventory_running_threshold = 2 * 60 * 60 * 1000

abbrev pub global_batch_limit : ℕ
global_batch_limit = 100

abbrev pub is_stale_monitoring : ℕ → MonitoringRun → Bool
is_stale_monitoring now = is_stale_run (now - monitoring_threshold) (now - monitoring_threshold)

abbrev pub is_stale_inventory : ℕ → ScanRun → Bool
is_stale_inventory now =
    is_stale_scan (now - inventory_queued_threshold) (now - inventory_running_threshold)

pub record Outcome : Type 0 where
  pub monitoring : Reconciled MonitoringRun
  pub inventory : Reconciled ScanRun

-- `runStartupReconciliation`. What other processes write before each update is a function on the table.
unfoldable pub run_startup_reconciliation :
    (List MonitoringRun → List MonitoringRun)
    → (List ScanRun → List ScanRun)
    → ℕ
    → List MonitoringRun
    → List ScanRun
    → Outcome
run_startup_reconciliation other_runs other_scans now runs scans = record {
  monitoring =
      reconcile_stale is_run_as_read (fail_run now) other_runs (is_stale_monitoring now)
        global_batch_limit runs;
  inventory =
      reconcile_stale is_scan_as_read (fail_scan now) other_scans (is_stale_inventory now)
        global_batch_limit scans;
}
