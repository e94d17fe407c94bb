-- ===== src/Startup/Laws.antt =====
-- What the start-up reconciliation does to the two tables.
use cloudshield_enterprise.Prelude.{
  ℕ, ◌≡◌, refl, ◌≤◌, true, false, List, map, filter, All, length, if◌then◌else◌, string_eq, nat_eq,
  nat_beq_iff, option_beq_iff, arith, eq_iff,
}
use cloudshield_enterprise.Startup.Batch.{reconcile_stale-rows, reconcile_stale-All}
use cloudshield_enterprise.Startup.{
  ScanRun, MonitoringRun, status_code, status_eq, run_status_code, run_status_eq, is_stale_run,
  is_run_as_read, fail_run, is_stale_scan, is_scan_as_read, fail_scan, is_stale_monitoring,
  is_stale_inventory, global_batch_limit, run_startup_reconciliation,
}

module _ (queued running : ℕ) where
  run_still :
      (c r : MonitoringRun)
      → is_stale_run queued running c ≡ true
      → is_run_as_read c r ≡ true
      → is_stale_run queued running r ≡ true
  unfolding is_stale_run is_run_as_read
  run_still c r h k =
      ground (arith, nat_beq_iff (run_status_code r.status) (run_status_code c.status))

  run_settled :
      (now : ℕ) (c r : MonitoringRun) → is_stale_run queued running (fail_run now c r) ≡ false
  unfolding is_stale_run fail_run run_status_code
  run_settled now c r = refl

  scan_still :
      (c r : ScanRun)
      → is_stale_scan queued running c ≡ true
      → is_scan_as_read c r ≡ true
      → is_stale_scan queued running r ≡ true
  unfolding is_stale_scan is_scan_as_read
  scan_still c r h k = ground (arith, option_beq_iff r.queued_at c.queued_at)

  scan_settled :
      (now : ℕ) (c r : ScanRun) → is_stale_scan queued running (fail_scan now c r) ≡ false
  unfolding is_stale_scan fail_scan status_code
  scan_settled now c r = refl

run_itself : (r : MonitoringRun) → is_run_as_read r r ≡ true
unfolding is_run_as_read
run_itself r = ground (arith, (eq_iff r.id r.id).1, (eq_iff r.organization_id r.organization_id).1)

scan_itself : (r : ScanRun) → is_scan_as_read r r ≡ true
unfolding is_scan_as_read
scan_itself r = ground (
  arith,
  (eq_iff r.id r.id).1,
  (eq_iff r.organization_id r.organization_id).1,
  (option_beq_iff r.queued_at r.queued_at).1,
)

run_alike :
    (now : ℕ) (c r : MonitoringRun)
    → is_run_as_read c r ≡ true
    → fail_run now c r ≡ fail_run now r r
unfolding is_run_as_read fail_run
run_alike now c r h = ground arith

scan_alike :
    (now : ℕ) (c r : ScanRun) → is_scan_as_read c r ≡ true → fail_scan now c r ≡ fail_scan now r r
unfolding is_scan_as_read fail_scan
scan_alike now c r h = ground arith

-- Where at most 100 rows of each table are stale and nobody else writes, the start-up reconciliation sets
-- exactly the stale rows to FAILED, and leaves every other row as it is.
pub run_startup-fails_stale :
    (now : ℕ) (runs : List MonitoringRun) (scans : List ScanRun)
    → length (filter (is_stale_monitoring now) runs) ≤ global_batch_limit
    → length (filter (is_stale_inventory now) scans) ≤ global_batch_limit
    → ((run_startup_reconciliation (λ rs. rs) (λ rs. rs) now runs scans).monitoring.rows
        ≡ map (λ r. if is_stale_monitoring now r then fail_run now r r else r) runs)
      × ((run_startup_reconciliation (λ rs. rs) (λ rs. rs) now runs scans).inventory.rows
          ≡ map (λ r. if is_stale_inventory now r then fail_scan now r r else r) scans)
unfolding run_startup_reconciliation
run_startup-fails_stale now runs scans h k = (
  reconcile_stale-rows (is_stale_monitoring now) is_run_as_read (fail_run now) (run_still _ _)
      run_itself (run_settled _ _ now) (run_alike now) global_batch_limit runs h,
  reconcile_stale-rows (is_stale_inventory now) is_scan_as_read (fail_scan now) (scan_still _ _)
      scan_itself (scan_settled _ _ now) (scan_alike now) global_batch_limit scans k,
)

-- Whatever other processes write before each update: what they keep of all rows of the scans, and what
-- the failing of a row that is stale at that time keeps, holds of all rows after the reconciliation.
pub run_startup-AllScans :
    (P : ScanRun → Type 0) (other_runs : List MonitoringRun → List MonitoringRun)
    (others : List ScanRun → List ScanRun) (now : ℕ) (runs : List MonitoringRun)
    (scans : List ScanRun)
    → ((rows : List ScanRun) → All P rows → All P (others rows))
    → ((c r : ScanRun) → is_stale_inventory now r ≡ true → P r → P (fail_scan now c r))
    → All P scans
    → All P (run_startup_reconciliation other_runs others now runs scans).inventory.rows
unfolding run_startup_reconciliation
run_startup-AllScans P other_runs others now runs scans keep fails h =
    reconcile_stale-All (is_stale_inventory now) is_scan_as_read (fail_scan now) (scan_still _ _)
      scan_itself (scan_settled _ _ now) (scan_alike now) P others keep fails global_batch_limit
      scans h
