-- ===== src/Monitoring/Health.antt =====
-- The health of monitoring (packages/security-monitoring/src/monitoring-health.service.ts), without the
-- texts of its messages.
use cloudshield_enterprise.Prelude.{
  ℕ, ◌≡◌, ◌↔◌, ◌<◌, Bool, false, ◌||◌, if◌then◌else◌, ◌==◌, nat_eq, ltb, arith,
}

pub data HealthStatus : Type 0 where
  disabled setup_incomplete insufficient_data failed stale degraded healthy : HealthStatus

pub record MonitoringHealthInput : Type 0 where
  pub active_monitors_count : ℕ
  pub total_accounts_count : ℕ
  pub scanned_accounts_count : ℕ
  pub stale_accounts_count : ℕ
  pub open_critical_alerts_count : ℕ
  pub open_high_alerts_count : ℕ
  pub degraded_accounts_count : ℕ
  pub last_run_failed : Bool

pub record MonitoringHealth : Type 0 where
  pub status : HealthStatus
  pub open_critical_alerts : ℕ
  pub open_high_alerts : ℕ
  pub stale_accounts : ℕ
  pub monitored_accounts : ℕ
  pub degraded_accounts : ℕ

-- `calculate`
unfoldable pub calculate : MonitoringHealthInput → MonitoringHealth
calculate input = record {
  status =
      if input.active_monitors_count == 0
      then HealthStatus.disabled
      else if input.total_accounts_count == 0
      then HealthStatus.setup_incomplete
      else if input.scanned_accounts_count == 0
      then HealthStatus.insufficient_data
      else if input.last_run_failed
      then HealthStatus.failed
      else if ltb 0 input.stale_accounts_count
      then HealthStatus.stale
      else if ltb 0 input.open_critical_alerts_count || ltb 0 input.degraded_accounts_count
      then HealthStatus.degraded
      else HealthStatus.healthy;
  open_critical_alerts = input.open_critical_alerts_count;
  open_high_alerts = input.open_high_alerts_count;
  stale_accounts = input.stale_accounts_count;
  monitored_accounts = input.total_accounts_count;
  degraded_accounts = input.degraded_accounts_count;
}

-- Monitoring is reported as healthy exactly when something is monitored, an account has been scanned, the
-- last run did not fail, and the report itself counts no stale account, no degraded account and no open
-- critical alert.
pub healthy_iff :
    (input : MonitoringHealthInput)
    → ((calculate input).status ≡ HealthStatus.healthy) ↔ (
        (0 < input.active_monitors_count)
        × (0 < (calculate input).monitored_accounts)
        × (0 < input.scanned_accounts_count)
        × (input.last_run_failed ≡ false)
        × ((calculate input).stale_accounts ≡ 0)
        × ((calculate input).open_critical_alerts ≡ 0)
        × ((calculate input).degraded_accounts ≡ 0))
unfolding calculate
healthy_iff input = (
  λ h. (
    ground arith,
    ground arith,
    ground arith,
    ground arith,
    ground arith,
    ground arith,
    ground arith,
  ),
  λ h. ground arith,
)
