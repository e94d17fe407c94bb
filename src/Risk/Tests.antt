-- ===== src/Risk/Tests.antt =====
-- Witnesses.
use cloudshield_enterprise.Prelude.{◌≡◌, ◌↔◌, true, false, none, some}
use cloudshield_enterprise.Risk.{
  AcceptedFinding, is_risk_acceptance_active, is_risk_acceptance_expired,
}
use cloudshield_enterprise.Risk.Laws.{is_accepted, is_live, active_iff}

abbrev accepted : AcceptedFinding
accepted = record { archived_at = none; is_risk_accepted = true }

active_iff_example : (is_risk_acceptance_active (some 5000) (some accepted) none 1000 ≡ true) ↔ (
    (is_risk_acceptance_expired (some 5000) 1000 ≡ false)
    × (is_accepted (some accepted) ≡ true)
    × (is_live none ≡ true))
active_iff_example = active_iff (some 5000) (some accepted) none 1000
