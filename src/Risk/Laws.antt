-- ===== src/Risk/Laws.antt =====
-- The two tests of an acceptance, compared.
use cloudshield_enterprise.Prelude.{
  ℕ, ◌≡◌, ◌↔◌, Bool, true, false, not, ◌&&◌, Option, none, some, arith, is_some,
}
use cloudshield_enterprise.Risk.{
  AcceptedFinding, AcceptedResource, risk_acceptance_expiry_state, is_risk_acceptance_active,
  is_risk_acceptance_expired,
}

-- Whether a finding that is passed is neither archived nor in another state than accepted.
abbrev pub is_accepted : Option AcceptedFinding → Bool
is_accepted none = true
is_accepted (some f) = not (is_some f.archived_at) && f.is_risk_accepted

abbrev pub is_live : Option AcceptedResource → Bool
is_live none = true
is_live (some r) = not (is_some r.archived_at) && not (is_some r.stale_at)

-- An acceptance is active exactly when it has not expired and neither the finding, if one is passed, is
-- archived or in another state, nor the resource, if one is passed, is archived or stale.
pub active_iff :
    (acceptance : Option ℕ) (finding : Option AcceptedFinding) (resource : Option AcceptedResource)
    (now : ℕ)
    → (is_risk_acceptance_active acceptance finding resource now ≡ true) ↔ (
        (is_risk_acceptance_expired acceptance now ≡ false)
        × (is_accepted finding ≡ true)
        × (is_live resource ≡ true))
unfolding is_risk_acceptance_active risk_acceptance_expiry_state is_risk_acceptance_expired
active_iff none finding resource now = ground arith
active_iff (some e) none none now = ground arith
active_iff (some e) none (some r) now = ground arith
active_iff (some e) (some f) none now = ground arith
active_iff (some e) (some f) (some r) now = ground arith
