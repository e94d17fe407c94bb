-- ===== src/Risk.antt =====
-- When an accepted risk still counts
-- (apps/backend/src/modules/risk-workflow/risk-acceptance.policy.ts). A finding or a resource that the
-- caller leaves out is `none`.
pub mod Laws
pub mod Matrix
pub mod Finding
pub mod Actions
pub mod Steps
pub mod Refines
pub mod Admitted
pub mod Consistent
pub mod Lost
mod WorkflowTests
pub mod Workflow
mod Tests
use cloudshield_enterprise.Prelude.{
  ℕ, ◌+◌, ◌*◌, Bool, true, false, not, ◌||◌, Option, none, some, if◌then◌else◌, leb, is_some,
}

pub data ExpiryState : Type 0 where
  active expiring_soon expired invalid_for_active_posture historical_only needs_review : ExpiryState

-- The fields of a finding that the policy reads.
pub record AcceptedFinding : Type 0 where
  pub archived_at : Option ℕ
  pub is_risk_accepted : Bool

pub record AcceptedResource : Type 0 where
  pub archived_at : Option ℕ
  pub stale_at : Option ℕ

abbrev pub review_window_ms : ℕ
review_window_ms = 14 * 24 * 60 * 60 * 1000

-- The state by the date alone; `expires_at - now <= window` is written as a sum.
abbrev pub state_by_date : ℕ → ℕ → ExpiryState
state_by_date expires_at now =
    if leb expires_at now
    then ExpiryState.expired
    else if leb expires_at (now + review_window_ms)
    then ExpiryState.expiring_soon
    else ExpiryState.active

abbrev pub state_by_resource : Option AcceptedResource → ExpiryState → ExpiryState
state_by_resource none otherwise = otherwise
state_by_resource (some r) otherwise =
    if is_some r.archived_at || is_some r.stale_at
    then ExpiryState.invalid_for_active_posture
    else otherwise

abbrev pub state_by_finding : Option AcceptedFinding → ExpiryState → ExpiryState
state_by_finding none otherwise = otherwise
state_by_finding (some f) otherwise =
    if is_some f.archived_at
    then ExpiryState.invalid_for_active_posture
    else if not f.is_risk_accepted
    then ExpiryState.historical_only
    else otherwise

-- The acceptance is its expiry date.
unfoldable pub risk_acceptance_expiry_state :
    Option ℕ → Option AcceptedFinding → Option AcceptedResource → ℕ → ExpiryState
risk_acceptance_expiry_state none finding resource now = ExpiryState.needs_review
risk_acceptance_expiry_state (some expires_at) finding resource now =
    state_by_finding finding (state_by_resource resource (state_by_date expires_at now))

abbrev pub counts : ExpiryState → Bool
counts ExpiryState.active = true
counts ExpiryState.expiring_soon = true
counts ExpiryState.expired = false
counts ExpiryState.invalid_for_active_posture = false
counts ExpiryState.historical_only = false
counts ExpiryState.needs_review = false

unfoldable pub is_risk_acceptance_active :
    Option ℕ → Option AcceptedFinding → Option AcceptedResource → ℕ → Bool
is_risk_acceptance_active acceptance finding resource now =
    counts (risk_acceptance_expiry_state acceptance finding resource now)

unfoldable pub is_risk_acceptance_expired : Option ℕ → ℕ → Bool
is_risk_acceptance_expired none now = true
is_risk_acceptance_expired (some expires_at) now = leb expires_at now
