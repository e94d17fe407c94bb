-- ===== src/Scenario.antt =====
-- A concrete backend and sample rows, on which the witnesses of the theorems run.
use text.Mathlib.TextPositions.{eq_refl}
use cloudshield_enterprise.Prelude.{
  String, ◌≡◌, refl, Bool, true, false, ◌&&◌, Option, none, some, List, [], ◌∷◌, All, if◌then◌else◌,
  ◌==◌, string_eq, arith, eq_iff,
}
use cloudshield_enterprise.Store.Rows.{Holds, Every}
use cloudshield_enterprise.Store.Model.{Rows, rows, under}
use cloudshield_enterprise.Governance.Types.{
  Operation, LifecycleState, ApprovalStatus, ExecutionStatus, MutationOutcome, RequestStatus,
  request_status_eq,
}
use cloudshield_enterprise.Governance.Plan.{Plan, ApprovalRequest, ActorContext}
use cloudshield_enterprise.Governance.Backend.{Backend, IsPendingFor, Database}

abbrev plan_key : Plan String → String
plan_key p = p.id

abbrev approval_key : ApprovalRequest → String
approval_key a = a.id

abbrev pub is_pending_for : String → String → ApprovalRequest → Bool
is_pending_for organization plan a =
    a.organization_id == organization
    && (a.remediation_plan_id == plan && a.status == RequestStatus.pending)

-- The one request that the scenarios store.
abbrev pub pending_rows : Rows ApprovalRequest → String → String → List ApprovalRequest
pending_rows s organization plan = elim (under approval_key "request-1" (s "request-1")) [
  | none ↦ []
  | some a ↦ if is_pending_for organization plan a then a ∷ [] else []
]

pub pending_one :
    (o : Option ApprovalRequest) (organization plan : String)
    → All (IsPendingFor organization plan) (elim o as (λ _. List ApprovalRequest) [
      | none ↦ []
      | some a ↦ if is_pending_for organization plan a then a ∷ [] else []
    ])
pending_one none organization plan = tt
pending_one (some a) organization plan = go (is_pending_for organization plan a) refl
  where
    go :
        (c : Bool)
        → is_pending_for organization plan a ≡ c
        → All (IsPendingFor organization plan) (if c then a ∷ [] else [])
    go false e = tt
    go true e = (
      record {
        tenant = ground (arith, eq_iff a.organization_id organization);
        of_plan = ground (arith, eq_iff a.remediation_plan_id plan);
        is_pending = ground (arith, request_status_eq.same_iff a.status RequestStatus.pending);
      },
      tt,
    )

abbrev create_row : Rows ApprovalRequest → ApprovalRequest → Rows ApprovalRequest
create_row s a j = if a.id == j then some a else s j

pub find-create_row :
    (s : Rows ApprovalRequest) (a : ApprovalRequest)
    → under approval_key a.id (create_row s a a.id) ≡ some a
find-create_row s a = rw (eq_refl a.id, eq_refl a.id) refl

abbrev pub backend : Backend
backend = record {
  Json = String;
  plans = rows (Plan String) plan_key;
  approvals = rows ApprovalRequest approval_key;
  first_with_key = λ s organization key where_. none;
  pending = pending_rows;
  pending_sound = λ s organization plan.
      pending_one (under approval_key "request-1" (s "request-1")) organization plan;
  create = create_row;
  find-create = find-create_row;
  rollback_document = λ d. d;
  payload_hash = λ input. "digest";
}

abbrev pub approved_plan : Plan String
approved_plan = record {
  id = "plan-1";
  organization_id = "org-1";
  finding_id = "finding-1";
  resource_id = some "resource-1";
  created_by_id = "author";
  approval_status = ApprovalStatus.approved;
  execution_status = ExecutionStatus.ready_for_execution;
  execution_mode = "simulation";
  lifecycle_state = LifecycleState.approved;
  allowlisted_operation = some Operation.ec2_apply_governance_tags;
  confirmation_token_required = some "CONFIRM";
  requested_action = "";
  normalized_payload = "";
  before_state = "";
  expected_after_state = "";
  rollback_payload = "";
  blocked_reason = none;
  failure_classification = none;
  idempotency_key = some "key-1";
  aws_request_id = none;
  approval_expires_at = some 5000;
  simulated_at = some 10;
  queued_at = none;
  execution_started_at = none;
  execution_completed_at = none;
  rollback_available_at = none;
  mutation_outcome = some MutationOutcome.not_attempted;
  mutation_attempted_at = none;
  mutation_confirmed_at = none;
  mutation_provider_request_id = none;
  reconciliation_status = none;
  reconciliation_attempt_count = 0;
  last_reconciliation_at = none;
  next_reconciliation_at = none;
  manual_review_reason = none;
  execution_lease_started_at = none;
  approved_by_id = some "checker";
  approved_by_request_id = some "request-1";
  updated_at = 100;
}

abbrev pub approved_request : ApprovalRequest
approved_request = record {
  id = "request-1";
  organization_id = "org-1";
  remediation_plan_id = "plan-1";
  requested_by_id = "author";
  approved_by_id = some "checker";
  status = RequestStatus.approved;
  decision_reason = some "ok";
  expected_impact = some "tags";
  confirmation_token = some "CONFIRM";
  payload_hash = some "digest";
  expires_at = some 5000;
  decided_at = some 90;
}

abbrev pub holding : Plan String → ApprovalRequest → Database backend
holding p a = record {
  plans = λ id. if id == "plan-1" then some p else none;
  approvals = λ id. if id == "request-1" then some a else none;
  audits = [];
  jobs = [];
}

abbrev pub operator : ActorContext
operator = record { organization_id = "org-1"; user_id = "operator" }

module _ (P : Plan String → Type 0) (p : Plan String) (h : P p) where
  Holds-if : (c : Bool) → Holds P (if c then some p else none)
  Holds-if true = h
  Holds-if false = tt

  Holds-under : (j : String) (c : Bool) → Holds P (under plan_key j (if c then some p else none))
  Holds-under j false = tt
  Holds-under j true = Holds-if (p.id == j)

  pub holding-Every : (a : ApprovalRequest) → Every P backend.plans (holding p a).plans
  holding-Every a j = Holds-under j (j == "plan-1")
