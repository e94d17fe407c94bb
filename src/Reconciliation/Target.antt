-- ===== src/Reconciliation/Target.antt =====
-- The target of a reconciliation (apps/worker/src/mutation-reconciliation.ts,
-- `validateReconciliationTarget`). `payload_failure` and the payload's fields stand for the result of
-- `parseApprovedRequestedTags`.
use cloudshield_enterprise.Prelude.{
  String, ◌≡◌, not, ◌&&◌, Option, none, some, ◌==◌, string_eq, option_beq, option_beq_iff, arith,
  eq_iff, sym, inl, inr, Option-cases,
}
use cloudshield_enterprise.Governance.Types.{
  Operation, RequestStatus, operation_eq, request_status_eq,
}
use cloudshield_enterprise.Governance.Plan.{Plan, ApprovalRequest}
use cloudshield_enterprise.Governance.Queue.{◌or_else◌, refuse_if, is_blank}

pub record TargetRow : Type 0 where
  pub organization_id : String
  pub resource_id : String
  pub region : String

pub record Target : Type 0 where
  pub resource : Option TargetRow
  pub account_organization_id : Option String
  pub payload_failure : Option String
  pub payload_resource_id : String
  pub payload_region : String
  pub approval : Option ApprovalRequest

abbrev tenant_failure : String → Option TargetRow → Option String
tenant_failure organization none = some "Resource tenant validation failed."
tenant_failure organization (some r) =
    refuse_if (not (r.organization_id == organization)) "Resource tenant validation failed."

abbrev authority_failure : Target → Option TargetRow → Option String
authority_failure t none = some "Resource tenant validation failed."
authority_failure t (some r) =
    refuse_if (not (t.payload_resource_id == r.resource_id && t.payload_region == r.region))
      "Approved target no longer matches the authoritative plan."

abbrev approval_failure : {Json : Type 0} → Plan Json → Option ApprovalRequest → Option String
approval_failure plan none = some "Exact approval binding is unavailable."
approval_failure plan (some a) =
    refuse_if (is_blank plan.approved_by_request_id) "Exact approval binding is unavailable."
    or_else refuse_if (not (option_beq (some a.id) plan.approved_by_request_id))
        "Exact approval binding is unavailable."
    or_else refuse_if (not (a.remediation_plan_id == plan.id)) "Approval plan binding is invalid."
    or_else refuse_if (not (a.organization_id == plan.organization_id))
        "Approval tenant binding is invalid."
    or_else refuse_if (not (a.status == RequestStatus.approved)) "Approval is not approved."

unfoldable pub validate_reconciliation_target : {Json : Type 0} → Target → Plan Json → Option String
validate_reconciliation_target t plan =
    refuse_if
      (not (option_beq plan.allowlisted_operation (some Operation.ec2_apply_governance_tags)))
      "Unsupported operation requires manual review."
    or_else tenant_failure plan.organization_id t.resource
    or_else refuse_if (not (option_beq t.account_organization_id (some plan.organization_id)))
        "AWS account tenant validation failed."
    or_else t.payload_failure
    or_else authority_failure t t.resource
    or_else approval_failure plan t.approval

module _ {Json : Type 0} (t : Target) (plan : Plan Json) where
  -- The approved request that a reconciled plan is bound to.
  pub record IsApprovedTarget : Type 0 where
    pub resource : TargetRow
    pub approval : ApprovalRequest
    pub resource_found : t.resource ≡ some resource
    pub approval_found : t.approval ≡ some approval
    pub resource_tenant : resource.organization_id ≡ plan.organization_id
    pub account_tenant : t.account_organization_id ≡ some plan.organization_id
    pub same_resource : t.payload_resource_id ≡ resource.resource_id
    pub same_region : t.payload_region ≡ resource.region
    pub bound : plan.approved_by_request_id ≡ some approval.id
    pub of_plan : approval.remediation_plan_id ≡ plan.id
    pub approval_tenant : approval.organization_id ≡ plan.organization_id
    pub approved : approval.status ≡ RequestStatus.approved

  -- If a target passes its validation, then its resource, account and approval request are of the plan's
  -- tenant, the payload names that resource and its region, and the request is approved, of that plan, and
  -- the one that the plan is bound to.
  pub validated-IsApprovedTarget : validate_reconciliation_target t plan ≡ none → IsApprovedTarget
  unfolding validate_reconciliation_target
  validated-IsApprovedTarget e = elim (Option-cases t.resource) [
    | inl absent ↦ absurd (ground (arith, absent))
    | inr (r, found) ↦ elim (Option-cases t.approval) [
      | inl absent ↦ absurd (ground (arith, absent))
      | inr (a, known) ↦ record {
        resource = r;
        approval = a;
        resource_found = found;
        approval_found = known;
        resource_tenant = ground (arith, eq_iff r.organization_id plan.organization_id);
        account_tenant =
            (option_beq_iff t.account_organization_id (some plan.organization_id)).0 (ground arith);
        same_resource = ground (arith, eq_iff t.payload_resource_id r.resource_id);
        same_region = ground (arith, eq_iff t.payload_region r.region);
        bound = sym ((option_beq_iff (some a.id) plan.approved_by_request_id).0 (ground arith));
        of_plan = ground (arith, eq_iff a.remediation_plan_id plan.id);
        approval_tenant = ground (arith, eq_iff a.organization_id plan.organization_id);
        approved = ground (arith, request_status_eq.same_iff a.status RequestStatus.approved);
      }
    ]
  ]
