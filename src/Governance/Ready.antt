-- ===== src/Governance/Ready.antt =====
-- What a plan that reaches the execution queue has passed.
use cloudshield_enterprise.Prelude.{
  String, ℕ, ◌≡◌, ◌≢◌, ◌⊎◌, inl, inr, refl, Bool, true, false, Option, none, some, ◌==◌, string_eq,
  arith, eq_iff, Option-cases, Bool-cases, option_beq_iff,
}
use cloudshield_enterprise.Accounts.{
  AwsAccount, assert_governance_target_operationally_active, active_aws_account_relation_where,
}
use cloudshield_enterprise.Accounts.Laws.{guard_iff}
use cloudshield_enterprise.Governance.Types.{
  Mode, LifecycleState, ApprovalStatus, MutationOutcome, RequestStatus, mode_eq, lifecycle_state_eq,
  request_status_eq, approval_status_eq, mutation_outcome_eq,
}
use cloudshield_enterprise.Governance.Plan.{ApprovalRequest, ActorContext}
use cloudshield_enterprise.Governance.Backend.{Backend, Database, StoredPlan, find_plan}
use cloudshield_enterprise.Governance.Approval.{
  is_past, blocked_mutation, non_mutating_blocked_decision,
}
use cloudshield_enterprise.Governance.Queue.{
  Target, GovernedExecuteRequest, ◌or_else◌, bound_request, bound_approval_failure, account_failure,
  validate_execution_ready, queue_execution,
}

or_else-none : (a c : Option String) → (a or_else c) ≡ none → (a ≡ none) × (c ≡ none)
or_else-none a c h = ground arith

module _ (b : Backend) (evidence_failure : ApprovalRequest → Option String) where
  -- A request that the plan may run under.
  pub record IsBinding (plan : StoredPlan b) (now : ℕ) (r : ApprovalRequest) : Type 0 where
    pub of_plan : r.remediation_plan_id ≡ plan.id
    pub tenant : r.organization_id ≡ plan.organization_id
    pub is_approved : r.status ≡ RequestStatus.approved
    pub current : is_past r.expires_at now ≡ false
    pub maker_checker : r.approved_by_id ≢ some r.requested_by_id
    pub captured : evidence_failure r ≡ none

  bound_none :
      (plan : StoredPlan b) (o : Option ApprovalRequest) (now : ℕ)
      → bound_approval_failure b evidence_failure plan o now ≡ none
      → (r : ApprovalRequest) × (o ≡ some r) × IsBinding plan now r
  unfolding bound_approval_failure
  bound_none plan none now h = cc
  bound_none plan (some r) now h = (
    r,
    refl,
    record {
      of_plan = ground (arith, eq_iff r.remediation_plan_id plan.id);
      tenant = ground (arith, eq_iff r.organization_id plan.organization_id);
      is_approved = ground (arith, request_status_eq.same_iff r.status RequestStatus.approved);
      current = ground arith;
      maker_checker = λ e. ground (arith, (eq_iff r.requested_by_id r.requested_by_id).1 refl);
      captured = ground arith;
    },
  )

  -- What `validateExecutionReady` establishes when it finds no reason to refuse.
  pub record IsAuthorised (mode : Mode) (plan : StoredPlan b) (target : Target)
      (bound : Option ApprovalRequest) (now : ℕ) : Type 0 where
    pub is_approved : plan.lifecycle_state ≡ LifecycleState.approved
    pub approval : plan.approval_status ≡ ApprovalStatus.approved
    pub untouched : plan.mutation_outcome ≡ some MutationOutcome.not_attempted
    pub mode_allows : (mode ≡ Mode.simulation) ⊎ (mode ≡ Mode.staging)
    pub binding : (r : ApprovalRequest) × (bound ≡ some r) × IsBinding plan now r
    pub account :
        (a : AwsAccount) × (target.aws_account ≡ some a)
        × (active_aws_account_relation_where a ≡ true)
        × (a.change_execution_enabled ≡ true)
        × (a.organization_change_execution_enabled ≡ true)
        × (mode ≡ Mode.staging → (a.environment ≡ "staging") ⊎ (a.environment ≡ "sandbox"))
    pub current : is_past plan.approval_expires_at now ≡ false

  account_none :
      (mode : Mode) (o : Option AwsAccount)
      → assert_governance_target_operationally_active o ≡ none
      → account_failure b evidence_failure mode o ≡ none
      → (a : AwsAccount) × (o ≡ some a)
        × (active_aws_account_relation_where a ≡ true)
        × (a.change_execution_enabled ≡ true)
        × (a.organization_change_execution_enabled ≡ true)
        × (mode ≡ Mode.staging → (a.environment ≡ "staging") ⊎ (a.environment ≡ "sandbox"))
  unfolding account_failure
  account_none mode none g h = cc
  account_none mode (some a) g h =
      let (a', same, active) = (guard_iff (some a)).0 g in
      (
        a,
        refl,
        ground (arith, same, active),
        ground arith,
        ground arith,
        λ e. ground (
          arith,
          mode_eq.same_iff mode Mode.staging,
          eq_iff a.environment "staging",
          eq_iff a.environment "sandbox",
        ),
      )

  allows :
      (mode : Mode)
      → mode ≢ Mode.disabled
      → mode ≢ Mode.production
      → (mode ≡ Mode.simulation) ⊎ (mode ≡ Mode.staging)
  allows mode h k = ground arith

  pub ready-IsAuthorised :
      (mode : Mode) (plan : StoredPlan b) (target : Target) (bound : Option ApprovalRequest)
      (body : GovernedExecuteRequest) (now : ℕ)
      → validate_execution_ready b evidence_failure mode plan target bound body now ≡ none
      → IsAuthorised mode plan target bound now
  unfolding validate_execution_ready
  ready-IsAuthorised mode plan target bound body now h = record {
    is_approved =
        ground (arith, lifecycle_state_eq.same_iff plan.lifecycle_state LifecycleState.approved);
    approval =
        ground (arith, approval_status_eq.same_iff plan.approval_status ApprovalStatus.approved);
    untouched =
        (option_beq_iff plan.mutation_outcome (some MutationOutcome.not_attempted)).0
          (ground arith);
    mode_allows =
        allows mode (ground (arith, mode_eq.same_iff mode Mode.disabled))
          (ground (arith, mode_eq.same_iff mode Mode.production));
    binding = bound_none plan bound now (ground arith);
    account = account_none mode target.aws_account (ground arith) (ground arith);
    current = ground arith;
  }

  pub jobs-blocked :
      (db : Database b) (actor : ActorContext) (plan : StoredPlan b) (reason : String) (now : ℕ)
      → (blocked_mutation b db actor plan reason now).0.jobs ≡ db.jobs
  unfolding blocked_mutation
  jobs-blocked db actor plan reason now = refl

  pub jobs-non_mutating :
      (db : Database b) (actor : ActorContext) (plan : StoredPlan b) (reason : String)
      → (non_mutating_blocked_decision b db actor plan reason).0.jobs ≡ db.jobs
  unfolding non_mutating_blocked_decision
  jobs-non_mutating db actor plan reason = refl

  refused_not_queued :
      (others later : Database b → Database b) (mode : Mode) (target : StoredPlan b → Target)
      (db : Database b) (actor : ActorContext) (plan_id : String) (body : GovernedExecuteRequest)
      (correlation_id : String) (accepted : Bool) (now : ℕ) (plan : StoredPlan b) (reason : String)
      → find_plan b db actor plan_id ≡ some plan
      → validate_execution_ready b evidence_failure mode plan
          (target plan)
          (bound_request b db plan)
          body
          now
        ≡ some reason
      → (queue_execution b evidence_failure others later mode target db actor plan_id body
          correlation_id accepted now).0.jobs
        ≡ db.jobs
  unfolding queue_execution
  refused_not_queued others later mode target db actor plan_id body correlation_id accepted now plan
        reason found refused =
      rw (found, queue_execution)
        (elim (Bool-cases (plan.lifecycle_state == LifecycleState.approved)) [
          | inl e ↦ rw (e, refused) (jobs-blocked db actor plan reason now)
          | inr e ↦ rw e (jobs-non_mutating db actor plan _)
        ])

  -- If a queue request adds a job, whatever other processes write meanwhile, then the plan that it
  -- read is the tenant's, approved, without any mutation attempt and unexpired; it is bound to an
  -- approved, unexpired request of the same plan and tenant whose approver is not its requester; the
  -- account is active and enabled for changes; and the mode is simulation, or staging on a staging
  -- or sandbox account.
  pub queued-IsAuthorised :
      (others later : Database b → Database b) (mode : Mode) (target : StoredPlan b → Target)
      (db : Database b) (actor : ActorContext) (plan_id : String) (body : GovernedExecuteRequest)
      (correlation_id : String) (accepted : Bool) (now : ℕ)
      → (queue_execution b evidence_failure others later mode target db actor plan_id body
          correlation_id accepted now).0.jobs
        ≢ db.jobs
      → (plan : StoredPlan b) × (find_plan b db actor plan_id ≡ some plan)
        × IsAuthorised mode plan (target plan) (bound_request b db plan) now
  unfolding queue_execution
  queued-IsAuthorised others later mode target db actor plan_id body correlation_id accepted now
        added =
      elim (Option-cases (find_plan b db actor plan_id)) [
        | inl absent ↦ absurd (added (rw (absent, queue_execution) refl))
        | inr (plan, found) ↦
            elim (Option-cases (
              validate_execution_ready b evidence_failure mode plan (target plan)
                (bound_request b db plan) body now)) [
                  | inl ready ↦ (
                    plan,
                    found,
                    ready-IsAuthorised mode plan (target plan) (bound_request b db plan) body now
                        ready,
                  )
                  | inr (reason, refused) ↦ absurd (
                      added (
                        refused_not_queued others later mode target db actor plan_id body
                          correlation_id accepted now plan reason found refused))
                ]
      ]
