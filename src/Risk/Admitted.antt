-- ===== src/Risk/Admitted.antt =====
-- Which requests an undisturbed handler applies.
use cloudshield_enterprise.Prelude.{
  ℕ, ◌≡◌, ◌↔◌, refl, ap, ◌∙◌, inl, inr, true, false, ◌||◌, Option, none, some, string_eq, nat_eq,
  arith, is_some, Option-cases, eq_iff,
}
use cloudshield_enterprise.Store.{Table, matches, counted}
use cloudshield_enterprise.Accounts.{assert_governance_target_operationally_active}
use cloudshield_enterprise.Risk.Matrix.{
  WorkflowStatus, ActionName, action_eq, risk_status_eq, is_transition_allowed, transition_matrix,
  action_code, normalize_workflow_status,
}
use cloudshield_enterprise.Risk.Finding.{
  ActorContext, RiskFinding, WorkflowInput, Relations, WorkflowReply,
}
use cloudshield_enterprise.Risk.Workflow.{
  Refusal, has_owner, is_as_read, write_workflow, precondition, assignment_refusal,
  validate_team_and_user, is_dead, missing_in, get_finding_record, owned_finding, settle,
  transaction, update_existing, update_workflow,
}
use cloudshield_enterprise.Risk.Actions.{Request, input_of, handle}
use cloudshield_enterprise.Risk.Steps.{Step, allowed-Step}
use cloudshield_enterprise.Risk.Refines.{Findings, settle-claimed, precondition-allows}

Step-allowed :
    (s t : WorkflowStatus) (action : ActionName)
    → Step s action t
    → is_transition_allowed s action ≡ true
unfolding is_transition_allowed transition_matrix action_code
Step-allowed s t _ (Step.acknowledge h) = ground arith
Step-allowed s t _ (Step.assign h) = ground arith
Step-allowed s t _ (Step.plan h) = ground arith
Step-allowed s t _ (Step.accept h) = ground arith
Step-allowed s t _ (Step.dismiss h k) = ground arith
Step-allowed s t _ (Step.resolve h) = ground arith
Step-allowed s t _ (Step.archive h) = ground arith
Step-allowed s t _ (Step.reopen h) = ground arith

module _ (relations : Relations) where
  -- What a request needs beyond its step: an owner and a live resource where a risk is accepted, a
  -- known team or user where a finding is assigned.
  abbrev pub Needs : ActorContext → RiskFinding → Request → Type 0
  Needs actor f Request.acknowledge_finding = Unit
  Needs actor f Request.mark_false_positive = Unit
  Needs actor f Request.resolve_finding = Unit
  Needs actor f Request.archive_finding = Unit
  Needs actor f Request.reopen_finding = Unit
  Needs actor f (Request.plan_remediation body) = Unit
  Needs actor f (Request.accept_risk body) =
      (is_dead (relations.resource f) ≡ false) × (has_owner f ≡ true)
  Needs actor f (Request.assign_finding body) =
      ((is_some body.owner_team_id || is_some body.assigned_to_user_id) ≡ true)
      × (missing_in (relations.has_team actor.organization_id) body.owner_team_id ≡ false)
      × (missing_in (relations.has_user actor.organization_id) body.assigned_to_user_id ≡ false)

  pub record IsAdmitted (actor : ActorContext) (f : RiskFinding) (request : Request) : Type 0 where
    pub operational : assert_governance_target_operationally_active (relations.aws_account f) ≡ none
    pub step :
        Step
          (normalize_workflow_status f.workflow_status)
          (input_of actor 0 request).action
          (input_of actor 0 request).status
    pub needs : Needs actor f request

  abbrev refusals : ActorContext → RiskFinding → WorkflowInput → Option Refusal × Option Refusal
  refusals actor f input =
      (precondition relations f input, assignment_refusal relations actor input)

  -- The tests that come after the guard and the matrix, for each request.
  needed :
      (actor : ActorContext) (f : RiskFinding) (at : ℕ) (request : Request)
      → refusals actor f (input_of actor at request) ≡ (none, none)
      → Needs actor f request
  unfolding precondition assignment_refusal validate_team_and_user input_of action_code
  needed actor f at Request.acknowledge_finding h = tt
  needed actor f at Request.mark_false_positive h = tt
  needed actor f at Request.resolve_finding h = tt
  needed actor f at Request.archive_finding h = tt
  needed actor f at Request.reopen_finding h = tt
  needed actor f at (Request.plan_remediation body) h = tt
  needed actor f at (Request.accept_risk body) h = (ground arith, ground arith)
  needed actor f at (Request.assign_finding body) h = (ground arith, ground arith, ground arith)

  unrefused :
      (actor : ActorContext) (f : RiskFinding) (at : ℕ) (request : Request)
      → assert_governance_target_operationally_active (relations.aws_account f) ≡ none
      → is_transition_allowed
          (normalize_workflow_status f.workflow_status)
          (input_of actor at request).action
        ≡ true
      → Needs actor f request
      → refusals actor f (input_of actor at request) ≡ (none, none)
  unfolding precondition assignment_refusal validate_team_and_user input_of action_code
  unrefused actor f at Request.acknowledge_finding g s h = ground arith
  unrefused actor f at Request.mark_false_positive g s h = ground arith
  unrefused actor f at Request.resolve_finding g s h = ground arith
  unrefused actor f at Request.archive_finding g s h = ground arith
  unrefused actor f at Request.reopen_finding g s h = ground arith
  unrefused actor f at (Request.plan_remediation body) g s h = ground arith
  unrefused actor f at (Request.accept_risk body) g s h = ground arith
  unrefused actor f at (Request.assign_finding body) g s h = ground arith

  guard_none :
      (f : RiskFinding) (input : WorkflowInput)
      → precondition relations f input ≡ none
      → assert_governance_target_operationally_active (relations.aws_account f) ≡ none
  unfolding precondition
  guard_none f input h = ground arith

  step_at :
      (actor : ActorContext) (s : WorkflowStatus) (at : ℕ) (request : Request)
      → Step s (input_of actor 0 request).action (input_of actor 0 request).status
      → is_transition_allowed s (input_of actor at request).action ≡ true
  unfolding input_of
  step_at actor s at Request.acknowledge_finding h = Step-allowed s _ _ h
  step_at actor s at Request.mark_false_positive h = Step-allowed s _ _ h
  step_at actor s at Request.resolve_finding h = Step-allowed s _ _ h
  step_at actor s at Request.archive_finding h = Step-allowed s _ _ h
  step_at actor s at Request.reopen_finding h = Step-allowed s _ _ h
  step_at actor s at (Request.plan_remediation body) h = Step-allowed s _ _ h
  step_at actor s at (Request.accept_risk body) h = Step-allowed s _ _ h
  step_at actor s at (Request.assign_finding body) h = Step-allowed s _ _ h

  action_at :
      (actor : ActorContext) (at : ℕ) (request : Request)
      → (input_of actor at request).action ≡ (input_of actor 0 request).action
  unfolding input_of
  action_at actor at request = ground arith

  pub unrefused_iff :
      (actor : ActorContext) (f : RiskFinding) (at : ℕ) (request : Request)
      → (refusals actor f (input_of actor at request) ≡ (none, none)) ↔ IsAdmitted actor f request
  unrefused_iff actor f at request = (
    λ h.
        let p : precondition relations f (input_of actor at request) ≡ none =
          ap (λ (r : Option Refusal × Option Refusal). r.0) h in
        record {
          operational = guard_none f (input_of actor at request) p;
          step = allowed-Step (normalize_workflow_status f.workflow_status) actor 0 request (
              rw (← action_at actor at request)
                (precondition-allows relations f (input_of actor at request) p));
          needs = needed actor f at request h;
        },
    λ a.
        unrefused actor f at request a.operational
          (step_at actor (normalize_workflow_status f.workflow_status) at request a.step) a.needs,
  )

module _ (relations : Relations) (findings : Table RiskFinding (λ f. f.id)) where
  as_read_self :
      (actor : ActorContext) (f : RiskFinding)
      → f.organization_id ≡ actor.organization_id
      → is_as_read actor f f ≡ true
  as_read_self actor f own = ground (
    arith,
    eq_iff f.organization_id actor.organization_id,
    risk_status_eq.same_iff f.status f.status,
    risk_status_eq.same_iff f.workflow_status f.workflow_status,
  )

  settle_iff :
      (db : Findings relations findings) (actor : ActorContext) (f : RiskFinding)
      (input : WorkflowInput) (now : ℕ) (refusal : Option Refusal)
      → findings.find db.findings f.id ≡ some f
      → is_as_read actor f f ≡ true
      → ((settle relations findings db actor f input now refusal true).1
          ≡ WorkflowReply.updated (write_workflow input now f))
        ↔ (refusal ≡ none)
  unfolding settle
  settle_iff db actor f input now (some e) found as_read = (λ h. cc, λ h. cc)
  settle_iff db actor f input now none found as_read = (
    λ h. refl,
    λ h. ap (λ r. r.1) (settle-claimed relations findings db actor f f input now found as_read),
  )

  transaction_iff :
      (db : Findings relations findings) (actor : ActorContext) (f : RiskFinding)
      (input : WorkflowInput) (now : ℕ)
      → findings.find db.findings f.id ≡ some f
      → f.organization_id ≡ actor.organization_id
      → ((transaction relations findings db actor f input now).1
          ≡ WorkflowReply.updated (write_workflow input now f))
        ↔ (assignment_refusal relations actor input ≡ none)
  unfolding transaction
  transaction_iff db actor f input now found own =
      let as_read = as_read_self actor f own in
      rw
        (counted findings db.findings f.id (is_as_read actor f)
          ∙ ap (matches (is_as_read actor f)) found
          ∙ as_read)
        (settle_iff db actor f input now (assignment_refusal relations actor input) found as_read)

  existing_iff :
      (db : Findings relations findings) (actor : ActorContext) (f : RiskFinding)
      (input : WorkflowInput) (now : ℕ)
      → findings.find db.findings f.id ≡ some f
      → f.organization_id ≡ actor.organization_id
      → ((update_existing relations findings (λ d. d) db actor input now (some f)).1
          ≡ WorkflowReply.updated (write_workflow input now f))
        ↔ (refusals relations actor f input ≡ (none, none))
  unfolding update_existing
  existing_iff db actor f input now found own =
      elim (Option-cases (precondition relations f input)) [
        | inr (e, refused) ↦ rw (refused, update_existing) (λ h. cc, λ h. cc)
        | inl passed ↦
            rw (passed, update_existing)
              (let (there, back) = transaction_iff db actor f input now found own in
                (
                  λ h. ap (λ (o : Option Refusal). (none, o)) (there h),
                  λ h. back (ap (λ r. r.1) h),
                ))
      ]

  -- An undisturbed request for a finding of the actor's organisation is applied exactly when the
  -- account is operationally active, the workflow has the step, and the request's needs are met.
  pub applied_iff :
      (db : Findings relations findings) (actor : ActorContext) (f : RiskFinding)
      (request : Request) (at now : ℕ)
      → findings.find db.findings f.id ≡ some f
      → f.organization_id ≡ actor.organization_id
      → ((handle relations findings (λ d. d) db actor f.id request at now).1
          ≡ WorkflowReply.updated (write_workflow (input_of actor at request) now f))
        ↔ IsAdmitted relations actor f request
  unfolding handle update_workflow get_finding_record
  applied_iff db actor f request at now found own =
      let (there, back) = existing_iff db actor f (input_of actor at request) now found own in
      let (out, in_) = unrefused_iff relations actor f at request in
      let owned : owned_finding actor.organization_id (findings.find db.findings f.id) ≡ some f =
        rw found (ground (arith, eq_iff f.organization_id actor.organization_id)) in
      rw owned (λ h. out (there h), λ a. back (in_ a))
