-- ===== src/Risk/Consistent.antt =====
-- What the columns of a finding say together, through every request.
use mathlib.Core.Path.{subst}
use cloudshield_enterprise.Prelude.{
  String, ℕ, ◌≡◌, refl, sym, inl, inr, Bool, true, false, ◌&&◌, Option, none, some, string_eq,
  nat_eq, arith, is_some, Option-cases,
}
use cloudshield_enterprise.Store.{Table, matches, counted}
use cloudshield_enterprise.Store.Rows.{Every, Every-update}
use cloudshield_enterprise.Risk.Matrix.{
  WorkflowStatus, ActionName, action_eq, action_code, risk_status_eq, is_transition_allowed,
  transition_matrix, normalize_workflow_status,
}
use cloudshield_enterprise.Risk.Finding.{
  ActorContext, RiskFinding, WorkflowInput, Relations, WorkflowReply,
}
use cloudshield_enterprise.Risk.Workflow.{
  Refusal, has_owner, is_as_read, write_workflow, precondition, get_finding_record, settle,
  transaction, update_existing, update_workflow,
}
use cloudshield_enterprise.Risk.Actions.{Request, input_of, handle}
use cloudshield_enterprise.Risk.Steps.{is_archived}
use cloudshield_enterprise.Risk.Refines.{
  owned-some, Findings, settle-claimed, matches-some, precondition-allows,
}

abbrev pub is_accepted : WorkflowStatus → Bool
is_accepted WorkflowStatus.risk_accepted = true
is_accepted _ = false

abbrev pub records_acceptance : RiskFinding → Bool
records_acceptance f =
    is_some f.risk_accepted_until
    && (is_some f.risk_acceptance_reason
        && (is_some f.risk_accepted_by_user_id && (is_some f.risk_accepted_at && has_owner f)))

-- Both status columns agree, exactly the archived findings have an archival date, and an accepted risk
-- has its end, its reason, who accepted it, when, and an owner.
pub record IsConsistent (f : RiskFinding) : Type 0 where
  pub synced : f.status ≡ f.workflow_status
  pub dated : is_some f.archived_at ≡ is_archived (normalize_workflow_status f.workflow_status)
  pub accounted :
      is_accepted (normalize_workflow_status f.workflow_status) ≡ true → records_acceptance f ≡ true

owner-accept :
    (relations : Relations) (existing : RiskFinding) (input : WorkflowInput)
    → input.action ≡ ActionName.accept_risk
    → precondition relations existing input ≡ none
    → has_owner existing ≡ true
unfolding precondition
owner-accept relations existing input e h =
    ground (arith, action_eq.same_iff input.action ActionName.accept_risk)

dated-write :
    (actor : ActorContext) (at now : ℕ) (request : Request) (f : RiskFinding)
    → is_transition_allowed
        (normalize_workflow_status f.workflow_status)
        (input_of actor at request).action
      ≡ true
    → is_some f.archived_at ≡ is_archived (normalize_workflow_status f.workflow_status)
    → let f' = write_workflow (input_of actor at request) now f in
      is_some f'.archived_at ≡ is_archived (normalize_workflow_status f'.workflow_status)
unfolding input_of is_transition_allowed transition_matrix action_code normalize_workflow_status
dated-write actor at now Request.acknowledge_finding f a h = ground arith
dated-write actor at now Request.mark_false_positive f a h = ground arith
dated-write actor at now Request.resolve_finding f a h = ground arith
dated-write actor at now Request.archive_finding f a h = ground arith
dated-write actor at now Request.reopen_finding f a h = ground arith
dated-write actor at now (Request.plan_remediation body) f a h = ground arith
dated-write actor at now (Request.accept_risk body) f a h = ground arith
dated-write actor at now (Request.assign_finding body) f a h = ground arith

accounted-write :
    (relations : Relations) (actor : ActorContext) (at now : ℕ) (request : Request)
    (f : RiskFinding)
    → precondition relations f (input_of actor at request) ≡ none
    → let f' = write_workflow (input_of actor at request) now f in
      is_accepted (normalize_workflow_status f'.workflow_status) ≡ true
      → records_acceptance f' ≡ true
unfolding input_of normalize_workflow_status action_code
accounted-write relations actor at now Request.acknowledge_finding f p e = cc
accounted-write relations actor at now Request.mark_false_positive f p e = cc
accounted-write relations actor at now Request.resolve_finding f p e = cc
accounted-write relations actor at now Request.archive_finding f p e = cc
accounted-write relations actor at now Request.reopen_finding f p e = cc
accounted-write relations actor at now (Request.plan_remediation body) f p e = cc
accounted-write relations actor at now (Request.assign_finding body) f p e = cc
accounted-write relations actor at now (Request.accept_risk body) f p e =
    owner-accept relations f (input_of actor at (Request.accept_risk body)) refl p

write-IsConsistent :
    (relations : Relations) (actor : ActorContext) (at now : ℕ) (request : Request)
    (f : RiskFinding)
    → precondition relations f (input_of actor at request) ≡ none
    → IsConsistent f
    → IsConsistent (write_workflow (input_of actor at request) now f)
write-IsConsistent relations actor at now request f p h = record {
  synced = refl;
  dated =
      dated-write actor at now request f
        (precondition-allows relations f (input_of actor at request) p) h.dated;
  accounted = accounted-write relations actor at now request f p;
}

module _ (relations : Relations) (findings : Table RiskFinding (λ f. f.id)) where
  abbrev pub AllConsistent : Findings relations findings → Type 0
  AllConsistent db = Every IsConsistent findings db.findings

  -- A row whose `updatedAt` is as it was has not been written.
  abbrev pub Stamped :
      (Findings relations findings → Findings relations findings)
      → Findings relations findings
      → Type 0
  Stamped others db =
      (j : String) (f f' : RiskFinding)
      → findings.find db.findings j ≡ some f
      → findings.find (others db).findings j ≡ some f'
      → f'.updated_at ≡ f.updated_at
      → f' ≡ f

  settle-AllConsistent :
      (db : Findings relations findings) (actor : ActorContext) (existing : RiskFinding)
      (at now : ℕ) (request : Request) (refusal : Option Refusal) (claimed : Bool)
      → claimed ≡ matches (is_as_read actor existing) (findings.find db.findings existing.id)
      → precondition relations existing (input_of actor at request) ≡ none
      → ((f : RiskFinding)
          → findings.find db.findings existing.id ≡ some f
          → is_as_read actor existing f ≡ true
          → f ≡ existing)
      → AllConsistent db
      → AllConsistent
          (settle relations findings db actor existing
            (input_of actor at request)
            now
            refusal
            claimed).0
  unfolding settle
  settle-AllConsistent db actor existing at now request (some e) claimed m p same h = h
  settle-AllConsistent db actor existing at now request none false m p same h = h
  settle-AllConsistent db actor existing at now request none true m p same h =
      let input = input_of actor at request in
      let (f, found, as_read) =
        matches-some (is_as_read actor existing) (findings.find db.findings existing.id) (sym m) in
      subst (λ (r : Findings relations findings × WorkflowReply). AllConsistent r.0)
        (sym (settle-claimed relations findings db actor existing f input now found as_read))
        (Every-update IsConsistent findings db.findings existing.id (is_as_read actor existing)
          (write_workflow input now) (λ _. refl)
          (λ r stored claims k.
            write-IsConsistent relations actor at now request r (rw (same r stored claims) p) k)
          h)

  -- The finding that the handler has read is stored under its own id, in the actor's organisation.
  pub found_stored :
      (db : Findings relations findings) (organization id : String) (f : RiskFinding)
      → get_finding_record relations findings db organization id ≡ some f
      → findings.find db.findings f.id ≡ some f
  unfolding get_finding_record
  found_stored db organization id f e =
      let found = owned-some organization (findings.find db.findings id) f e in
      subst (λ (k : String). findings.find db.findings k ≡ some f)
        (sym (findings.find-key db.findings id f found)) found

  existing-AllConsistent :
      (others : Findings relations findings → Findings relations findings)
      (db : Findings relations findings) (actor : ActorContext) (request : Request) (at now : ℕ)
      (found : Option RiskFinding)
      → ((f : RiskFinding) → found ≡ some f → findings.find db.findings f.id ≡ some f)
      → Stamped others db
      → AllConsistent db
      → AllConsistent (others db)
      → AllConsistent
          (update_existing relations findings others db actor
            (input_of actor at request)
            now
            found).0
  unfolding update_existing transaction
  existing-AllConsistent others db actor request at now none stored stamped h k = h
  existing-AllConsistent others db actor request at now (some existing) stored stamped h k =
      elim (Option-cases (precondition relations existing (input_of actor at request))) [
        | inr (e, refused) ↦ rw (refused, update_existing) h
        | inl passed ↦
            rw (passed, update_existing)
              (settle-AllConsistent (others db) actor existing at now request _ _
                (counted findings (others db).findings existing.id (is_as_read actor existing))
                passed
                (λ f found as_read.
                  stamped existing.id existing f (stored existing refl) found
                    (ground (arith, as_read)))
                k)
      ]

  -- A request keeps that every finding is consistent, whatever other processes write in between that
  -- keeps it and stamps the rows that it changes.
  pub handle-AllConsistent :
      (others : Findings relations findings → Findings relations findings)
      (db : Findings relations findings) (actor : ActorContext) (finding_id : String)
      (request : Request) (at now : ℕ)
      → Stamped others db
      → AllConsistent db
      → AllConsistent (others db)
      → AllConsistent (handle relations findings others db actor finding_id request at now).0
  unfolding handle update_workflow
  handle-AllConsistent others db actor finding_id request at now stamped h k =
      existing-AllConsistent others db actor request at now
        (get_finding_record relations findings db actor.organization_id finding_id)
        (λ f e. found_stored db actor.organization_id finding_id f e) stamped h k
