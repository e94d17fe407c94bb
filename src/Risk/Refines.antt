-- ===== src/Risk/Refines.antt =====
-- The handlers make the moves of the abstract machine.
use mathlib.Core.Path.{subst, fun_ext}
use cloudshield_enterprise.Prelude.{
  String, ℕ, ◌≡◌, refl, sym, ap, ◌∙◌, inl, inr, ◌⊎◌, Bool, true, false, Option, none, some, ◌∷◌,
  ◌==◌, string_eq, nat_eq, arith, Bool-cases, Option-cases,
}
use cloudshield_enterprise.Store.{Table, matches, counted}
use cloudshield_enterprise.Store.Rows.{find-updated}
use cloudshield_enterprise.Risk.Matrix.{
  WorkflowStatus, ActionName, RiskStatus, action_eq, risk_status_eq, is_transition_allowed,
  normalize_workflow_status,
}
use cloudshield_enterprise.Risk.Finding.{
  ActorContext, RiskFinding, WorkflowInput, Relations, WorkflowReply,
}
use cloudshield_enterprise.Risk.Workflow.{
  Database, Refusal, is_as_read, write_workflow, audit_of, precondition, get_finding_record,
  owned_finding, recorded, settle, transaction, accepted, update_existing, update_workflow,
}
use cloudshield_enterprise.Risk.Actions.{Request, input_of, handle}
use cloudshield_enterprise.Risk.Steps.{
  View, move_to, Move, action_of, action-input, Step, allowed-Step,
}

pub matches-some :
    (p : RiskFinding → Bool) (o : Option RiskFinding)
    → matches p o ≡ true
    → (f : RiskFinding) × (o ≡ some f) × (p f ≡ true)
matches-some p none h = cc
matches-some p (some f) h = (f, refl, h)

pub owned-some :
    (organization : String) (o : Option RiskFinding) (f : RiskFinding)
    → owned_finding organization o ≡ some f
    → o ≡ some f
owned-some organization none f e = cc
owned-some organization (some g) f e = ground arith

-- The tests before the transaction let through what the matrix allows.
pub precondition-allows :
    (relations : Relations) (existing : RiskFinding) (input : WorkflowInput)
    → precondition relations existing input ≡ none
    → is_transition_allowed (normalize_workflow_status existing.workflow_status) input.action ≡ true
unfolding precondition
precondition-allows relations existing input h = ground arith

abbrev status_of : Option RiskFinding → Option WorkflowStatus
status_of none = none
status_of (some f) = some (normalize_workflow_status f.workflow_status)

module _ (relations : Relations) (findings : Table RiskFinding (λ f. f.id)) where
  abbrev pub Findings : Type 0
  Findings = Database relations findings

  -- What the abstract machine sees of the database.
  abbrev pub view : Findings → View
  view db j = status_of (findings.find db.findings j)

  abbrev pub written_rows :
      Findings → ActorContext → RiskFinding → WorkflowInput → ℕ → findings.State
  written_rows db actor existing input now =
      findings.update db.findings existing.id (is_as_read actor existing) (write_workflow input now)

  -- A claimed update leaves the row that it writes, and the handler reads it back.
  pub read_back :
      (db : Findings) (actor : ActorContext) (existing f : RiskFinding) (input : WorkflowInput)
      (now : ℕ)
      → findings.find db.findings existing.id ≡ some f
      → is_as_read actor existing f ≡ true
      → findings.find (written_rows db actor existing input now) existing.id
        ≡ some (write_workflow input now f)
  read_back db actor existing f input now found claimed =
      find-updated findings db.findings existing.id (is_as_read actor existing)
        (write_workflow input now) (λ _. refl)
      ∙ rw (found, claimed) refl

  -- The updated finding is the only one whose status changes.
  view-written :
      (db : Findings) (actor : ActorContext) (existing f : RiskFinding) (input : WorkflowInput)
      (now : ℕ) (j : String)
      → findings.find db.findings existing.id ≡ some f
      → is_as_read actor existing f ≡ true
      → status_of (findings.find (written_rows db actor existing input now) j)
        ≡ move_to (view db) existing.id input.status j
  unfolding normalize_workflow_status
  view-written db actor existing f input now j found claimed =
      rw
        (findings.find-update db.findings existing.id (is_as_read actor existing)
          (write_workflow input now) j λ _. refl)
        (elim (Bool-cases (existing.id == j)) [
          | inl e ↦ rw (e, found, claimed) refl
          | inr e ↦ rw e refl
        ])

  -- The row that is read back belongs to the actor's organisation.
  pub owned-written :
      (actor : ActorContext) (existing f : RiskFinding) (input : WorkflowInput) (now : ℕ)
      (o : Option RiskFinding)
      → o ≡ some (write_workflow input now f)
      → is_as_read actor existing f ≡ true
      → owned_finding actor.organization_id o ≡ some (write_workflow input now f)
  owned-written actor existing f input now o e claimed = rw e (ground arith)

  -- The database after a claimed update.
  abbrev pub committed :
      Findings → ActorContext → RiskFinding → RiskFinding → WorkflowInput → ℕ → Findings
  committed db actor existing f input now = record db {
    findings = written_rows db actor existing input now;
    audit_events = audit_of relations actor existing input ∷ db.audit_events;
    risk_acceptances =
        accepted relations actor (write_workflow input now f) input.risk_acceptance
          db.risk_acceptances;
  }

  pub settle-claimed :
      (db : Findings) (actor : ActorContext) (existing f : RiskFinding) (input : WorkflowInput)
      (now : ℕ)
      → findings.find db.findings existing.id ≡ some f
      → is_as_read actor existing f ≡ true
      → settle relations findings db actor existing input now none true ≡ (
        committed db actor existing f input now,
        WorkflowReply.updated (write_workflow input now f),
      )
  unfolding settle recorded get_finding_record
  settle-claimed db actor existing f input now found claimed =
      rw
        (owned-written actor existing f input now
          (findings.find (written_rows db actor existing input now) existing.id)
          (read_back db actor existing f input now found claimed) claimed)
        refl

  as_read-status :
      (actor : ActorContext) (existing f : RiskFinding)
      → is_as_read actor existing f ≡ true
      → f.workflow_status ≡ existing.workflow_status
  as_read-status actor existing f h =
      ground (arith, risk_status_eq.same_iff f.workflow_status existing.workflow_status)

  Move-committed :
      (db : Findings) (actor : ActorContext) (existing f : RiskFinding) (input : WorkflowInput)
      (now : ℕ)
      → Step (normalize_workflow_status existing.workflow_status) input.action input.status
      → findings.find db.findings existing.id ≡ some f
      → is_as_read actor existing f ≡ true
      → Move (view db) existing.id input.action (view (committed db actor existing f input now))
  Move-committed db actor existing f input now step found claimed =
      subst (Move (view db) existing.id input.action)
        (sym (fun_ext λ (j : String). view-written db actor existing f input now j found claimed))
        (Move.move
          (ap status_of found
            ∙ ap (λ (s : RiskStatus). some (normalize_workflow_status s))
                (as_read-status actor existing f claimed))
          step)

  Move-settle :
      (db : Findings) (actor : ActorContext) (existing : RiskFinding) (input : WorkflowInput)
      (now : ℕ) (refusal : Option Refusal) (claimed : Bool)
      → Step (normalize_workflow_status existing.workflow_status) input.action input.status
      → claimed ≡ matches (is_as_read actor existing) (findings.find db.findings existing.id)
      → Move
          (view db)
          existing.id
          input.action
          (view (settle relations findings db actor existing input now refusal claimed).0)
  unfolding settle
  Move-settle db actor existing input now (some e) claimed step m = Move.stay
  Move-settle db actor existing input now none false step m = Move.stay
  Move-settle db actor existing input now none true step m =
      let (f, found, as_read) =
        matches-some (is_as_read actor existing) (findings.find db.findings existing.id) (sym m) in
      subst (λ (r : Findings × WorkflowReply). Move (view db) existing.id input.action (view r.0))
        (sym (settle-claimed db actor existing f input now found as_read))
        (Move-committed db actor existing f input now step found as_read)

  -- Either nothing was done, or the finding makes the move after what others did.
  abbrev pub Responds : View → View → String → ActionName → View → Type 0
  Responds before met id action after = (after ≡ before) ⊎ Move met id action after

  Responds-existing :
      (others : Findings → Findings) (db : Findings) (actor : ActorContext) (finding_id : String)
      (request : Request) (at now : ℕ) (found : Option RiskFinding)
      → ((existing : RiskFinding) → found ≡ some existing → existing.id ≡ finding_id)
      → Responds (view db) (view (others db)) finding_id (input_of actor at request).action (
          view
            (update_existing relations findings others db actor
              (input_of actor at request)
              now
              found).0)
  unfolding update_existing transaction
  Responds-existing others db actor finding_id request at now none own = inl refl
  Responds-existing others db actor finding_id request at now (some existing) own =
      let input = input_of actor at request in
      elim (Option-cases (precondition relations existing input)) [
        | inr (e, refused) ↦ rw (refused, update_existing) (inl refl)
        | inl passed ↦
            rw (passed, update_existing)
              (inr (
                subst
                  (λ (id : String).
                    Move (view (others db)) id input.action (
                      view (transaction relations findings (others db) actor existing input now).0))
                  (own existing refl)
                  (Move-settle (others db) actor existing input now _ _
                    (allowed-Step (normalize_workflow_status existing.workflow_status) actor at
                      request (precondition-allows relations existing input passed))
                    (counted findings (others db).findings existing.id
                      (is_as_read actor existing)))))
      ]

  owned-id :
      (db : Findings) (organization finding_id : String) (existing : RiskFinding)
      → get_finding_record relations findings db organization finding_id ≡ some existing
      → existing.id ≡ finding_id
  unfolding get_finding_record
  owned-id db organization finding_id existing e =
      findings.find-key db.findings finding_id existing
        (owned-some organization (findings.find db.findings finding_id) existing e)

  -- A request for a finding leaves every status as it was, or it does to the statuses that it meets after
  -- what other processes write in between: nothing, or one move of the abstract machine, by the
  -- request's action, of that finding alone.
  pub handle-Responds :
      (others : Findings → Findings) (db : Findings) (actor : ActorContext) (finding_id : String)
      (request : Request) (at now : ℕ)
      → Responds
          (view db)
          (view (others db))
          finding_id
          (action_of request)
          (view (handle relations findings others db actor finding_id request at now).0)
  unfolding handle update_workflow
  handle-Responds others db actor finding_id request at now =
      subst
        (λ (action : ActionName).
          Responds (view db) (view (others db)) finding_id action
            (view (handle relations findings others db actor finding_id request at now).0))
        (action-input actor at request)
        (Responds-existing others db actor finding_id request at now
          (get_finding_record relations findings db actor.organization_id finding_id)
          (owned-id db actor.organization_id finding_id))
