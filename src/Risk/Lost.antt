-- ===== src/Risk/Lost.antt =====
-- Two requests for the same finding, the second one between the read of the first and its update.
use cloudshield_enterprise.Prelude.{
  String, ℕ, ◌<◌, ◌≡◌, ◌≢◌, refl, sym, ap, ◌∙◌, inl, inr, Bool, true, false, Option, none, some,
  string_eq, nat_eq, arith, Option-cases,
}
use cloudshield_enterprise.Store.{Table, matches, counted}
use cloudshield_enterprise.Risk.Matrix.{risk_status_eq}
use cloudshield_enterprise.Risk.Finding.{
  ActorContext, RiskFinding, WorkflowInput, Relations, WorkflowReply,
}
use cloudshield_enterprise.Risk.Workflow.{
  Refusal, is_as_read, write_workflow, precondition, assignment_refusal, get_finding_record, settle,
  transaction, update_existing, update_workflow,
}
use cloudshield_enterprise.Risk.Actions.{Request, input_of, handle}
use cloudshield_enterprise.Risk.Refines.{
  owned-some, Findings, settle-claimed, matches-some, read_back,
}

module _ (relations : Relations) (findings : Table RiskFinding (λ f. f.id)) where
  -- Without a claim nothing is written and nothing is applied.
  settle-unclaimed :
      (db : Findings relations findings) (actor : ActorContext) (existing written : RiskFinding)
      (input : WorkflowInput) (now : ℕ) (refusal : Option Refusal)
      → (settle relations findings db actor existing input now refusal false).1
        ≢ WorkflowReply.updated written
  unfolding settle
  settle-unclaimed db actor existing written input now none e = cc
  settle-unclaimed db actor existing written input now (some r) e = cc

  -- An applied request leaves a finding with its time of writing.
  settle-stamps :
      (db : Findings relations findings) (actor : ActorContext) (existing written : RiskFinding)
      (input : WorkflowInput) (now : ℕ) (refusal : Option Refusal) (claimed : Bool)
      → claimed ≡ matches (is_as_read actor existing) (findings.find db.findings existing.id)
      → let r = settle relations findings db actor existing input now refusal claimed in
        r.1 ≡ WorkflowReply.updated written
        → (f : RiskFinding) × (findings.find r.0.findings existing.id ≡ some f)
          × (f.updated_at ≡ now)
  unfolding settle
  settle-stamps db actor existing written input now (some r) claimed m e = cc
  settle-stamps db actor existing written input now none false m e = cc
  settle-stamps db actor existing written input now none true m e =
      let (f, found, as_read) =
        matches-some (is_as_read actor existing) (findings.find db.findings existing.id) (sym m) in
      (
        write_workflow input now f,
        ap
              (λ (r : Findings relations findings × WorkflowReply).
                findings.find r.0.findings existing.id)
              (settle-claimed relations findings db actor existing f input now found as_read)
            ∙ read_back relations findings db actor existing f input now found as_read,
        refl,
      )

  stale-transaction :
      (db : Findings relations findings) (actor : ActorContext) (existing f written : RiskFinding)
      (input : WorkflowInput) (now : ℕ)
      → findings.find db.findings existing.id ≡ some f
      → existing.updated_at < f.updated_at
      → (transaction relations findings db actor existing input now).1
        ≢ WorkflowReply.updated written
  unfolding transaction
  stale-transaction db actor existing f written input now found later =
      let stale : is_as_read actor existing f ≡ false = ground arith in
      rw
        (counted findings db.findings existing.id (is_as_read actor existing)
          ∙ ap (matches (is_as_read actor existing)) found
          ∙ stale)
        (settle-unclaimed db actor existing written input now
          (assignment_refusal relations actor input))

  existing-stamps :
      (db : Findings relations findings) (actor : ActorContext) (written : RiskFinding)
      (input : WorkflowInput) (now : ℕ) (found : Option RiskFinding)
      → let r = update_existing relations findings (λ d. d) db actor input now found in
        r.1 ≡ WorkflowReply.updated written
        → (existing f : RiskFinding) × (found ≡ some existing)
          × (findings.find r.0.findings existing.id ≡ some f)
          × (f.updated_at ≡ now)
  unfolding update_existing transaction
  existing-stamps db actor written input now none e = cc
  existing-stamps db actor written input now (some existing) e =
      elim (Option-cases (precondition relations existing input)) [
        | inr (r, refused) ↦ let k = rw (refused, update_existing) at e in cc
        | inl passed ↦
            let (f, found, at_now) =
              settle-stamps db actor existing written input now _ _
                (counted findings db.findings existing.id (is_as_read actor existing))
                (rw (passed, update_existing) at e) in
            (existing, f, refl, rw (passed, update_existing) found, at_now)
      ]

  overtaken :
      (others : Findings relations findings → Findings relations findings)
      (db : Findings relations findings) (actor : ActorContext) (written : RiskFinding)
      (input : WorkflowInput) (now : ℕ) (found : Option RiskFinding)
      → ((existing : RiskFinding)
          → found ≡ some existing
          → (f : RiskFinding) × (findings.find (others db).findings existing.id ≡ some f)
            × (existing.updated_at < f.updated_at))
      → (update_existing relations findings others db actor input now found).1
        ≢ WorkflowReply.updated written
  unfolding update_existing
  overtaken others db actor written input now none stale e = cc
  overtaken others db actor written input now (some existing) stale e =
      elim (Option-cases (precondition relations existing input)) [
        | inr (r, refused) ↦ let k = rw (refused, update_existing) at e in cc
        | inl passed ↦
            let (f, found, later) = stale existing refl in
            stale-transaction (others db) actor existing f written input now found later
              (rw (passed, update_existing) at e)
      ]

  -- Of two requests for a finding, where the second runs between the read
  -- and the update of the first and is applied later than the finding was last written, the first is
  -- not applied.
  pub overtaken-not_applied :
      (db : Findings relations findings) (actor other : ActorContext) (id : String)
      (request request' : Request) (at at' now now' : ℕ) (f written written' : RiskFinding)
      → findings.find db.findings id ≡ some f
      → f.updated_at < now'
      → (handle relations findings (λ d. d) db other id request' at' now').1
        ≡ WorkflowReply.updated written'
      → (handle relations findings
          (λ d. (handle relations findings (λ x. x) d other id request' at' now').0)
          db
          actor
          id
          request
          at
          now).1
        ≢ WorkflowReply.updated written
  unfolding handle update_workflow get_finding_record
  overtaken-not_applied db actor other id request request' at at' now now' f written written' stored
        later applied =
      let (existing, g, found, left, at_now) =
        existing-stamps db other written' (input_of other at' request') now' _ applied in
      overtaken _ db actor written (input_of actor at request) now _ λ again read.
        let o = findings.find db.findings id in
        let one : again ≡ f = cc (owned-some actor.organization_id o again read) in
        let two : again ≡ existing = cc (
          owned-some actor.organization_id o again read,
          owned-some other.organization_id o existing found,
        ) in
        (
          g,
          rw (ap (λ (r : RiskFinding). r.id) two) left,
          omega (arith, ap (λ (r : RiskFinding). r.updated_at) one),
        )
