-- ===== src/Governance/Forgets.antt =====
-- What a simulation does to the record of a mutation.
use cloudshield_enterprise.Prelude.{String, ℕ, ◌≡◌, refl, sym, true, Option, none, some}
use mathlib.Core.Path.{subst}
use cloudshield_enterprise.Store.{rewritten}
use cloudshield_enterprise.Store.Rows.{Holds, find-updated}
use cloudshield_enterprise.Governance.Types.{Mode, ApprovalStatus, MutationOutcome}
use cloudshield_enterprise.Governance.Plan.{Plan, ActorContext}
use cloudshield_enterprise.Governance.Backend.{Backend, Database, StoredPlan, find_plan, audited}
use cloudshield_enterprise.Governance.Simulate.{
  Documents, GovernedSimulationRequest, Loaded, simulate, simulate_plan, simulation_refusal,
}

-- The row of a plan that starts over: `mutationOutcome` is NOT_ATTEMPTED and `approvalStatus` is DRAFT.
abbrev pub IsFresh : {Json : Type 0} → Plan Json → Type 0
IsFresh p =
    (p.mutation_outcome ≡ some MutationOutcome.not_attempted)
    × (p.approval_status ≡ ApprovalStatus.draft)

module _ (b : Backend)
    (documents : StoredPlan b → GovernedSimulationRequest → Documents b.Json) where
  rewritten-IsFresh :
      (mode : Mode) (body : GovernedSimulationRequest) (docs : Documents b.Json)
      (refusal : Option String) (now : ℕ) (o : Option (StoredPlan b))
      → Holds IsFresh
          (rewritten (λ _. true) (simulate_plan b documents mode body docs refusal now) o)
  rewritten-IsFresh mode body docs refusal now none = tt
  rewritten-IsFresh mode body docs refusal now (some r) = (refl, refl)

  -- A simulation of a plan that the tenant has, whatever outcome is recorded for it, whether or not the
  -- simulation is refused, and whatever others write in between, leaves a row whose `mutationOutcome` is
  -- NOT_ATTEMPTED and whose `approvalStatus` is DRAFT.
  pub simulate-IsFresh :
      (others : Database b → Database b) (mode : Mode) (loaded : StoredPlan b → Loaded)
      (db : Database b) (actor : ActorContext) (plan_id : String) (body : GovernedSimulationRequest)
      (now : ℕ) (plan : StoredPlan b)
      → find_plan b db actor plan_id ≡ some plan
      → Holds IsFresh (
          b.plans.find
            (simulate b documents others mode loaded db actor plan_id body now).0.plans
            plan.id)
  unfolding simulate audited
  simulate-IsFresh others mode loaded db actor plan_id body now plan found =
      rw (found, simulate)
        (subst (Holds IsFresh) (sym (find-updated b.plans (others db).plans plan.id _ _ λ _. refl))
          (rewritten-IsFresh mode body (documents plan body)
            (simulation_refusal mode (loaded plan) body) now
            (b.plans.find (others db).plans plan.id)))
