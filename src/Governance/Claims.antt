-- ===== src/Governance/Claims.antt =====
-- Two queue requests that have read the same plan.
use mathlib.Core.Path.{subst}
use cloudshield_enterprise.Prelude.{
  String, ℕ, suc, ◌≤◌, ◌≡◌, refl, sym, ap, ◌∙◌, inl, inr, Bool, true, false, Option, none, some,
  length, if◌then◌else◌, string_eq, nat_eq, arith, Option-cases,
}
use cloudshield_enterprise.Store.{counted, matches, rewritten}
use cloudshield_enterprise.Store.Rows.{find-updated}
use cloudshield_enterprise.Governance.Types.{lifecycle_state_eq, lifecycle_state_code}
use cloudshield_enterprise.Governance.Plan.{ApprovalRequest, ActorContext}
use cloudshield_enterprise.Governance.Backend.{Backend, Database, StoredPlan, find_plan}
use cloudshield_enterprise.Governance.Ready.{jobs-non_mutating}
use cloudshield_enterprise.Governance.Queue.{
  GovernedExecuteRequest, claimable, queue_plan, enqueue_claimed, claim_and_enqueue,
}

-- A row that an update has rewritten so that it no longer meets the `where` is not updated again.
pub matches-rewritten {ℓ} :
    {A : Type ℓ} (p q : A → Bool) (write : A → A) (o : Option A)
    → matches p o ≡ true
    → ((a : A) → q (write a) ≡ false)
    → matches q (rewritten p write o) ≡ false
matches-rewritten p q write none h off = refl
matches-rewritten p q write (some a) h off = rw h (off a)

module _ (b : Backend) (evidence_failure : ApprovalRequest → Option String) where
  abbrev claims : Database b → ActorContext → StoredPlan b → Bool
  claims db actor plan =
      matches (claimable b evidence_failure actor.organization_id plan)
        (b.plans.find db.plans plan.id)

  claimable-queued :
      (organization key : String) (now : ℕ) (plan r : StoredPlan b)
      → claimable b evidence_failure organization plan (queue_plan b evidence_failure key now r)
        ≡ false
  unfolding lifecycle_state_code
  claimable-queued organization key now plan r = ground arith

  module _ (later : Database b → Database b) (plan : StoredPlan b) where
    abbrev pub attempt :
        Database b → ActorContext → GovernedExecuteRequest → String → ℕ → Database b
    attempt db actor body correlation_id now =
        (claim_and_enqueue b evidence_failure later db actor plan body correlation_id true now).0

    abbrev outcome :
        Database b → ActorContext → GovernedExecuteRequest → String → ℕ → Bool → Database b
    outcome db actor body correlation_id now claimed =
        (enqueue_claimed b evidence_failure later db actor plan body correlation_id true now
          claimed).0

    jobs-lost :
        (db : Database b) (actor : ActorContext) (body : GovernedExecuteRequest)
        (correlation_id : String) (now : ℕ)
        → (outcome db actor body correlation_id now false).jobs ≡ db.jobs
    unfolding enqueue_claimed
    jobs-lost db actor body correlation_id now =
        elim (Option-cases (find_plan b db actor plan.id)) [
          | inl absent ↦ rw (absent, outcome, enqueue_claimed) refl
          | inr (current, found) ↦
              rw (found, outcome, enqueue_claimed)
                (jobs-non_mutating b evidence_failure db actor current _)
        ]

    length-outcome :
        (db : Database b) (actor : ActorContext) (body : GovernedExecuteRequest)
        (correlation_id : String) (now : ℕ) (claimed : Bool)
        → length (outcome db actor body correlation_id now claimed).jobs
          ≡ (if claimed then suc (length db.jobs) else length db.jobs)
    unfolding enqueue_claimed
    length-outcome db actor body correlation_id now true = refl
    length-outcome db actor body correlation_id now false =
        ap length (jobs-lost db actor body correlation_id now)

    -- A claim adds a job exactly when the stored row still is the one that was read.
    length-attempt :
        (db : Database b) (actor : ActorContext) (body : GovernedExecuteRequest)
        (correlation_id : String) (now : ℕ)
        → length (attempt db actor body correlation_id now).jobs
          ≡ (if claims db actor plan then suc (length db.jobs) else length db.jobs)
    unfolding claim_and_enqueue
    length-attempt db actor body correlation_id now =
        length-outcome db actor body correlation_id now _
        ∙ ap (λ (c : Bool). if c then suc (length db.jobs) else length db.jobs)
            (counted b.plans db.plans plan.id
              (claimable b evidence_failure actor.organization_id plan))

    claims-claimed :
        (db : Database b) (actor : ActorContext) (body : GovernedExecuteRequest)
        (correlation_id : String) (now : ℕ) (other : ActorContext)
        → claims db actor plan ≡ true
        → claims (outcome db actor body correlation_id now true) other plan ≡ false
    unfolding enqueue_claimed
    claims-claimed db actor body correlation_id now other e =
        rw
          (find-updated b.plans db.plans plan.id
            (claimable b evidence_failure actor.organization_id plan)
            (queue_plan b evidence_failure body.idempotency_key now) λ _. refl)
          (matches-rewritten (claimable b evidence_failure actor.organization_id plan)
            (claimable b evidence_failure other.organization_id plan)
            (queue_plan b evidence_failure body.idempotency_key now) (b.plans.find db.plans plan.id)
            e (claimable-queued other.organization_id body.idempotency_key now plan))

    -- After a claim the stored row no longer is the one that was read.
    claims-attempt :
        (db : Database b) (actor : ActorContext) (body : GovernedExecuteRequest)
        (correlation_id : String) (now : ℕ) (other : ActorContext)
        → claims db actor plan ≡ true
        → claims (attempt db actor body correlation_id now) other plan ≡ false
    unfolding claim_and_enqueue
    claims-attempt db actor body correlation_id now other e =
        subst (λ (c : Bool). claims (outcome db actor body correlation_id now c) other plan ≡ false)
          (sym (
            counted b.plans db.plans plan.id
              (claimable b evidence_failure actor.organization_id plan)
            ∙ e))
          (claims-claimed db actor body correlation_id now other e)

    -- Two queue requests that have read the same plan, by whatever actors, with whatever keys and at
    -- whatever times, add at most one job between them.
    pub jobs_at_most_one :
        (db : Database b) (first second : ActorContext) (body body' : GovernedExecuteRequest)
        (correlation_id correlation_id' : String) (now now' : ℕ)
        → length
            (attempt
              (attempt db first body correlation_id now)
              second
              body'
              correlation_id'
              now').jobs
          ≤ suc (length db.jobs)
    jobs_at_most_one db first second body body' correlation_id correlation_id' now now' =
        let between = attempt db first body correlation_id now in
        ground (
          arith,
          length-attempt db first body correlation_id now,
          length-attempt between second body' correlation_id' now',
          claims-attempt db first body correlation_id now second,
        )
