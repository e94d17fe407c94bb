-- ===== src/Worker/Attempts.antt =====
-- How often a mutation is sent for one plan.
pub mod Sent
pub mod Runs
use mathlib.Core.Path.{subst}
use cloudshield_enterprise.Prelude.{
  String, ℕ, suc, ◌+◌, ◌≤◌, ◌≡◌, ◌≢◌, ◌⊎◌, refl, sym, ap, ◌∙◌, inl, inr, Bool, true, false, ◌&&◌,
  not, Option, none, some, List, [], ◌∷◌, length, if◌then◌else◌, ◌==◌, string_eq, nat_eq,
  option_beq, arith, Option-cases, Bool-cases, eq_iff, is_some,
}
use cloudshield_enterprise.Store.{counted, matches}
use cloudshield_enterprise.Store.Rows.{Holds, Holds-update}
use cloudshield_enterprise.Governance.Types.{
  MutationOutcome, mutation_outcome_eq, mutation_outcome_code,
}
use cloudshield_enterprise.Governance.Plan.{Plan, ApprovalRequest}
use cloudshield_enterprise.Governance.Backend.{Backend, Database, StoredPlan, GovernedAwsChangeJob}
use cloudshield_enterprise.Worker.Job.{
  World, WorkerReply, Relations, Provider, Environment, Attempt, Instance, CreateReply,
}
use cloudshield_enterprise.Worker.Record.{
  written, fail_governed_plan, block_governed_plan, persist_mutation_outcome, outcome_recorded,
  outcome_after, is_attempted_as, ensure_scheduled, worker_audited, is_unsettled, is_scheduled,
}

-- A mutation may have been sent for the plan.
abbrev pub IsSpent : {Json : Type 0} → Plan Json → Type 0
IsSpent p = p.mutation_outcome ≢ some MutationOutcome.not_attempted

pub unconfirmed-IsSpent :
    (uncertain : Bool) → some (outcome_after uncertain) ≢ some MutationOutcome.not_attempted
unfolding mutation_outcome_code
unconfirmed-IsSpent true e =
    ground (arith, ap (λ o. option_beq o (some MutationOutcome.not_attempted)) e)
unconfirmed-IsSpent false e =
    ground (arith, ap (λ o. option_beq o (some MutationOutcome.not_attempted)) e)

module _ (b : Backend) (id : String) where
  abbrev pub Spent : Database b → Type 0
  Spent db = Holds IsSpent (b.plans.find db.plans id)

  -- A step that sends nothing, and does not forget an attempt.
  pub record IsInert (before after : World b) : Type 0 where
    pub created : after.created ≡ before.created
    pub spent : Spent before.db → Spent after.db

  same-IsInert : (w : World b) → IsInert w w
  same-IsInert w = record { created = refl; spent = λ h. h }

  then-IsInert : (u v w : World b) → IsInert u v → IsInert v w → IsInert u w
  then-IsInert u v w h k = record {
    created = k.created ∙ h.created;
    spent = λ s. k.spent (h.spent s);
  }

  if-IsInert :
      (w : World b) (c : Bool) (x y : World b × WorkerReply)
      → (c ≡ true → IsInert w x.0)
      → (c ≡ false → IsInert w y.0)
      → IsInert w (if c then x else y).0
  if-IsInert w true x y h k = h refl
  if-IsInert w false x y h k = k refl

  elim-IsInert :
      (w : World b) (o : Option String) (x : String → World b × WorkerReply)
      (y : World b × WorkerReply)
      → ((reason : String) → IsInert w (x reason).0)
      → IsInert w y.0
      → IsInert w (elim o as (λ _. World b × WorkerReply) [ none ↦ y | some reason ↦ x reason ]).0
  elim-IsInert w none x y h k = k
  elim-IsInert w (some reason) x y h k = h reason

  written-IsInert :
      (w : World b) (key : String) (write : StoredPlan b → StoredPlan b) (action : String)
      (reply : WorkerReply) (found : Option (StoredPlan b))
      → ((r : StoredPlan b) → (write r).id ≡ r.id)
      → ((r : StoredPlan b) → (write r).mutation_outcome ≡ r.mutation_outcome)
      → IsInert w (written b w key write action reply found).0
  written-IsInert w key write action reply none fixed keep = same-IsInert w
  written-IsInert w key write action reply (some p) fixed keep = record {
    created = refl;
    spent =
        Holds-update IsSpent b.plans w.db.plans key _ write id fixed
          (λ r _ _ h e. h (sym (keep r) ∙ e));
  }

  pub fail-IsInert :
      (w : World b) (key reason : String) (now : ℕ)
      → IsInert w (fail_governed_plan b w key reason now).0
  unfolding fail_governed_plan
  fail-IsInert w key reason now =
      written-IsInert w key _ _ _ (b.plans.find w.db.plans key) (λ r. refl) λ r. refl

  block-IsInert :
      (w : World b) (key reason : String) (now : ℕ)
      → IsInert w (block_governed_plan b w key reason now).0
  unfolding block_governed_plan
  block-IsInert w key reason now =
      written-IsInert w key _ _ _ (b.plans.find w.db.plans key) (λ r. refl) λ r. refl

  outcome-IsInert :
      (w : World b) (plan : StoredPlan b) (uncertain : Bool) (classification : String)
      (candidate : Option String) (now : ℕ) (found : Option (StoredPlan b))
      → IsInert w (outcome_recorded b w plan uncertain classification candidate now found).0
  outcome-IsInert w plan uncertain classification candidate now none = same-IsInert w
  outcome-IsInert w plan uncertain classification candidate now (some current) =
      if-IsInert w (b.plans.count w.db.plans plan.id (is_attempted_as b current) == 1) _ _
        (λ _. record {
          created = refl;
          spent =
              Holds-update IsSpent b.plans w.db.plans plan.id _ _ id (λ _. refl)
                (λ r _ _ h. unconfirmed-IsSpent uncertain);
        })
        λ _. same-IsInert w

  persist-IsInert :
      (w : World b) (plan : StoredPlan b) (uncertain : Bool) (classification : String)
      (candidate : Option String) (now : ℕ)
      → IsInert w (persist_mutation_outcome b w plan uncertain classification candidate now).0
  unfolding persist_mutation_outcome
  persist-IsInert w plan uncertain classification candidate now =
      outcome-IsInert w plan uncertain classification candidate now
        (b.plans.find w.db.plans plan.id)

  ensure-IsInert :
      (w : World b) (plan : StoredPlan b) (now : ℕ) → IsInert w (ensure_scheduled b w plan now)
  unfolding ensure_scheduled
  ensure-IsInert w plan now = elim (Bool-cases (is_unsettled plan.mutation_outcome)) [
    | inr settled ↦ rw (settled, ensure_scheduled) (same-IsInert w)
    | inl unsettled ↦ elim (Bool-cases (is_scheduled plan.reconciliation_status)) [
      | inl scheduled ↦ rw (unsettled, scheduled, ensure_scheduled) (same-IsInert w)
      | inr unscheduled ↦
          rw (unsettled, unscheduled, ensure_scheduled)
            (record {
              created = refl;
              spent =
                  Holds-update IsSpent b.plans w.db.plans plan.id _ _ id (λ _. refl) (λ r _ _ h. h);
            })
    ]
  ]
