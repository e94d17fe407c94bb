-- ===== src/Worker/Outcomes.antt =====
-- Where what is written does not follow the table of outcomes.
use cloudshield_enterprise.Prelude.{
  String, ℕ, ◌≡◌, refl, ◌∙◌, Bool, true, false, Option, none, some, arith, option_beq_iff, nat_eq,
}
use cloudshield_enterprise.Governance.Types.{
  MutationOutcome, mutation_outcome_eq, mutation_outcome_code,
}
use cloudshield_enterprise.Governance.Backend.{Backend, StoredPlan}
use cloudshield_enterprise.Governance.Transitions.{can_transition_mutation_outcome}
use cloudshield_enterprise.Reconciliation.{is_held, request_review}

-- The table lists a change between two stored outcomes.
abbrev pub follows : Option MutationOutcome → Option MutationOutcome → Bool
follows none to = false
follows (some from) none = false
follows (some from) (some to) = can_transition_mutation_outcome from to

module _ (b : Backend) where
  -- Where a reconciliation that read the outcome `ATTEMPTED` asks for a manual review, the change of the row
  -- that meets its `where` is one that the table of transitions does not list.
  pub attempted_review_is_unlisted :
      (plan r : StoredPlan b) (now : ℕ) (reason : String)
      → is_held b plan r ≡ true
      → plan.mutation_outcome ≡ some MutationOutcome.attempted
      → follows r.mutation_outcome (request_review b now reason r).mutation_outcome ≡ false
  unfolding can_transition_mutation_outcome mutation_outcome_code
  attempted_review_is_unlisted plan r now reason held e =
      let same : r.mutation_outcome ≡ plan.mutation_outcome =
        (option_beq_iff r.mutation_outcome plan.mutation_outcome).0 (ground arith) in
      rw (same ∙ e) refl
