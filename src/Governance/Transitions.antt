-- ===== src/Governance/Transitions.antt =====
-- The states that a plan may go through (packages/utils/src/index.ts, `MUTATION_OUTCOME_TRANSITIONS`,
-- and apps/backend/src/modules/governance/aws-change-execution.policy.ts, `assertValidLifecycleTransition`).
use cloudshield_enterprise.Prelude.{Bool, List, [], ◌∷◌, includes}
use cloudshield_enterprise.Governance.Types.{
  LifecycleState, MutationOutcome, lifecycle_state_eq, mutation_outcome_eq,
}

abbrev pub mutation_outcome_transitions : MutationOutcome → List MutationOutcome
mutation_outcome_transitions MutationOutcome.not_attempted =
    MutationOutcome.not_attempted ∷ MutationOutcome.attempted ∷ []
mutation_outcome_transitions MutationOutcome.attempted =
    MutationOutcome.attempted ∷ MutationOutcome.confirmed_succeeded
    ∷ MutationOutcome.confirmed_failed ∷ MutationOutcome.outcome_unknown ∷ []
mutation_outcome_transitions MutationOutcome.confirmed_succeeded =
    MutationOutcome.confirmed_succeeded ∷ []
mutation_outcome_transitions MutationOutcome.confirmed_failed =
    MutationOutcome.confirmed_failed ∷ []
mutation_outcome_transitions MutationOutcome.outcome_unknown =
    MutationOutcome.outcome_unknown ∷ MutationOutcome.confirmed_succeeded
    ∷ MutationOutcome.confirmed_failed ∷ MutationOutcome.manual_review_required ∷ []
mutation_outcome_transitions MutationOutcome.manual_review_required =
    MutationOutcome.manual_review_required ∷ MutationOutcome.confirmed_succeeded
    ∷ MutationOutcome.confirmed_failed ∷ []

unfoldable pub can_transition_mutation_outcome : MutationOutcome → MutationOutcome → Bool
can_transition_mutation_outcome from to = includes (mutation_outcome_transitions from) to

-- The table of `assertValidLifecycleTransition`, which throws where it does not list `to`.
abbrev pub lifecycle_transitions : LifecycleState → List LifecycleState
lifecycle_transitions LifecycleState.recommended =
    LifecycleState.prepared ∷ LifecycleState.blocked ∷ []
lifecycle_transitions LifecycleState.prepared =
    LifecycleState.simulated ∷ LifecycleState.blocked ∷ []
lifecycle_transitions LifecycleState.simulated =
    LifecycleState.pending_approval ∷ LifecycleState.blocked ∷ []
lifecycle_transitions LifecycleState.pending_approval =
    LifecycleState.approved ∷ LifecycleState.blocked ∷ []
lifecycle_transitions LifecycleState.approved = LifecycleState.queued ∷ LifecycleState.blocked ∷ []
lifecycle_transitions LifecycleState.queued =
    LifecycleState.preflight_validating ∷ LifecycleState.failed ∷ LifecycleState.blocked ∷ []
lifecycle_transitions LifecycleState.preflight_validating =
    LifecycleState.executing ∷ LifecycleState.failed ∷ LifecycleState.blocked ∷ []
lifecycle_transitions LifecycleState.executing =
    LifecycleState.succeeded ∷ LifecycleState.failed ∷ LifecycleState.rollback_available ∷ []
lifecycle_transitions LifecycleState.succeeded = LifecycleState.rollback_available ∷ []
lifecycle_transitions LifecycleState.failed =
    LifecycleState.rollback_available ∷ LifecycleState.blocked ∷ []
lifecycle_transitions LifecycleState.blocked = LifecycleState.prepared ∷ []
lifecycle_transitions LifecycleState.rollback_available =
    LifecycleState.rollback_pending_approval ∷ []
lifecycle_transitions LifecycleState.rollback_pending_approval =
    LifecycleState.rolled_back ∷ LifecycleState.failed ∷ []
lifecycle_transitions LifecycleState.rolled_back = []

unfoldable pub is_valid_lifecycle_transition : LifecycleState → LifecycleState → Bool
is_valid_lifecycle_transition from to = includes (lifecycle_transitions from) to
