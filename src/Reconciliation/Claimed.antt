-- ===== src/Reconciliation/Claimed.antt =====
-- One claim for each read of a plan, and no confirmation without an observation.
use mathlib.Core.Path.{subst}
use cloudshield_enterprise.Prelude.{
  String, ℕ, suc, ◌≡◌, ◌≢◌, refl, sym, ap, ◌∙◌, inl, inr, Bool, true, false, Option, none, some,
  List, if◌then◌else◌, leb, ◌==◌, nat_eq, string_eq, option_beq, arith, Option-cases, Bool-cases,
  eq_iff,
}
use cloudshield_enterprise.Store.{counted, matches, rewritten}
use cloudshield_enterprise.Store.Rows.{Holds, find-updated}
use cloudshield_enterprise.Governance.Types.{
  MutationOutcome, mutation_outcome_eq, mutation_outcome_code, ReconciliationStatus,
}
use cloudshield_enterprise.Governance.Backend.{Backend, Database, StoredPlan}
use cloudshield_enterprise.Worker.Job.{AwsTag, Attempt, threw, returned, Instance}
use cloudshield_enterprise.Worker.Gates.{has_tags}
use cloudshield_enterprise.Reconciliation.{
  Result, is_claimable, claim_plan, committed, persist_manual_review, judge, reconcile_claimed,
  reconcile, settled, not_claimed, stale_resolution, failed_retryable, is_held,
}
use cloudshield_enterprise.Reconciliation.Target.{
  Target, validate_reconciliation_target, IsApprovedTarget, validated-IsApprovedTarget,
}
use cloudshield_enterprise.Reconciliation.Laws.{At, claimed-At}
use cloudshield_enterprise.Reconciliation.Bounds.{HasAttempts, Keeps-attempts}

attempted_unclaimable :
    (b : Backend) (plan : StoredPlan b) (stale_before : ℕ) (o : Option (StoredPlan b))
    → Holds (HasAttempts (suc plan.reconciliation_attempt_count)) o
    → matches (is_claimable b plan stale_before) o ≡ false
attempted_unclaimable b plan stale_before none h = refl
attempted_unclaimable b plan stale_before (some r) h = ground arith

claimed_attempts :
    (b : Backend) (plan : StoredPlan b) (now stale_before : ℕ) (o : Option (StoredPlan b))
    → matches (is_claimable b plan stale_before) o ≡ true
    → Holds
        (HasAttempts (suc plan.reconciliation_attempt_count))
        (rewritten (is_claimable b plan stale_before) (claim_plan b now) o)
claimed_attempts b plan now stale_before none e = tt
claimed_attempts b plan now stale_before (some r) e =
    subst
      (λ (c : Bool).
        HasAttempts (suc plan.reconciliation_attempt_count) (if c then claim_plan b now r else r))
      (sym e) (ground arith)

is_success : Result → Bool
is_success not_claimed = false
is_success stale_resolution = false
is_success failed_retryable = false
is_success (settled s o) = o == MutationOutcome.confirmed_succeeded

review_fails :
    is_success
      (settled ReconciliationStatus.manual_review_required MutationOutcome.manual_review_required)
    ≡ false
unfolding is_success mutation_outcome_code
review_fails = refl

unattempted_fails :
    is_success (settled ReconciliationStatus.resolved MutationOutcome.not_attempted) ≡ false
unfolding is_success mutation_outcome_code
unattempted_fails = refl

retry_fails : is_success failed_retryable ≡ false
unfolding is_success
retry_fails = refl

stale_fails : is_success stale_resolution ≡ false
unfolding is_success
stale_fails = refl

unclaimed_fails : is_success not_claimed ≡ false
unfolding is_success
unclaimed_fails = refl

success_succeeds :
    is_success (settled ReconciliationStatus.resolved MutationOutcome.confirmed_succeeded) ≡ true
unfolding is_success mutation_outcome_code
success_succeeds = refl

clash : (x : Result) → is_success x ≡ false → is_success x ≡ true → ⊥
clash x e h = ground (arith, sym e ∙ h)

module _ (b : Backend) (target_failure : StoredPlan b → Option String)
    (requested : StoredPlan b → List AwsTag) (target_id : StoredPlan b → String)
    (plan : StoredPlan b) where
  abbrev Attempted : Database b → Type 0
  Attempted = At b (HasAttempts (suc plan.reconciliation_attempt_count)) plan.id

  won_attempts :
      (during : Database b → Database b) (db : Database b) (now stale_before max_attempts : ℕ)
      (observe : Attempt Instance)
      → ((d : Database b) → Attempted d → Attempted (during d))
      → (reconcile b target_failure requested target_id during db plan now stale_before max_attempts
          observe).1
        ≢ not_claimed
      → Attempted
          (reconcile b target_failure requested target_id during db plan now stale_before
            max_attempts observe).0
  unfolding reconcile
  won_attempts during db now stale_before max_attempts observe kept won =
      elim (Bool-cases (b.plans.count db.plans plan.id (is_claimable b plan stale_before) == 1)) [
        | inr lost ↦ absurd (won (rw (lost, reconcile) refl))
        | inl one ↦
            rw (one, reconcile)
              (claimed-At b _ plan.id target_failure requested target_id during kept _ plan now
                stale_before max_attempts observe
                (Keeps-attempts b target_failure requested target_id during _ plan now stale_before
                  max_attempts)
                (subst (Holds (HasAttempts (suc plan.reconciliation_attempt_count)))
                  (sym (find-updated b.plans db.plans plan.id _ (claim_plan b now) λ _. refl))
                  (claimed_attempts b plan now stale_before (b.plans.find db.plans plan.id) (
                    sym (counted b.plans db.plans plan.id (is_claimable b plan stale_before))
                    ∙ one))))
      ]

  -- If one reconciliation has claimed a plan as it was read, then a second one that starts from the same
  -- read, after writes of other processes that do not lower the attempt count, changes nothing.
  pub second_not_claimed :
      (during during' between : Database b → Database b) (db : Database b)
      (now stale_before now' stale_before' max_attempts : ℕ) (observe observe' : Attempt Instance)
      → ((d : Database b) → Attempted d → Attempted (during d))
      → ((d : Database b) → Attempted d → Attempted (between d))
      → (reconcile b target_failure requested target_id during db plan now stale_before max_attempts
          observe).1
        ≢ not_claimed
      → reconcile b target_failure requested target_id during'
          (between
            (reconcile b target_failure requested target_id during db plan now stale_before
              max_attempts observe).0)
          plan
          now'
          stale_before'
          max_attempts
          observe'
        ≡ (
          between
              (reconcile b target_failure requested target_id during db plan now stale_before
                max_attempts observe).0,
          not_claimed,
        )
  unfolding reconcile
  second_not_claimed during during' between db now stale_before now' stale_before' max_attempts
        observe observe' kept kept' won =
      let first =
        reconcile b target_failure requested target_id during db plan now stale_before max_attempts
          observe in
      let there =
        kept' first.0 (won_attempts during db now stale_before max_attempts observe kept won) in
      let lost =
        counted b.plans (between first.0).plans plan.id (is_claimable b plan stale_before')
        ∙ attempted_unclaimable b plan stale_before' (b.plans.find (between first.0).plans plan.id)
            there in
      rw (lost, reconcile) refl

  committed-success :
      (db : Database b) (write : StoredPlan b → StoredPlan b) (action : String) (done : Result)
      → is_success done ≡ false
      → is_success (committed b db plan write action done).1 ≡ false
  unfolding committed
  committed-success db write action done e =
      elim (Bool-cases (b.plans.count db.plans plan.id (is_held b plan) == 1)) [
        | inl one ↦ rw (one, committed) e
        | inr lost ↦ rw (lost, committed) stale_fails
      ]

  -- The reply of AWS shows the approved instance with every requested tag.
  pub record Shows (observe : Attempt Instance) : Type 0 where
    pub observed : Instance
    pub replied : observe ≡ returned observed
    pub same_instance : observed.instance_id ≡ target_id plan
    pub tagged : has_tags observed.tags (requested plan) ≡ true

  judge-Shows :
      (db : Database b) (now max_attempts : ℕ) (observe : Attempt Instance)
      → is_success (judge b target_failure requested target_id db plan now max_attempts observe).1
        ≡ true
      → Shows observe
  unfolding judge persist_manual_review
  judge-Shows db now max_attempts (threw c error_id) e =
      elim (Bool-cases (leb max_attempts (suc plan.reconciliation_attempt_count))) [
        | inl last ↦
            absurd (clash _ (committed-success db _ _ _ review_fails) (rw (last, judge) at e))
        | inr more ↦
            absurd (clash _ (committed-success db _ _ _ retry_fails) (rw (more, judge) at e))
      ]
  judge-Shows db now max_attempts (returned observed) e =
      elim (Bool-cases (observed.instance_id == target_id plan)) [
        | inr other ↦
            absurd (clash _ (committed-success db _ _ _ review_fails) (rw (other, judge) at e))
        | inl same ↦ elim (Bool-cases (has_tags observed.tags (requested plan))) [
          | inr absent ↦
              absurd
                (clash _ (committed-success db _ _ _ review_fails) (rw (same, absent, judge) at e))
          | inl present ↦ record {
            observed = observed;
            replied = refl;
            same_instance = ground (arith, eq_iff observed.instance_id (target_id plan));
            tagged = present;
          }
        ]
      ]

  -- If a reconciliation reports success, then the target passed its validation and AWS replied with the
  -- approved instance, which carries every requested tag.
  pub confirmed_is_observed :
      (during : Database b → Database b) (db : Database b) (now stale_before max_attempts : ℕ)
      (observe : Attempt Instance)
      → (reconcile b target_failure requested target_id during db plan now stale_before max_attempts
          observe).1
        ≡ settled ReconciliationStatus.resolved MutationOutcome.confirmed_succeeded
      → (target_failure plan ≡ none) × Shows observe
  unfolding reconcile reconcile_claimed mutation_outcome_code persist_manual_review
  confirmed_is_observed during db now stale_before max_attempts observe e =
      let success = ap is_success e ∙ success_succeeds in
      elim (Bool-cases (b.plans.count db.plans plan.id (is_claimable b plan stale_before) == 1)) [
        | inr lost ↦ absurd (clash not_claimed unclaimed_fails (rw (lost, reconcile) at success))
        | inl won ↦
            elim (Bool-cases
              (option_beq plan.mutation_outcome (some MutationOutcome.not_attempted))) [
                | inl fresh ↦ absurd (
                    clash _ (committed-success _ _ _ _ unattempted_fails)
                      (rw (won, fresh, reconcile, reconcile_claimed) at success))
                | inr attempted ↦ elim (Option-cases (target_failure plan)) [
                  | inr (reason, invalid) ↦ absurd (
                      clash _ (committed-success _ _ _ _ review_fails)
                        (rw (won, attempted, invalid, reconcile, reconcile_claimed) at success))
                  | inl valid ↦ (
                    valid,
                    judge-Shows _ now max_attempts observe
                        (rw (won, attempted, valid, reconcile, reconcile_claimed) at success),
                  )
                ]
              ]
      ]

-- If a reconciliation of a plan, whose target is validated against its relations, reports success, then the
-- resource, the account and the approval request are of the plan's tenant, the payload names that resource
-- and its region, and the request is approved, of that plan, and the one that the plan is bound to.
pub confirmed-IsApprovedTarget :
    (b : Backend) (targets : StoredPlan b → Target) (requested : StoredPlan b → List AwsTag)
    (target_id : StoredPlan b → String) (plan : StoredPlan b) (during : Database b → Database b)
    (db : Database b) (now stale_before max_attempts : ℕ) (observe : Attempt Instance)
    → (reconcile b
        (λ p. validate_reconciliation_target (targets p) p)
        requested
        target_id
        during
        db
        plan
        now
        stale_before
        max_attempts
        observe).1
      ≡ settled ReconciliationStatus.resolved MutationOutcome.confirmed_succeeded
    → IsApprovedTarget (targets plan) plan
confirmed-IsApprovedTarget b targets requested target_id plan during db now stale_before
      max_attempts observe e =
    validated-IsApprovedTarget (targets plan) plan
      (confirmed_is_observed b (λ p. validate_reconciliation_target (targets p) p) requested
        target_id plan during db now stale_before max_attempts observe e).0
