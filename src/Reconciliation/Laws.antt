-- ===== src/Reconciliation/Laws.antt =====
-- What every write of a reconciliation keeps, and what it confirms.
use cloudshield_enterprise.Prelude.{
  String, ℕ, suc, ◌≡◌, refl, inl, inr, true, Option, some, List, [], ◌∷◌, leb, ◌==◌, nat_eq,
  string_eq, option_beq, Option-cases, Bool-cases, All,
}
use cloudshield_enterprise.Store.Rows.{Holds, Holds-update}
use cloudshield_enterprise.Governance.Types.{MutationOutcome, mutation_outcome_eq}
use cloudshield_enterprise.Governance.Backend.{Backend, Database, StoredPlan}
use cloudshield_enterprise.Worker.Job.{AwsTag, Attempt, threw, returned, Instance}
use cloudshield_enterprise.Worker.Gates.{has_tags}
use cloudshield_enterprise.Worker.Record.{worker_audited}
use cloudshield_enterprise.Reconciliation.{
  Result, is_claimable, claim_plan, is_held, committed, resolve_unattempted, resolve_succeeded,
  request_review, persist_manual_review, retry_later, judge, reconcile_claimed, reconcile,
  run_batch,
}

module _ (b : Backend) (P : StoredPlan b → Type 0) where
  -- The writes of one reconciliation keep a property of rows.
  pub record Keeps (plan : StoredPlan b) (now stale_before max_attempts : ℕ) : Type 0 where
    pub claim :
        (r : StoredPlan b)
        → is_claimable b plan stale_before r ≡ true
        → P r
        → P (claim_plan b now r)
    pub unattempted :
        option_beq plan.mutation_outcome (some MutationOutcome.not_attempted) ≡ true
        → (r : StoredPlan b) → is_held b plan r ≡ true
        → P r
        → P (resolve_unattempted b now r)
    pub succeeded :
        (r : StoredPlan b) → is_held b plan r ≡ true → P r → P (resolve_succeeded b now r)
    pub review :
        (reason : String) (r : StoredPlan b)
        → is_held b plan r ≡ true
        → P r
        → P (request_review b now reason r)
    pub retry :
        (attempt : ℕ) (r : StoredPlan b)
        → is_held b plan r ≡ true
        → P r
        → P (retry_later b now attempt r)

  module _ (j : String) where
    abbrev pub At : Database b → Type 0
    At db = Holds P (b.plans.find db.plans j)

    committed-At :
        (db : Database b) (plan : StoredPlan b) (write : StoredPlan b → StoredPlan b)
        (action : String) (done : Result)
        → ((r : StoredPlan b) → (write r).id ≡ r.id)
        → ((r : StoredPlan b) → is_held b plan r ≡ true → P r → P (write r))
        → At db
        → At (committed b db plan write action done).0
    unfolding committed worker_audited
    committed-At db plan write action done fixed keep h =
        elim (Bool-cases (b.plans.count db.plans plan.id (is_held b plan) == 1)) [
          | inl one ↦
              rw (one, committed)
                (Holds-update P b.plans db.plans plan.id _ write j fixed (λ r _. keep r) h)
          | inr lost ↦ rw (lost, committed) h
        ]

    module _ (target_failure : StoredPlan b → Option String)
        (requested : StoredPlan b → List AwsTag) (target_id : StoredPlan b → String)
        (during : Database b → Database b) (kept : (d : Database b) → At d → At (during d)) where
      judge-At :
          (db : Database b) (plan : StoredPlan b) (now stale_before max_attempts : ℕ)
          (observe : Attempt Instance)
          → Keeps plan now stale_before max_attempts
          → At db
          → At (judge b target_failure requested target_id db plan now max_attempts observe).0
      unfolding judge persist_manual_review
      judge-At db plan now stale_before max_attempts (threw c error_id) k h =
          elim (Bool-cases (leb max_attempts (suc plan.reconciliation_attempt_count))) [
            | inl last ↦ rw (last, judge) (committed-At db plan _ _ _ (λ _. refl) (k.review _) h)
            | inr more ↦ rw (more, judge) (committed-At db plan _ _ _ (λ _. refl) (k.retry _) h)
          ]
      judge-At db plan now stale_before max_attempts (returned observed) k h =
          elim (Bool-cases (observed.instance_id == target_id plan)) [
            | inr other ↦ rw (other, judge) (committed-At db plan _ _ _ (λ _. refl) (k.review _) h)
            | inl same ↦ elim (Bool-cases (has_tags observed.tags (requested plan))) [
              | inr absent ↦
                  rw (same, absent, judge) (committed-At db plan _ _ _ (λ _. refl) (k.review _) h)
              | inl present ↦
                  rw (same, present, judge) (committed-At db plan _ _ _ (λ _. refl) k.succeeded h)
            ]
          ]

      pub claimed-At :
          (db : Database b) (plan : StoredPlan b) (now stale_before max_attempts : ℕ)
          (observe : Attempt Instance)
          → Keeps plan now stale_before max_attempts
          → At db
          → At
              (reconcile_claimed b target_failure requested target_id during db plan now
                max_attempts observe).0
      unfolding reconcile_claimed persist_manual_review
      claimed-At db plan now stale_before max_attempts observe k h =
          elim (Bool-cases
            (option_beq plan.mutation_outcome (some MutationOutcome.not_attempted))) [
              | inl fresh ↦
                  rw (fresh, reconcile_claimed)
                    (committed-At (during db) plan _ _ _ (λ _. refl) (k.unattempted fresh)
                      (kept db h))
              | inr attempted ↦ elim (Option-cases (target_failure plan)) [
                | inr (reason, e) ↦
                    rw (attempted, e, reconcile_claimed)
                      (committed-At (during db) plan _ _ _ (λ _. refl) (k.review reason)
                        (kept db h))
                | inl e ↦
                    rw (attempted, e, reconcile_claimed)
                      (judge-At (during db) plan now stale_before max_attempts observe k
                        (kept db h))
              ]
            ]

      -- A reconciliation keeps what its writes keep.
      pub reconcile-At :
          (db : Database b) (plan : StoredPlan b) (now stale_before max_attempts : ℕ)
          (observe : Attempt Instance)
          → Keeps plan now stale_before max_attempts
          → At db
          → At
              (reconcile b target_failure requested target_id during db plan now stale_before
                max_attempts observe).0
      unfolding reconcile
      reconcile-At db plan now stale_before max_attempts observe k h =
          elim (Bool-cases
            (b.plans.count db.plans plan.id (is_claimable b plan stale_before) == 1)) [
              | inr lost ↦ rw (lost, reconcile) h
              | inl won ↦
                  rw (won, reconcile)
                    (claimed-At _ plan now stale_before max_attempts observe k (
                      Holds-update P b.plans db.plans plan.id _ _ j (λ _. refl) (λ r _. k.claim r)
                        h))
            ]

      pub batch-At :
          (observe : StoredPlan b → Attempt Instance) (now stale_before max_attempts : ℕ)
          (plans : List (StoredPlan b)) (db : Database b)
          → All (λ plan. Keeps plan now stale_before max_attempts) plans
          → At db
          → At (
              run_batch b target_failure requested target_id during observe now stale_before
                max_attempts plans db)
      unfolding run_batch
      batch-At observe now stale_before max_attempts [] db k h = h
      batch-At observe now stale_before max_attempts (plan ∷ plans) db (k, ks) h =
          batch-At observe now stale_before max_attempts plans _ ks
            (reconcile-At db plan now stale_before max_attempts (observe plan) k h)
