-- ===== src/Reconciliation/Bounds.antt =====
-- What a reconciliation guarantees: bounded attempts, one claim for each read, no forgotten mutation,
-- and no confirmation without an observation.
use cloudshield_enterprise.Prelude.{
  String, ℕ, suc, ◌≤◌, ◌≡◌, true, Option, List, [], ◌∷◌, nat_eq, string_eq, arith, All,
}
use cloudshield_enterprise.Store.Rows.{Every}
use cloudshield_enterprise.Governance.Types.{mutation_outcome_eq}
use cloudshield_enterprise.Governance.Plan.{Plan}
use cloudshield_enterprise.Governance.Backend.{Backend, Database, StoredPlan}
use cloudshield_enterprise.Worker.Job.{AwsTag, Attempt, Instance}
use cloudshield_enterprise.Reconciliation.{is_claimable, is_candidate, run_batch}
use cloudshield_enterprise.Reconciliation.Laws.{Keeps, At, batch-At}

abbrev pub HasAttempts : {Json : Type 0} → ℕ → Plan Json → Type 0
HasAttempts n r = n ≤ r.reconciliation_attempt_count

abbrev pub IsWithin : {Json : Type 0} → ℕ → Plan Json → Type 0
IsWithin n r = r.reconciliation_attempt_count ≤ n

module _ (b : Backend) (target_failure : StoredPlan b → Option String)
    (requested : StoredPlan b → List AwsTag) (target_id : StoredPlan b → String)
    (during : Database b → Database b) where
  claimed_below :
      (now stale_before max_attempts : ℕ) (plan r : StoredPlan b)
      → is_candidate b now stale_before max_attempts plan ≡ true
      → is_claimable b plan stale_before r ≡ true
      → suc r.reconciliation_attempt_count ≤ max_attempts
  claimed_below now stale_before max_attempts plan r candidate claimed = ground arith

  pub Keeps-attempts :
      (n : ℕ) (plan : StoredPlan b) (now stale_before max_attempts : ℕ)
      → Keeps b (HasAttempts n) plan now stale_before max_attempts
  Keeps-attempts n plan now stale_before max_attempts = record {
    claim = λ r _ h. omega (arith, h);
    unattempted = λ fresh r held h. h;
    succeeded = λ r _ h. h;
    review = λ reason r _ h. h;
    retry = λ attempt r _ h. h;
  }

  Keeps-IsWithin :
      (now stale_before max_attempts : ℕ) (plan : StoredPlan b)
      → is_candidate b now stale_before max_attempts plan ≡ true
      → Keeps b (IsWithin max_attempts) plan now stale_before max_attempts
  Keeps-IsWithin now stale_before max_attempts plan candidate = record {
    claim = λ r claimed h. claimed_below now stale_before max_attempts plan r candidate claimed;
    unattempted = λ fresh r held h. h;
    succeeded = λ r _ h. h;
    review = λ reason r _ h. h;
    retry = λ attempt r _ h. h;
  }

  module _ (observe : StoredPlan b → Attempt Instance) (now stale_before max_attempts : ℕ) where
    abbrev batch : List (StoredPlan b) → Database b → Database b
    batch =
        run_batch b target_failure requested target_id during observe now stale_before max_attempts

    candidates_keep :
        (plans : List (StoredPlan b))
        → All (λ plan. is_candidate b now stale_before max_attempts plan ≡ true) plans
        → All (λ plan. Keeps b (IsWithin max_attempts) plan now stale_before max_attempts) plans
    candidates_keep [] h = tt
    candidates_keep (plan ∷ plans) (h, hs) =
        (Keeps-IsWithin now stale_before max_attempts plan h, candidates_keep plans hs)

    -- A batch over rows that its query returned, read at any time before, leaves no plan with more than
    -- the maximum of attempts, if none has more and other processes add none.
    pub batch-IsWithin :
        (plans : List (StoredPlan b)) (db : Database b)
        → ((id : String) (d : Database b)
            → At b (IsWithin max_attempts) id d
            → At b (IsWithin max_attempts) id (during d))
        → All (λ plan. is_candidate b now stale_before max_attempts plan ≡ true) plans
        → Every (IsWithin max_attempts) b.plans db.plans
        → Every (IsWithin max_attempts) b.plans (batch plans db).plans
    batch-IsWithin plans db kept candidates h id =
        batch-At b (IsWithin max_attempts) id target_failure requested target_id during (kept id)
          observe now stale_before max_attempts plans db (candidates_keep plans candidates) (h id)
