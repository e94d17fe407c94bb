-- ===== src/Worker/Attempts/Runs.antt =====
-- Any number of deliveries of the jobs of one plan.
use mathlib.Core.Path.{subst}
use cloudshield_enterprise.Prelude.{
  String, ℕ, ◌≡◌, refl, sym, inl, inr, Bool, true, false, not, Option, none, some, ◌==◌, string_eq,
  nat_eq, option_beq, arith, Option-cases, option_beq_iff,
}
use cloudshield_enterprise.Store.{counted, matches}
use cloudshield_enterprise.Governance.Types.{
  MutationOutcome, mutation_outcome_eq, Mode, mode_eq, LifecycleState, lifecycle_state_eq,
}
use cloudshield_enterprise.Governance.Plan.{ApprovalRequest}
use cloudshield_enterprise.Governance.Queue.{bound_request}
use cloudshield_enterprise.Governance.Backend.{Backend, Database, StoredPlan, GovernedAwsChangeJob}
use cloudshield_enterprise.Worker.Job.{World, Relations, Provider, Environment}
use cloudshield_enterprise.Worker.Record.{worker_audited}
use cloudshield_enterprise.Worker.Tagging.{SafetyState}
use cloudshield_enterprise.Worker.Process.{
  repeated, Refusal, blocks, fails, drops, spent, refusal, refused, run_claimed, run_plan,
  process_job, claim_lost, is_claimable, has_finished, is_done, is_completed, prevents_replay,
}
use cloudshield_enterprise.Worker.Attempts.{
  Spent, IsInert, same-IsInert, if-IsInert, fail-IsInert, block-IsInert, ensure-IsInert,
}
use cloudshield_enterprise.Worker.Attempts.Sent.{
  IsStep, inert, inert-IsStep, if-IsStep, execute-IsStep, unattempted-fresh,
}

module _ (b : Backend) (fingerprint : SafetyState → Option String)
    (evidence_failure : ApprovalRequest → Option String) (id : String) where
  repeated-IsInert :
      (w : World b) (job : GovernedAwsChangeJob) (now : ℕ) (earlier : StoredPlan b)
      → IsInert b id w (repeated b fingerprint evidence_failure w job now earlier).0
  unfolding repeated
  repeated-IsInert w job now earlier =
      if-IsInert b id w (not (earlier.id == job.plan_id)) _ _ (λ _. same-IsInert b id w)
        λ _.
          if-IsInert b id w (is_completed earlier.mutation_outcome earlier.lifecycle_state) _ _
            (λ _. same-IsInert b id w)
            λ _.
              if-IsInert b id w (prevents_replay earlier.mutation_outcome) _ _
                (λ _. ensure-IsInert b id w earlier now)
                λ _.
                  if-IsInert b id w (earlier.lifecycle_state == LifecycleState.executing) _ _
                    (λ _. same-IsInert b id w) λ _. same-IsInert b id w

  refused-IsInert :
      (w : World b) (plan : StoredPlan b) (now : ℕ) (reason : Refusal)
      → IsInert b id w (refused b fingerprint evidence_failure w plan now reason).0
  unfolding refused
  refused-IsInert w plan now (blocks reason) = block-IsInert b id w plan.id reason now
  refused-IsInert w plan now (fails reason) = fail-IsInert b id w plan.id reason now
  refused-IsInert w plan now (drops reason) = same-IsInert b id w
  refused-IsInert w plan now spent = ensure-IsInert b id w plan now

  claim_lost-IsInert :
      (w : World b) (found : Option (StoredPlan b))
      → IsInert b id w (claim_lost b fingerprint evidence_failure w found).0
  claim_lost-IsInert w none = same-IsInert b id w
  claim_lost-IsInert w (some r) =
      if-IsInert b id w (is_done r.lifecycle_state) _ _ (λ _. same-IsInert b id w)
        λ _. same-IsInert b id w

  claimable_outcome :
      (job : GovernedAwsChangeJob) (now : ℕ) (r : StoredPlan b)
      → is_claimable b fingerprint evidence_failure job now r ≡ true
      → option_beq r.mutation_outcome (some MutationOutcome.not_attempted) ≡ true
  claimable_outcome job now r h = ground arith

-- What other processes write does not forget that a mutation may have been sent.
abbrev pub Remembers : (b : Backend) → String → (Database b → Database b) → Type 0
Remembers b id f = (d : Database b) → Spent b id d → Spent b id (f d)

module _ (b : Backend) (fingerprint : SafetyState → Option String)
    (evidence_failure : ApprovalRequest → Option String)
    (later during others : Database b → Database b) (env : Environment) (provider : Provider)
    (job : GovernedAwsChangeJob) (now : ℕ) (relations : Relations) where
  module _ (plan : StoredPlan b) (kept_later : Remembers b plan.id later)
      (kept_during : Remembers b plan.id during) (kept_others : Remembers b plan.id others) where
    run_claimed-IsStep :
        (w : World b) (won : Bool)
        → matches
            (is_claimable b fingerprint evidence_failure job now)
            (b.plans.find w.db.plans plan.id)
          ≡ won
        → IsStep b plan.id w
            (run_claimed b fingerprint evidence_failure later during env provider job now w plan
              relations won).0
    unfolding run_claimed worker_audited
    run_claimed-IsStep w false e = inert (
        claim_lost-IsInert b fingerprint evidence_failure plan.id w
          (b.plans.find w.db.plans plan.id))
    run_claimed-IsStep w true e =
        let fresh : Spent b plan.id w.db → ⊥ =
          unattempted-fresh (is_claimable b fingerprint evidence_failure job now)
            (b.plans.find w.db.plans plan.id)
            (λ r h.
              (option_beq_iff r.mutation_outcome (some MutationOutcome.not_attempted)).0
                (claimable_outcome b fingerprint evidence_failure plan.id job now r h))
            e in
        if-IsStep b plan.id w (env.mode == Mode.simulation) _ _
          (λ _. inert (record { created = refl; spent = λ s. absurd (fresh s) }))
          λ _.
            inert-IsStep b plan.id w _ _ (record { created = refl; spent = λ s. absurd (fresh s) })
              (execute-IsStep b fingerprint plan relations job.requested_by_id now later during
                provider kept_later kept_during env _)

    run_plan-IsStep :
        (w : World b)
        → IsStep b plan.id w
            (run_plan b fingerprint evidence_failure later during env provider job now others w
              relations plan).0
    unfolding run_plan
    run_plan-IsStep w =
        elim (Option-cases (
          refusal b fingerprint evidence_failure env job plan relations (bound_request b w.db plan)
            now)) [
              | inr (reason, e) ↦
                  rw (e, run_plan)
                    (inert
                      (refused-IsInert b fingerprint evidence_failure plan.id w plan now reason))
              | inl e ↦
                  rw (e, run_plan)
                    (inert-IsStep b plan.id w _ _
                      (record { created = refl; spent = kept_others w.db })
                      (run_claimed-IsStep _ _ (
                        sym (
                          counted b.plans (others w.db).plans plan.id
                            (is_claimable b fingerprint evidence_failure job now)))))
            ]

  pub process-IsStep :
      (w : World b)
      → Remembers b job.plan_id later
      → Remembers b job.plan_id during
      → Remembers b job.plan_id others
      → IsStep b job.plan_id w
          (process_job b fingerprint evidence_failure later during env provider job now others w
            relations).0
  unfolding process_job
  process-IsStep w kept_later kept_during kept_others =
      elim (Option-cases (
        b.first_with_key w.db.plans job.organization_id job.idempotency_key
          (has_finished b fingerprint evidence_failure))) [
            | inr (earlier, e) ↦
                rw (e, process_job)
                  (inert
                    (repeated-IsInert b fingerprint evidence_failure job.plan_id w job now earlier))
            | inl e ↦ elim (Option-cases (b.plans.find w.db.plans job.plan_id)) [
              | inl absent ↦ rw (e, absent, process_job) (inert (same-IsInert b job.plan_id w))
              | inr (plan, found) ↦
                  rw (e, found, process_job)
                    (if-IsStep b job.plan_id w (plan.organization_id == job.organization_id) _ _
                      (λ _.
                        subst
                          (λ (j : String).
                            Remembers b j later
                            → Remembers b j during
                            → Remembers b j others
                            → IsStep b j w
                                (run_plan b fingerprint evidence_failure later during env provider
                                  job now others w relations plan).0)
                          (b.plans.find-key w.db.plans job.plan_id plan found)
                          (λ k l m. run_plan-IsStep plan k l m w) kept_later kept_during
                          kept_others)
                      λ _. inert (same-IsInert b job.plan_id w))
            ]
          ]
