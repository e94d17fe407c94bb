-- ===== src/Worker/Deliveries.antt =====
-- Sequences of deliveries of one plan's jobs, with what other processes write before each.
use mathlib.Core.Path.{subst}
use cloudshield_enterprise.Prelude.{
  String, ℕ, suc, ◌≤◌, ◌≡◌, refl, ap, ◌∙◌, Option, List, [], ◌∷◌, length, arith, All,
}
use cloudshield_enterprise.Governance.Plan.{ApprovalRequest}
use cloudshield_enterprise.Governance.Backend.{Backend, Database, GovernedAwsChangeJob}
use cloudshield_enterprise.Worker.Job.{World, Relations, Provider, Environment}
use cloudshield_enterprise.Worker.Tagging.{SafetyState}
use cloudshield_enterprise.Worker.Process.{process_job}
use cloudshield_enterprise.Worker.Attempts.{Spent}
use cloudshield_enterprise.Worker.Attempts.Sent.{IsStep, inert, sent}
use cloudshield_enterprise.Worker.Attempts.Runs.{Remembers, process-IsStep}

pub record Delivery (b : Backend) : Type 0 where
  pub earlier : Database b → Database b
  pub others : Database b → Database b
  pub later : Database b → Database b
  pub during : Database b → Database b
  pub environment : Environment
  pub provider : Provider
  pub job : GovernedAwsChangeJob
  pub now : ℕ
  pub relations : Relations

-- A delivery of a job of the plan, while other processes do not forget an attempt.
pub record IsFor (b : Backend) (id : String) (d : Delivery b) : Type 0 where
  pub of_plan : d.job.plan_id ≡ id
  pub earlier : Remembers b id d.earlier
  pub others : Remembers b id d.others
  pub later : Remembers b id d.later
  pub during : Remembers b id d.during

module _ (b : Backend) (fingerprint : SafetyState → Option String)
    (evidence_failure : ApprovalRequest → Option String) where
  abbrev pub deliver : Delivery b → World b → World b
  deliver d w =
      (process_job b fingerprint evidence_failure d.later d.during d.environment d.provider d.job
        d.now d.others (record w { db = d.earlier w.db }) d.relations).0

  abbrev pub deliver_all : List (Delivery b) → World b → World b
  deliver_all [] w = w
  deliver_all (d ∷ ds) w = deliver_all ds (deliver d w)

  module _ (id : String) where
    deliver-IsStep :
        (d : Delivery b) (w : World b)
        → IsFor b id d
        → IsStep b id (record w { db = d.earlier w.db }) (deliver d w)
    deliver-IsStep d w k =
        subst
          (λ (j : String).
            Remembers b j d.later
            → Remembers b j d.during
            → Remembers b j d.others
            → IsStep b j (record w { db = d.earlier w.db }) (deliver d w))
          k.of_plan
          (process-IsStep b fingerprint evidence_failure d.later d.during d.others d.environment
            d.provider d.job d.now d.relations (record w { db = d.earlier w.db }))
          k.later k.during k.others

    -- If a mutation may have been sent for the plan, then any number of deliveries of its jobs, whatever
    -- AWS replies, sends none, and it stays known that one may have been sent. Other processes must not
    -- reset the outcome to not attempted.
    pub Spent-sends_nothing :
        (ds : List (Delivery b)) (w : World b)
        → All (IsFor b id) ds
        → Spent b id w.db
        → ((deliver_all ds w).created ≡ w.created) × Spent b id (deliver_all ds w).db
    Spent-sends_nothing [] w k h = (refl, h)
    Spent-sends_nothing (d ∷ ds) w (k, ks) h = elim (deliver-IsStep d w k) [
      | inert step ↦
          let (same, kept) =
            Spent-sends_nothing ds (deliver d w) ks (step.spent (k.earlier w.db h)) in
          (same ∙ step.created, kept)
      | sent fresh more now ↦ absurd (fresh (k.earlier w.db h))
    ]

    -- Any number of deliveries of one plan's jobs, whatever AWS replies and whatever other processes write
    -- that does not reset the outcome to not attempted, sends at most one mutation.
    pub created_at_most_once :
        (ds : List (Delivery b)) (w : World b)
        → All (IsFor b id) ds
        → length (deliver_all ds w).created ≤ suc (length w.created)
    created_at_most_once [] w k = omega arith
    created_at_most_once (d ∷ ds) w (k, ks) = elim (deliver-IsStep d w k) [
      | inert step ↦ omega (arith, created_at_most_once ds (deliver d w) ks, ap length step.created)
      | sent fresh more now ↦
          let (same, _) = Spent-sends_nothing ds (deliver d w) ks now in
          omega (arith, ap length same, more)
    ]
