-- ===== src/Worker/Attempts/Sent.antt =====
-- The steps of a tagging job, up to the one that sends.
use mathlib.Core.Path.{subst}
use cloudshield_enterprise.Prelude.{
  String, ℕ, suc, ◌≡◌, ◌≢◌, refl, sym, ap, ◌∙◌, Bool, true, false, Option, none, some, List, length,
  if◌then◌else◌, ◌==◌, string_eq, nat_eq, option_beq, arith, option_beq_iff,
}
use cloudshield_enterprise.Store.{counted, matches, rewritten}
use cloudshield_enterprise.Store.Rows.{Holds, Holds-update, find-updated}
use cloudshield_enterprise.Governance.Types.{
  MutationOutcome, mutation_outcome_eq, mutation_outcome_code, lifecycle_state_eq,
}
use cloudshield_enterprise.Governance.Plan.{Plan}
use cloudshield_enterprise.Governance.Backend.{Backend, Database, StoredPlan}
use cloudshield_enterprise.Worker.Job.{
  World, WorkerReply, Relations, Provider, Environment, Attempt, threw, returned, Instance,
  CreateReply, malformed, accepted, Identity, CreateTags,
}
use cloudshield_enterprise.Worker.Gates.{
  has_tags, preflight_failure, identity_failure, is_definitive,
}
use cloudshield_enterprise.Worker.Record.{worker_audited}
use cloudshield_enterprise.Worker.Tagging.{
  SafetyState, confirm, verify, after_create, send_recorded, send, with_instance, with_identity,
  execute_tagging, is_unattempted, attempt_plan, has_outcome, expected_outcome, unidentified,
  state_failure, has_request_id,
}
use cloudshield_enterprise.Worker.Attempts.{
  IsSpent, Spent, IsInert, then-IsInert, if-IsInert, fail-IsInert, persist-IsInert,
}

-- A row whose outcome is the expected one is not spent where that is no attempt.
confirm-IsSpent :
    (attempted : Bool) (o : Option MutationOutcome)
    → option_beq o (some (expected_outcome attempted)) ≡ true
    → o ≢ some MutationOutcome.not_attempted
    → some
        (if attempted then MutationOutcome.confirmed_succeeded else MutationOutcome.not_attempted)
      ≢ some MutationOutcome.not_attempted
unfolding mutation_outcome_code
confirm-IsSpent true o e h k =
    ground (arith, ap (λ p. option_beq p (some MutationOutcome.not_attempted)) k)
confirm-IsSpent false o e h k = h ((option_beq_iff o (some MutationOutcome.not_attempted)).0 e)

attempted-IsSpent : some MutationOutcome.attempted ≢ some MutationOutcome.not_attempted
unfolding mutation_outcome_code
attempted-IsSpent e = ground (arith, ap (λ o. option_beq o (some MutationOutcome.not_attempted)) e)

module _ (b : Backend) (fingerprint : SafetyState → Option String) (plan : StoredPlan b)
    (relations : Relations) (user : String) (now : ℕ) where
  confirm-IsInert :
      (w : World b) (attempted : Bool) (request_id : Option String)
      → IsInert b plan.id w (confirm b fingerprint plan relations user now w attempted request_id).0
  unfolding confirm worker_audited
  confirm-IsInert w attempted request_id =
      if-IsInert b plan.id w
        (b.plans.count w.db.plans plan.id (has_outcome b fingerprint (expected_outcome attempted))
          == 1)
        _ _
        (λ _. record {
          created = refl;
          spent =
              Holds-update IsSpent b.plans w.db.plans plan.id _ _ plan.id (λ _. refl)
                (λ r _ e h. confirm-IsSpent attempted r.mutation_outcome e h);
        })
        λ _.
          if-IsInert b plan.id w attempted _ _
            (λ _. persist-IsInert b plan.id w plan true _ request_id now)
            λ _. fail-IsInert b plan.id w plan.id _ now

  pub verify-IsInert :
      (w : World b) (attempted : Bool) (request_id : Option String) (after : Attempt Instance)
      → IsInert b plan.id w
          (verify b fingerprint plan relations user now w attempted request_id after).0
  unfolding verify
  verify-IsInert w attempted request_id (threw c error_id) =
      if-IsInert b plan.id w attempted _ _ (λ _. persist-IsInert b plan.id w plan true _ _ now)
        λ _. fail-IsInert b plan.id w plan.id _ now
  verify-IsInert w attempted request_id (returned after) =
      if-IsInert b plan.id w (has_tags after.tags relations.payload.tags) _ _
        (λ _. confirm-IsInert w attempted request_id)
        λ _.
          if-IsInert b plan.id w attempted _ _
            (λ _. persist-IsInert b plan.id w plan true _ request_id now)
            λ _. fail-IsInert b plan.id w plan.id _ now

  after_create-IsInert :
      (w : World b) (after : Attempt Instance) (reply : Attempt CreateReply)
      → IsInert b plan.id w (after_create b fingerprint plan relations user now w after reply).0
  unfolding after_create
  after_create-IsInert w after (threw c error_id) =
      if-IsInert b plan.id w (is_definitive c) _ _
        (λ _. persist-IsInert b plan.id w plan false _ error_id now)
        λ _. persist-IsInert b plan.id w plan true _ error_id now
  after_create-IsInert w after (returned malformed) =
      persist-IsInert b plan.id w plan true _ none now
  after_create-IsInert w after (returned (accepted none)) = verify-IsInert w true none after
  after_create-IsInert w after (returned (accepted (some request_id))) =
      if-IsInert b plan.id w (b.plans.count w.db.plans plan.id (unidentified b fingerprint) == 1) _
        _
        (λ _.
          then-IsInert b plan.id w _ _
            (record {
              created = refl;
              spent =
                  Holds-update IsSpent b.plans w.db.plans plan.id _ _ plan.id (λ _. refl)
                    (λ r _ _ h. h);
            })
            (verify-IsInert _ true (some request_id) after))
        λ _.
          if-IsInert b plan.id w
            (has_request_id b fingerprint request_id (b.plans.find w.db.plans plan.id)) _ _
            (λ _. verify-IsInert w true (some request_id) after)
            λ _. persist-IsInert b plan.id w plan true _ (some request_id) now

-- A step that sends nothing, or sends once for a plan for which nothing was sent before.
pub data IsStep (b : Backend) (id : String) (before after : World b) : Type 0 where
  inert : IsInert b id before after → IsStep b id before after
  sent :
      (Spent b id before.db → ⊥)
      → length after.created ≡ suc (length before.created)
      → Spent b id after.db
      → IsStep b id before after

module _ (b : Backend) (id : String) where
  pub inert-IsStep : (u v w : World b) → IsInert b id u v → IsStep b id v w → IsStep b id u w
  inert-IsStep u v w h (inert k) = inert (then-IsInert b id u v w h k)
  inert-IsStep u v w h (sent fresh more k) =
      sent (λ s. fresh (h.spent s)) (more ∙ ap (λ (l : List CreateTags). suc (length l)) h.created)
        k

  pub elim-IsStep :
      (w : World b) (o : Option String) (x : String → World b × WorkerReply)
      (y : World b × WorkerReply)
      → ((reason : String) → IsInert b id w (x reason).0)
      → IsStep b id w y.0
      → IsStep b id w
          (elim o as (λ _. World b × WorkerReply) [ none ↦ y | some reason ↦ x reason ]).0
  elim-IsStep w none x y h k = k
  elim-IsStep w (some reason) x y h k = inert (h reason)

  pub if-IsStep :
      (w : World b) (c : Bool) (x y : World b × WorkerReply)
      → (c ≡ true → IsStep b id w x.0)
      → (c ≡ false → IsStep b id w y.0)
      → IsStep b id w (if c then x else y).0
  if-IsStep w true x y h k = h refl
  if-IsStep w false x y h k = k refl

-- What the barrier matches is not spent, and what it writes is.
pub unattempted-fresh :
    {Json : Type 0} (where_ : Plan Json → Bool) (o : Option (Plan Json))
    → ((r : Plan Json) → where_ r ≡ true → r.mutation_outcome ≡ some MutationOutcome.not_attempted)
    → matches where_ o ≡ true
    → Holds IsSpent o
    → ⊥
unattempted-fresh where_ none only e h = ground (arith, e)
unattempted-fresh where_ (some r) only e h = h (only r e)

written-IsSpent :
    {Json : Type 0} (where_ : Plan Json → Bool) (write : Plan Json → Plan Json)
    (o : Option (Plan Json))
    → ((r : Plan Json) → IsSpent (write r))
    → matches where_ o ≡ true
    → Holds IsSpent (rewritten where_ write o)
written-IsSpent where_ write none keep e = tt
written-IsSpent where_ write (some r) keep e =
    subst (λ (c : Bool). IsSpent (if c then write r else r)) (sym e) (keep r)

module _ (b : Backend) (fingerprint : SafetyState → Option String) (plan : StoredPlan b)
    (relations : Relations) (user : String) (now : ℕ) (later during : Database b → Database b)
    (provider : Provider)
    (kept_later : (d : Database b) → Spent b plan.id d → Spent b plan.id (later d))
    (kept_during : (d : Database b) → Spent b plan.id d → Spent b plan.id (during d)) where
  unattempted_outcome :
      (organization : String) (r : StoredPlan b)
      → is_unattempted b fingerprint organization r ≡ true
      → option_beq r.mutation_outcome (some MutationOutcome.not_attempted) ≡ true
  unattempted_outcome organization r h = ground arith

  send_recorded-IsStep :
      (w : World b) (won : Bool)
      → matches
          (is_unattempted b fingerprint plan.organization_id)
          (b.plans.find w.db.plans plan.id)
        ≡ won
      → IsStep b plan.id w
          (send_recorded b fingerprint plan relations user now later during provider w won).0
  unfolding send_recorded worker_audited
  send_recorded-IsStep w false e = inert (fail-IsInert b plan.id w plan.id _ now)
  send_recorded-IsStep w true e =
      let rest =
        after_create-IsInert b fingerprint plan relations user now _ provider.after
          provider.create in
      sent
        (unattempted-fresh (is_unattempted b fingerprint plan.organization_id)
          (b.plans.find w.db.plans plan.id)
          (λ r h.
            (option_beq_iff r.mutation_outcome (some MutationOutcome.not_attempted)).0
              (unattempted_outcome plan.organization_id r h))
          e)
        (ap length rest.created)
        (rest.spent (
          kept_during _ (
            subst (Holds IsSpent)
              (sym (
                find-updated b.plans w.db.plans plan.id _ (attempt_plan b fingerprint now)
                  λ _. refl))
              (written-IsSpent _ _ (b.plans.find w.db.plans plan.id) (λ _. attempted-IsSpent) e))))

  send-IsStep :
      (w : World b)
      → IsStep b plan.id w (send b fingerprint plan relations user now later during provider w).0
  unfolding send
  send-IsStep w =
      send_recorded-IsStep w _ (
        sym
          (counted b.plans w.db.plans plan.id (is_unattempted b fingerprint plan.organization_id)))

  with_instance-IsStep :
      (w : World b) (before : Attempt Instance)
      → IsStep b plan.id w
          (with_instance b fingerprint plan relations user now later during provider w before).0
  unfolding with_instance
  with_instance-IsStep w (threw c error_id) = inert (fail-IsInert b plan.id w plan.id _ now)
  with_instance-IsStep w (returned before) =
      elim-IsStep b plan.id w (state_failure b fingerprint relations before) _ _
        (λ reason. fail-IsInert b plan.id w plan.id reason now)
        (if-IsStep b plan.id w (has_tags before.tags relations.payload.tags) _ _
          (λ _.
            inert
              (verify-IsInert b fingerprint plan relations user now w false none provider.after))
          λ _.
            inert-IsStep b plan.id w _ _ (record { created = refl; spent = kept_later w.db })
              (send-IsStep _))

  with_identity-IsStep :
      (env : Environment) (w : World b) (reply : Attempt Identity)
      → IsStep b plan.id w
          (with_identity b fingerprint plan relations user now later during provider env w reply).0
  unfolding with_identity
  with_identity-IsStep env w (threw c error_id) = inert (fail-IsInert b plan.id w plan.id _ now)
  with_identity-IsStep env w (returned identity) =
      elim-IsStep b plan.id w (identity_failure env _ identity) _ _
        (λ reason. fail-IsInert b plan.id w plan.id reason now)
        (with_instance-IsStep w provider.before)

  pub execute-IsStep :
      (env : Environment) (w : World b)
      → IsStep b plan.id w
          (execute_tagging b fingerprint plan relations user now later during provider env w).0
  unfolding execute_tagging
  execute-IsStep env w =
      elim-IsStep b plan.id w (preflight_failure env _ _ relations.payload.tags) _ _
        (λ reason. fail-IsInert b plan.id w plan.id reason now)
        (with_identity-IsStep env w provider.identity)
