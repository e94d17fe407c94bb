-- ===== src/Governance/MakerChecker.antt =====
-- No governed change is ever approved by its own author.
use mathlib.Core.Path.{subst}
use mathlib.Core.Option.{some-injective, none-ne-some}
use cloudshield_enterprise.Prelude.{
  String, ℕ, ◌≡◌, ◌≢◌, refl, sym, ◌∙◌, inl, inr, false, Option, none, some, List, [], ◌∷◌, ◌==◌,
  string_eq, nat_eq, option_beq, arith, Option-cases, Bool-cases, eq_iff,
}
use cloudshield_enterprise.Store.Rows.{Every, Every-update}
use cloudshield_enterprise.Governance.Types.{LifecycleState, lifecycle_state_eq}
use cloudshield_enterprise.Governance.Plan.{Plan, ApprovalRequest, ActorContext}
use cloudshield_enterprise.Governance.Backend.{
  Backend, Database, StoredPlan, find_plan, audited, owned_by,
}
use cloudshield_enterprise.Governance.Approval.{
  Decision, approve, reject, GovernedApprovalRequest, request_approval, opened, blocked_mutation,
  non_mutating_blocked_decision, is_past,
}
use cloudshield_enterprise.Governance.Decide.{
  undecided, awaits, decide_plan, persist_decision, decide_pending, lost, decide, needs_capture,
  on_pending, recheck, settled,
}

-- The approver of the plan is not its author.
abbrev pub IsChecked : {Json : Type 0} → Plan Json → Type 0
IsChecked p = p.approved_by_id ≢ some p.created_by_id

module _ (b : Backend) where
  abbrev pub AllChecked : Database b → Type 0
  AllChecked db = Every IsChecked b.plans db.plans

  -- What other processes write does not change who wrote a plan.
  abbrev pub KeepsAuthors : Database b → Database b → Type 0
  KeepsAuthors before after =
      (id : String) (p q : StoredPlan b)
      → b.plans.find before.plans id ≡ some p
      → b.plans.find after.plans id ≡ some q
      → q.created_by_id ≡ p.created_by_id

  blocked-AllChecked :
      (db : Database b) (actor : ActorContext) (plan : StoredPlan b) (reason : String) (now : ℕ)
      → AllChecked db
      → AllChecked (blocked_mutation b db actor plan reason now).0
  unfolding blocked_mutation audited
  blocked-AllChecked db actor plan reason now h =
      Every-update IsChecked b.plans db.plans plan.id _ _ (λ _. refl) (λ r _ _ k. k) h

  non_mutating-AllChecked :
      (db : Database b) (actor : ActorContext) (plan : StoredPlan b) (reason : String)
      → AllChecked db
      → AllChecked (non_mutating_blocked_decision b db actor plan reason).0
  unfolding non_mutating_blocked_decision audited
  non_mutating-AllChecked db actor plan reason h = h

  -- If every stored plan's approver differs from its author, before and after what other processes write
  -- meanwhile, then so it is after a request for approval, on every branch.
  pub request_approval-AllChecked :
      (others : Database b → Database b) (db : Database b) (actor : ActorContext) (plan_id : String)
      (body : GovernedApprovalRequest) (now : ℕ) (fresh : String)
      → AllChecked db
      → AllChecked (others db)
      → AllChecked (request_approval b others db actor plan_id body now fresh).0
  unfolding request_approval opened audited
  request_approval-AllChecked others db actor plan_id body now fresh h k =
      elim (Option-cases (find_plan b db actor plan_id)) [
        | inl absent ↦ rw (absent, request_approval) h
        | inr (plan, found) ↦ elim (Bool-cases (plan.lifecycle_state == LifecycleState.simulated)) [
          | inl ready ↦
              elim (Bool-cases
                (option_beq (some body.confirmation_token) plan.confirmation_token_required)) [
                  | inl token ↦
                      rw (found, ready, token, request_approval)
                        (Every-update IsChecked b.plans (others db).plans plan.id _ _ (λ _. refl)
                          (λ r _ _ m. m) k)
                  | inr token ↦
                      rw (found, ready, token, request_approval)
                        (blocked-AllChecked (others db) actor plan _ now k)
                ]
          | inr early ↦
              rw (found, early, request_approval)
                (blocked-AllChecked (others db) actor plan _ now k)
        ]
      ]

  owned-found :
      (organization : String) (o : Option (StoredPlan b)) (p : StoredPlan b)
      → owned_by b organization o ≡ some p
      → o ≡ some p
  owned-found organization none p e = cc
  owned-found organization (some r) p e = ground (arith, eq_iff r.organization_id organization)

  module _ (capture_failure : StoredPlan b → ApprovalRequest → Option String) where
    decide_plan-IsChecked :
        (actor : ActorContext) (body : GovernedApprovalRequest) (decision : Decision)
        (request_id : String) (now : ℕ) (r : StoredPlan b)
        → r.created_by_id ≢ actor.user_id
        → IsChecked (decide_plan b capture_failure actor body decision request_id now r)
    decide_plan-IsChecked actor body approve request_id now r other e =
        other (sym (some-injective _ _ e))
    decide_plan-IsChecked actor body reject request_id now r other e = none-ne-some _ e

    decide_plan-id :
        (actor : ActorContext) (body : GovernedApprovalRequest) (decision : Decision)
        (request_id : String) (now : ℕ) (r : StoredPlan b)
        → (decide_plan b capture_failure actor body decision request_id now r).id ≡ r.id
    decide_plan-id actor body approve request_id now r = refl
    decide_plan-id actor body reject request_id now r = refl

    persist-AllChecked :
        (db after : Database b) (actor : ActorContext) (plan : StoredPlan b)
        (approval : ApprovalRequest) (body : GovernedApprovalRequest) (decision : Decision)
        (now : ℕ)
        → ((r : StoredPlan b)
            → b.plans.find db.plans plan.id ≡ some r
            → r.created_by_id ≢ actor.user_id)
        → persist_decision b capture_failure db actor plan approval body decision now ≡ some after
        → AllChecked db
        → AllChecked after
    unfolding persist_decision audited
    persist-AllChecked db after actor plan approval body decision now other e h =
        elim (Bool-cases (
          recheck b capture_failure decision plan actor
            (b.approvals.find db.approvals approval.id))) [
              | inr bad ↦ absurd (none-ne-some after (rw (bad, persist_decision) at e))
              | inl fine ↦
                  elim (Bool-cases (
                    b.approvals.count db.approvals approval.id
                      (awaits actor.organization_id plan.id)
                    == 1)) [
                      | inr bad ↦
                          absurd (none-ne-some after (rw (fine, bad, persist_decision) at e))
                      | inl one ↦
                          elim (Bool-cases (
                            b.plans.count db.plans plan.id
                              (undecided b capture_failure actor.organization_id)
                            == 1)) [
                              | inr bad ↦
                                  absurd (
                                    none-ne-some after (rw (fine, one, bad, persist_decision) at e))
                              | inl two ↦
                                  subst AllChecked
                                    (some-injective _ after
                                      (rw (fine, one, two, persist_decision) at e))
                                    (Every-update IsChecked b.plans db.plans plan.id _ _
                                      (decide_plan-id actor body decision approval.id now)
                                      (λ r found _ _.
                                        decide_plan-IsChecked actor body decision approval.id now r
                                          (other r found))
                                      h)
                            ]
                    ]
            ]

    lost-AllChecked :
        (db : Database b) (actor : ActorContext) (plan_id : String)
        → AllChecked db
        → AllChecked (lost b capture_failure db actor plan_id).0
    unfolding lost non_mutating_blocked_decision audited
    lost-AllChecked db actor plan_id h = elim (Option-cases (find_plan b db actor plan_id)) [
      | inl e ↦ rw (e, lost) h
      | inr (current, e) ↦ rw (e, lost) h
    ]

    module _ (others : Database b → Database b) (db : Database b) (actor : ActorContext)
        (plan : StoredPlan b) (body : GovernedApprovalRequest) (decision : Decision) (now : ℕ)
        (h : AllChecked db) (k : AllChecked (others db))
        (other : (r : StoredPlan b)
          → b.plans.find (others db).plans plan.id ≡ some r
          → r.created_by_id ≢ actor.user_id) where
      settled-AllChecked :
          (approval : ApprovalRequest) (written : Option (Database b))
          → persist_decision b capture_failure (others db) actor plan approval body decision now
            ≡ written
          → AllChecked (settled b capture_failure (others db) actor plan.id decision written).0
      settled-AllChecked approval none e = lost-AllChecked (others db) actor plan.id k
      settled-AllChecked approval (some after) e =
          persist-AllChecked (others db) after actor plan approval body decision now other e k

      pending-AllChecked :
          (approval : ApprovalRequest)
          → AllChecked
              (decide_pending b capture_failure others db actor plan approval body decision now).0
      unfolding decide_pending
      pending-AllChecked approval =
          let decided = settled-AllChecked approval _ refl in
          elim (Bool-cases (is_past approval.expires_at now)) [
            | inl late ↦ rw (late, decide_pending) (blocked-AllChecked db actor plan _ now h)
            | inr valid ↦ elim (Bool-cases (needs_capture b capture_failure decision plan)) [
              | inr plain ↦ rw (valid, plain, decide_pending) decided
              | inl capture ↦ elim (Option-cases (capture_failure plan approval)) [
                | inl current ↦ rw (valid, capture, current, decide_pending) decided
                | inr (failure, stale) ↦
                    rw (valid, capture, stale, decide_pending)
                      (non_mutating-AllChecked db actor plan failure h)
              ]
            ]
          ]

      on_pending-AllChecked :
          (found : List ApprovalRequest)
          → AllChecked (on_pending b capture_failure others db actor plan body decision now found).0
      on_pending-AllChecked [] = lost-AllChecked db actor plan.id h
      on_pending-AllChecked (approval ∷ []) = pending-AllChecked approval
      on_pending-AllChecked (_ ∷ _ ∷ _) = blocked-AllChecked db actor plan _ now h

    -- If every stored plan's approver differs from its author, before and after what other processes write
    -- meanwhile, and they do not change who wrote a plan, then so it is after an approval or a rejection, on
    -- every branch.
    pub decide-AllChecked :
        (others : Database b → Database b) (db : Database b) (actor : ActorContext)
        (plan_id : String) (body : GovernedApprovalRequest) (decision : Decision) (now : ℕ)
        → AllChecked db
        → AllChecked (others db)
        → KeepsAuthors db (others db)
        → AllChecked (decide b capture_failure others db actor plan_id body decision now).0
    unfolding decide find_plan
    decide-AllChecked others db actor plan_id body decision now h k same =
        let different : (plan : StoredPlan b)
            → find_plan b db actor plan_id ≡ some plan
            → (plan.created_by_id == actor.user_id) ≡ false
            → (r : StoredPlan b) → b.plans.find (others db).plans plan.id ≡ some r
            → r.created_by_id ≢ actor.user_id =
          λ plan found other r there e.
            let stored =
              owned-found actor.organization_id (b.plans.find db.plans plan_id) plan found in
            let key = b.plans.find-key db.plans plan_id plan stored in
            let author =
              same plan.id plan r
                (subst (λ (id : String). b.plans.find db.plans id ≡ some plan) (sym key) stored)
                there in
            ground (arith, eq_iff plan.created_by_id actor.user_id, sym author ∙ e) in
        elim (Option-cases (find_plan b db actor plan_id)) [
          | inl absent ↦ rw (absent, decide) h
          | inr (plan, found) ↦
              elim (Bool-cases (plan.lifecycle_state == LifecycleState.pending_approval)) [
                | inr early ↦ rw (found, early, decide) (non_mutating-AllChecked db actor plan _ h)
                | inl ready ↦
                    elim (Bool-cases (
                      option_beq (some body.confirmation_token) plan.confirmation_token_required)) [
                        | inr token ↦
                            rw (found, ready, token, decide)
                              (blocked-AllChecked db actor plan _ now h)
                        | inl token ↦ elim (Bool-cases (plan.created_by_id == actor.user_id)) [
                          | inl self ↦
                              rw (found, ready, token, self, decide)
                                (blocked-AllChecked db actor plan _ now h)
                          | inr other ↦
                              rw (found, ready, token, other, decide)
                                (on_pending-AllChecked others db actor plan body decision now h k
                                  (different plan found other)
                                  (b.pending db.approvals actor.organization_id plan.id))
                        ]
                      ]
              ]
        ]
