-- ===== src/Posture/Evolves.antt =====
-- What the engine changes of the findings.
use mathlib.Core.Path.{subst}
use cloudshield_enterprise.Prelude.{
  String, ℕ, ◌≡◌, refl, ◌∙◌, inl, inr, ◌⊎◌, Bool, true, List, [], ◌∷◌, ◌++◌, any, All, All-map,
  arith, Bool-cases,
}
use cloudshield_enterprise.Store.Listed.{update_first}
use cloudshield_enterprise.Risk.Matrix.{WorkflowStatus, RiskStatus}
use cloudshield_enterprise.Posture.{Resource}
use cloudshield_enterprise.Posture.Rules.{SecurityRule}
use cloudshield_enterprise.Posture.Engine.{
  EngineFinding, FindingKey, EngineState, is_active_status, is_resolved, is_existing, see_again,
  opened_finding, is_failing, key_of, record_failure, evaluate_rule, evaluate_rules,
  evaluate_resources, is_over, resolve_finding, resolve_all, evaluate_security_rules,
}

-- The changes of a status while the rules are evaluated: a resolved finding may be reopened.
abbrev pub Reopens : RiskStatus → RiskStatus → Type 0
Reopens s t = (t ≡ s) ⊎ ((is_resolved s ≡ true) × (t ≡ RiskStatus.workflow WorkflowStatus.reopened))

-- The changes of a status after that: an active finding may be resolved.
abbrev pub Closes : RiskStatus → RiskStatus → Type 0
Closes s t =
    (t ≡ s) ⊎ ((is_active_status s ≡ true) × (t ≡ RiskStatus.workflow WorkflowStatus.resolved))

-- The changes in a run, one after the other.
abbrev pub Changes : RiskStatus → RiskStatus → Type 0
Changes s t = (u : RiskStatus) × Reopens s u × Closes u t

-- A row after a run: its status has changed as `R` lets it, its status columns agree if they did, and its
-- other columns of identity are as they were.
pub record Follows (R : RiskStatus → RiskStatus → Type 0) (f g : EngineFinding) : Type 0 where
  pub change : R f.status g.status
  pub synced : f.status ≡ f.workflow_status → g.status ≡ g.workflow_status
  pub same_organization : g.organization_id ≡ f.organization_id
  pub same_rule : g.rule_id ≡ f.rule_id
  pub same_resource : g.resource_id ≡ f.resource_id
  pub same_archival : g.archived_at ≡ f.archived_at

Follows-refl :
    {R : RiskStatus → RiskStatus → Type 0} (f : EngineFinding) → R f.status f.status → Follows R f f
Follows-refl f r = record {
  change = r;
  synced = λ e. e;
  same_organization = refl;
  same_rule = refl;
  same_resource = refl;
  same_archival = refl;
}

abbrev pub opened_status : RiskStatus
opened_status = RiskStatus.workflow WorkflowStatus.opened

-- The rows of a table before and after: none is lost, each has changed as `R` lets it, and each new one has
-- changed from OPEN.
pub data Evolves (R : RiskStatus → RiskStatus → Type 0)
    : List EngineFinding → List EngineFinding → Type 0 where
  created : {gs : List EngineFinding} → All (λ g. R opened_status g.status) gs → Evolves R [] gs
  kept :
      {f g : EngineFinding} {fs gs : List EngineFinding}
      → Follows R f g
      → Evolves R fs gs
      → Evolves R (f ∷ fs) (g ∷ gs)

Evolves-refl :
    {R : RiskStatus → RiskStatus → Type 0}
    → ((s : RiskStatus) → R s s)
    → (fs : List EngineFinding) → Evolves R fs fs
Evolves-refl r [] = Evolves.created tt
Evolves-refl r (f ∷ fs) = Evolves.kept (Follows-refl f (r f.status)) (Evolves-refl r fs)

-- Two passes, one after the other.
module _ {R Q S : RiskStatus → RiskStatus → Type 0}
    (compose : (s t u : RiskStatus) → R s t → Q t u → S s u)
    (start : R opened_status opened_status) where
  Follows-trans : {f g h : EngineFinding} → Follows R f g → Follows Q g h → Follows S f h
  Follows-trans a b = record {
    change = compose _ _ _ a.change b.change;
    synced = λ e. b.synced (a.synced e);
    same_organization = b.same_organization ∙ a.same_organization;
    same_rule = b.same_rule ∙ a.same_rule;
    same_resource = b.same_resource ∙ a.same_resource;
    same_archival = b.same_archival ∙ a.same_archival;
  }

  created-Evolves :
      {gs hs : List EngineFinding}
      → Evolves Q gs hs
      → All (λ g. R opened_status g.status) gs
      → All (λ g. S opened_status g.status) hs
  created-Evolves {hs = hs} (Evolves.created b) a = All-map (λ g q. compose _ _ _ start q) hs b
  created-Evolves (Evolves.kept f e) (a, b) = (compose _ _ _ a f.change, created-Evolves e b)

  Evolves-trans :
      {fs gs hs : List EngineFinding} → Evolves R fs gs → Evolves Q gs hs → Evolves S fs hs
  Evolves-trans (Evolves.created a) e = Evolves.created (created-Evolves e a)
  Evolves-trans (Evolves.kept f d) (Evolves.kept g e) =
      Evolves.kept (Follows-trans f g) (Evolves-trans d e)

Reopens-trans : (s t u : RiskStatus) → Reopens s t → Reopens t u → Reopens s u
Reopens-trans s t u (inl a) (inl b) = inl (b ∙ a)
Reopens-trans s t u (inl a) (inr (r, b)) =
    inr (subst (λ (x : RiskStatus). is_resolved x ≡ true) a r, b)
Reopens-trans s t u (inr (r, a)) (inl b) = inr (r, b ∙ a)
Reopens-trans s t u (inr (r, a)) (inr (q, b)) = inr (r, b)

see_again-Follows : (at : ℕ) (f : EngineFinding) → Follows Reopens f (see_again at f)
unfolding see_again
see_again-Follows at f = elim (Bool-cases (is_resolved f.status)) [
  | inl e ↦ rw e (record {
    change = inr (e, refl);
    synced = λ k. refl;
    same_organization = refl;
    same_rule = refl;
    same_resource = refl;
    same_archival = refl;
  })
  | inr e ↦ rw e (record {
    change = inl refl;
    synced = λ k. k;
    same_organization = refl;
    same_rule = refl;
    same_resource = refl;
    same_archival = refl;
  })
]

resolve_finding-Follows :
    (organization : String) (at : ℕ) (f : EngineFinding)
    → is_active_status f.status ≡ true
    → Follows Closes f (resolve_finding organization at f)
resolve_finding-Follows organization at f h = record {
  change = inr (h, refl);
  synced = λ e. refl;
  same_organization = refl;
  same_rule = refl;
  same_resource = refl;
  same_archival = refl;
}

update_first-Evolves :
    (where_ : EngineFinding → Bool) (at : ℕ) (fs : List EngineFinding)
    → Evolves Reopens fs (update_first where_ (see_again at) fs)
unfolding update_first
update_first-Evolves where_ at [] = Evolves.created tt
update_first-Evolves where_ at (f ∷ fs) = elim (Bool-cases (where_ f)) [
  | inl e ↦ rw e (Evolves.kept (see_again-Follows at f) (Evolves-refl (λ s. inl refl) fs))
  | inr e ↦ rw e (Evolves.kept (Follows-refl f (inl refl)) (update_first-Evolves where_ at fs))
]

append-Evolves :
    (fs : List EngineFinding) (g : EngineFinding)
    → Reopens opened_status g.status
    → Evolves Reopens fs (fs ++ (g ∷ []))
append-Evolves [] g h = Evolves.created (h, tt)
append-Evolves (f ∷ fs) g h = Evolves.kept (Follows-refl f (inl refl)) (append-Evolves fs g h)

module _ (organization : String) (evaluated_at : ℕ) where
  evaluate_rule-Evolves :
      (r : Resource) (rule : SecurityRule) (s : EngineState)
      → Evolves Reopens s.findings (evaluate_rule organization evaluated_at r rule s).findings
  unfolding evaluate_rule record_failure
  evaluate_rule-Evolves r rule s = elim (Bool-cases (is_failing (rule.evaluate r))) [
    | inr e ↦ rw e (Evolves-refl (λ t. inl refl) s.findings)
    | inl e ↦
        let k = key_of organization evaluated_at rule r in
        rw e (elim (Bool-cases (any (is_existing organization k) s.findings)) [
          | inl found ↦
              rw found (update_first-Evolves (is_existing organization k) evaluated_at s.findings)
          | inr absent ↦ rw absent (
              append-Evolves s.findings (opened_finding organization r rule evaluated_at)
                (inl refl))
        ])
  ]

  evaluate_rules-Evolves :
      (r : Resource) (rules : List SecurityRule) (s : EngineState)
      → Evolves Reopens s.findings (evaluate_rules organization evaluated_at r rules s).findings
  unfolding evaluate_rules
  evaluate_rules-Evolves r [] s = Evolves-refl (λ t. inl refl) s.findings
  evaluate_rules-Evolves r (rule ∷ rules) s =
      Evolves-trans Reopens-trans (inl refl) (evaluate_rule-Evolves r rule s)
        (evaluate_rules-Evolves r rules _)

  evaluate_resources-Evolves :
      (rules : List SecurityRule) (rs : List Resource) (s : EngineState)
      → Evolves Reopens s.findings
          (evaluate_resources organization evaluated_at rules rs s).findings
  unfolding evaluate_resources
  evaluate_resources-Evolves rules [] s = Evolves-refl (λ t. inl refl) s.findings
  evaluate_resources-Evolves rules (r ∷ rs) s =
      Evolves-trans Reopens-trans (inl refl) (evaluate_rules-Evolves r rules s)
        (evaluate_resources-Evolves rules rs _)

  resolve_all-Evolves :
      (rules : List SecurityRule) (resources : List Resource) (active : List FindingKey)
      (fs : List EngineFinding)
      → Evolves Closes fs (resolve_all organization evaluated_at rules resources active fs)
  unfolding resolve_all
  resolve_all-Evolves rules resources active [] = Evolves.created tt
  resolve_all-Evolves rules resources active (f ∷ fs) =
      let rest = resolve_all-Evolves rules resources active fs in
      elim (Bool-cases (is_over organization evaluated_at rules resources active f)) [
        | inl e ↦
            rw e (
              Evolves.kept (resolve_finding-Follows organization evaluated_at f (ground arith))
                rest)
        | inr e ↦ rw e (Evolves.kept (Follows-refl f (inl refl)) rest)
      ]

  -- A run of the engine loses no finding; a status stays as it was, but for resolved findings, which may be
  -- reopened, and then for active ones, which may be resolved; a new finding starts as OPEN. The run leaves
  -- the two status columns of a finding equal where they were, and its rule, resource, organisation and
  -- archival as they were.
  pub evaluate-Evolves :
      (rules : List SecurityRule) (resources : List Resource) (s : EngineState)
      → Evolves Changes s.findings
          (evaluate_security_rules organization evaluated_at rules resources s).0.findings
  unfolding evaluate_security_rules
  evaluate-Evolves rules resources s =
      Evolves-trans {S = Changes} (λ _ t _ r q. (t, r, q)) (inl refl)
        (evaluate_resources-Evolves rules resources _) (resolve_all-Evolves rules resources _ _)
