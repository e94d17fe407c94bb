-- ===== src/Posture/Justified.antt =====
-- What a run leaves open still fails.
use cloudshield_enterprise.Prelude.{
  String, ℕ, ◌≡◌, none, Bool, true, ◌&&◌, ◌||◌, not, some, List, any, ◌==◌, string_eq, option_beq,
}
use cloudshield_enterprise.Posture.{Resource}
use cloudshield_enterprise.Posture.Rules.{SecurityRule}
use cloudshield_enterprise.Posture.Engine.{
  is_active_status, EngineFinding, FindingKey, is_of_key, is_failing, is_open_finding,
}

-- The rule of a finding fails on its resource.
abbrev pub is_failing_for : EngineFinding → Resource → SecurityRule → Bool
is_failing_for f r rule =
    is_failing (rule.evaluate r)
    && (f.rule_id == rule.rule_id && option_beq f.resource_id (some r.id))

abbrev pub still_fails : List SecurityRule → List Resource → EngineFinding → Bool
still_fails rules resources f = any (λ r. any (is_failing_for f r) rules) resources

module _ (organization : String) (evaluated_at : ℕ) where
  -- The key stands for failures only.
  abbrev IsReason : List SecurityRule → List Resource → FindingKey → Type 0
  IsReason rules resources k =
      (f : EngineFinding) → is_of_key k f ≡ true → still_fails rules resources f ≡ true

  abbrev is_justified : List SecurityRule → List Resource → EngineFinding → Bool
  is_justified rules resources f =
      not (is_open_finding organization evaluated_at rules resources f)
      || still_fails rules resources f

  -- A finding of the rule engine itself that a run is to decide on: it is of the organisation, for an
  -- evaluated resource and a rule of the catalog, active, and not archived.
  pub record IsOpenFor (rules : List SecurityRule) (resources : List Resource) (f : EngineFinding)
      : Type 0 where
    pub own : f.organization_id ≡ organization
    pub by_engine : f.is_rule_engine ≡ true
    pub unarchived : f.archived_at ≡ none
    pub active : is_active_status f.status ≡ true
    pub evaluated : any (λ r. option_beq f.resource_id (some r.id)) resources ≡ true
    pub known_rule : any (λ rule. f.rule_id == rule.rule_id) rules ≡ true

  abbrev pub IsJustified : List SecurityRule → List Resource → EngineFinding → Type 0
  IsJustified rules resources f = IsOpenFor rules resources f → still_fails rules resources f ≡ true
