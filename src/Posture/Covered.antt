-- ===== src/Posture/Covered.antt =====
-- Every failing rule has a live finding after a run.
use cloudshield_enterprise.Prelude.{
  String, ℕ, ◌≡◌, Bool, true, ◌&&◌, ◌||◌, not, List, any, string_eq,
}
use cloudshield_enterprise.Posture.{Resource}
use cloudshield_enterprise.Posture.Rules.{SecurityRule}
use cloudshield_enterprise.Posture.Engine.{
  EngineFinding, FindingKey, EngineState, is_of_key, is_existing, is_resolved, is_failing, key_of,
}

-- An existing finding that is not resolved: it is open for work, or its risk is accepted.
abbrev pub is_live : String → FindingKey → EngineFinding → Bool
is_live organization k f = is_existing organization k f && not (is_resolved f.status)

module _ (organization : String) (evaluated_at : ℕ) where
  -- The state has a live finding for the key, and the key is among those that the run collects.
  pub record Covers (k : FindingKey) (s : EngineState) : Type 0 where
    pub live : any (is_live organization k) s.findings ≡ true
    pub collected :
        (f : EngineFinding)
        → is_of_key k f ≡ true
        → any (λ j. is_of_key j f) s.active_findings ≡ true

  -- What a failure of the rule on the resource brings about.
  abbrev Covered : EngineState → Resource → SecurityRule → Type 0
  Covered s r rule =
      is_failing (rule.evaluate r) ≡ true → Covers (key_of organization evaluated_at rule r) s

  abbrev pub is_covered : List EngineFinding → Resource → SecurityRule → Bool
  is_covered fs r rule =
      not (is_failing (rule.evaluate r))
      || any (is_live organization (key_of organization evaluated_at rule r)) fs
