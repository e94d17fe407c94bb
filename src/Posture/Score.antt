-- ===== src/Posture/Score.antt =====
-- The score of an account (packages/database/src/security-posture/account-security-posture.ts).
-- The rows of a query are a list; the resource of a finding is looked up by its id.
use cloudshield_enterprise.Prelude.{
  String, ℕ, ◌+◌, ◌-◌, ◌*◌, min, max, Bool, true, false, not, ◌&&◌, Option, none, some, List,
  length, filter, if◌then◌else◌, ltb, ◌==◌, string_eq, nat_eq, is_some,
}
use cloudshield_enterprise.Posture.{Resource, Severity}
use cloudshield_enterprise.Posture.Engine.{EngineFinding, is_active_status}

pub record SeverityCounts : Type 0 where
  pub critical : ℕ
  pub high : ℕ
  pub medium : ℕ
  pub low : ℕ
  pub info : ℕ

-- `SECURITY_FINDING_PENALTIES`
unfoldable pub penalty : Severity → ℕ
penalty Severity.critical = 15
penalty Severity.high = 7
penalty Severity.medium = 3
penalty Severity.low = 1
penalty Severity.info = 0

-- A number of JavaScript that is whole: `negsuc n` is `- (n + 1)`.
pub data ℤ : Type 0 where
  pos : ℕ → ℤ
  negsuc : ℕ → ℤ

-- `a - b`
abbrev pub minus : ℕ → ℕ → ℤ
minus a b = if ltb a b then negsuc (b - a - 1) else pos (a - b)

-- `Math.min` and `Math.max`
abbrev pub min_ℤ : ℤ → ℤ → ℤ
min_ℤ (pos a) (pos b) = pos (min a b)
min_ℤ (pos a) (negsuc b) = negsuc b
min_ℤ (negsuc a) (pos b) = negsuc a
min_ℤ (negsuc a) (negsuc b) = negsuc (max a b)

abbrev pub max_ℤ : ℤ → ℤ → ℤ
max_ℤ (pos a) (pos b) = pos (max a b)
max_ℤ (pos a) (negsuc b) = pos a
max_ℤ (negsuc a) (pos b) = pos b
max_ℤ (negsuc a) (negsuc b) = negsuc (min a b)

unfoldable pub calculate_security_score : SeverityCounts → ℤ
unfolding penalty
calculate_security_score counts =
    let total =
      counts.critical * penalty Severity.critical
      + counts.high * penalty Severity.high
      + counts.medium * penalty Severity.medium
      + counts.low * penalty Severity.low
      + counts.info * penalty Severity.info in
    max_ℤ (pos 0) (min_ℤ (pos 100) (minus 100 total))

abbrev pub is_severity : Severity → Severity → Bool
is_severity Severity.critical Severity.critical = true
is_severity Severity.high Severity.high = true
is_severity Severity.medium Severity.medium = true
is_severity Severity.low Severity.low = true
is_severity Severity.info Severity.info = true
is_severity _ _ = false

abbrev pub is_live_synced : Option Resource → Bool
is_live_synced none = false
is_live_synced (some r) = r.is_synced && not (is_some r.archived_at)

-- `AccountSecurityPosture`
pub record AccountPosture : Type 0 where
  pub score : ℤ
  pub active_finding_count : ℕ
  pub evaluated_resource_count : ℕ
  pub severity_counts : SeverityCounts

module _ (organization account : String) (resource_of : EngineFinding → Option Resource) where
  -- The `where` of the query of findings, for the account's group.
  abbrev pub counts_for : EngineFinding → Bool
  counts_for f =
      f.organization_id == organization
      && (f.aws_account_id == account
          && (not (is_some f.archived_at)
              && (is_active_status f.workflow_status && is_live_synced (resource_of f))))

  -- The `where` of the query of resources.
  abbrev pub is_evaluated : Resource → Bool
  is_evaluated r =
      r.organization_id == organization
      && (r.aws_account_id == account && (r.is_synced && not (is_some r.archived_at)))

  -- `_count` of the account's group of one severity
  unfoldable pub severity_count : Severity → List EngineFinding → ℕ
  severity_count severity fs =
      length (filter (λ f. counts_for f && is_severity severity f.severity) fs)

  unfoldable pub severity_counts : List EngineFinding → SeverityCounts
  severity_counts fs = record {
    critical = severity_count Severity.critical fs;
    high = severity_count Severity.high fs;
    medium = severity_count Severity.medium fs;
    low = severity_count Severity.low fs;
    info = severity_count Severity.info fs;
  }

  -- `getAccountSecurityPostures` for one of the accounts; an account without evaluated resources has no
  -- posture.
  unfoldable pub account_posture : List Resource → List EngineFinding → Option AccountPosture
  unfolding severity_counts
  account_posture resources fs =
      let evaluated = length (filter is_evaluated resources) in
      let counts = severity_counts fs in
      if evaluated == 0
      then none
      else some (record {
        score = calculate_security_score counts;
        active_finding_count =
            counts.critical + counts.high + counts.medium + counts.low + counts.info;
        evaluated_resource_count = evaluated;
        severity_counts = counts;
      })
