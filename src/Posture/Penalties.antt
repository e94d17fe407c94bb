-- ===== src/Posture/Penalties.antt =====
-- The score as a sum over the findings.
use cloudshield_enterprise.Prelude.{
  String, ℕ, ◌+◌, ◌-◌, ◌*◌, ◌≤◌, ◌≡◌, refl, Bool, ◌&&◌, Option, some, List, [], ◌∷◌, length, filter,
  if◌then◌else◌, ltb, nat_eq, string_eq, arith,
}
use cloudshield_enterprise.Posture.{Resource, Severity}
use cloudshield_enterprise.Posture.Engine.{EngineFinding}
use cloudshield_enterprise.Posture.Score.{
  pos, penalty, calculate_security_score, is_severity, AccountPosture, counts_for, is_evaluated,
  severity_count, severity_counts, account_posture,
}

module _ (organization account : String) (resource_of : EngineFinding → Option Resource) where
  -- The penalties of the findings that count, one by one.
  pub total_penalty : List EngineFinding → ℕ
  total_penalty [] = 0
  total_penalty (f ∷ fs) =
      (if counts_for organization account resource_of f then penalty f.severity else 0)
      + total_penalty fs

  abbrev count : Severity → List EngineFinding → ℕ
  count = severity_count organization account resource_of

  abbrev add_if : Bool → ℕ → ℕ
  add_if c n = if c then n + 1 else n

  count-cons :
      (severity : Severity) (f : EngineFinding) (fs : List EngineFinding)
      → count severity (f ∷ fs)
        ≡ add_if
            (counts_for organization account resource_of f && is_severity severity f.severity)
            (count severity fs)
  unfolding severity_count
  count-cons severity f fs = ground arith

  count-nil : (severity : Severity) → count severity [] ≡ 0
  unfolding severity_count
  count-nil severity = refl

  -- The penalty of the groups is that of the findings.
  penalty_of_groups :
      (fs : List EngineFinding)
      → count Severity.critical fs * 15
          + count Severity.high fs * 7
          + count Severity.medium fs * 3
          + count Severity.low fs
        ≡ total_penalty fs
  unfolding total_penalty penalty
  penalty_of_groups [] = omega (
    arith,
    count-nil Severity.critical,
    count-nil Severity.high,
    count-nil Severity.medium,
    count-nil Severity.low,
  )
  penalty_of_groups (f ∷ fs) = ground (
    arith,
    penalty_of_groups fs,
    count-cons Severity.critical f fs,
    count-cons Severity.high f fs,
    count-cons Severity.medium f fs,
    count-cons Severity.low f fs,
  )

  abbrev pub counted_findings : List EngineFinding → ℕ
  counted_findings fs = length (filter (counts_for organization account resource_of) fs)

  counted-cons :
      (f : EngineFinding) (fs : List EngineFinding)
      → counted_findings (f ∷ fs)
        ≡ add_if (counts_for organization account resource_of f) (counted_findings fs)
  counted-cons f fs = ground arith

  -- Every finding that counts is in one of the groups.
  count_of_groups :
      (fs : List EngineFinding)
      → count Severity.critical fs
          + count Severity.high fs
          + count Severity.medium fs
          + count Severity.low fs
          + count Severity.info fs
        ≡ counted_findings fs
  count_of_groups [] = omega (
    arith,
    count-nil Severity.critical,
    count-nil Severity.high,
    count-nil Severity.medium,
    count-nil Severity.low,
    count-nil Severity.info,
  )
  count_of_groups (f ∷ fs) = ground (
    arith,
    count_of_groups fs,
    counted-cons f fs,
    count-cons Severity.critical f fs,
    count-cons Severity.high f fs,
    count-cons Severity.medium f fs,
    count-cons Severity.low f fs,
    count-cons Severity.info f fs,
  )

  score_of_groups :
      (fs : List EngineFinding)
      → calculate_security_score (severity_counts organization account resource_of fs)
        ≡ pos (if ltb (total_penalty fs) 100 then 100 - total_penalty fs else 0)
  unfolding calculate_security_score severity_counts penalty
  score_of_groups fs = ground (arith, penalty_of_groups fs)

  -- A posture is given only for an account with evaluated resources; its score is 100 less the penalty of
  -- each finding that counts where these add up to less than 100, and 0 where they do not; its number of
  -- findings is that of those that count.
  pub account_posture_lem :
      (resources : List Resource) (fs : List EngineFinding) (p : AccountPosture)
      → account_posture organization account resource_of resources fs ≡ some p
      → (p.score ≡ pos (if ltb (total_penalty fs) 100 then 100 - total_penalty fs else 0))
        × (p.active_finding_count ≡ counted_findings fs)
        × (1 ≤ length (filter (is_evaluated organization account resource_of) resources))
  unfolding account_posture severity_counts
  account_posture_lem resources fs p e =
      (ground (arith, score_of_groups fs), ground (arith, count_of_groups fs), ground arith)
