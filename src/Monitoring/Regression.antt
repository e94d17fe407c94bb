-- ===== src/Monitoring/Regression.antt =====
-- How long an alert to a regressed control lasts.
use mathlib.Core.Path.{subst}
use cloudshield_enterprise.Prelude.{
  String, ℕ, ◌+◌, ◌≡◌, refl, sym, ◌∙◌, inl, inr, Bool, true, false, ◌&&◌, ◌||◌, not, Option, none,
  some, List, [], ◌∷◌, ◌++◌, map, any, All, All-append, length, if◌then◌else◌, ◌==◌, string_eq,
  nat_eq, ltb, leb, arith, eq_iff, Bool-cases, Option-cases,
}
use cloudshield_enterprise.Monitoring.{
  RuleKey, MonitoredAccount, MonitoredFinding, FailedScan, ControlState, AccountState, Snapshot,
  EvaluationInput, EvaluatedAlert, Fingerprints,
}
use cloudshield_enterprise.Monitoring.Engine.{
  high_findings, critical_findings, high_ids, increase_alerts, transition_alerts, regression_alerts,
  state_of_control, has_regressed, evaluate_rules, state_alerts, connectivity_alerts,
  freshness_alerts, critical_alerts, exposure_alerts, scan_alerts, finding_alert, previous_accounts,
  is_failing_status, was_usable, day_ms, freshness_alert,
}
use cloudshield_enterprise.Monitoring.Alerts.{
  build_snapshot, control_states, input_of, evaluated_alerts, evaluate_monitoring,
}
use cloudshield_enterprise.Monitoring.Stored.{
  SecurityAlert, MonitoringDb, Observed, rule_code, rule_eq, has_key, is_resolved,
}
use cloudshield_enterprise.Monitoring.Faults.{then_all}
use cloudshield_enterprise.Monitoring.Follow.{
  has_completed, is_expected, evaluate_monitoring-follows,
}

-- The status of the first row of a control.
abbrev pub first_status : List ControlState → String → Option String
first_status [] id = none
first_status (c ∷ cs) id = if c.control_id == id then some c.status else first_status cs id

-- Every row of a control has the same status.
abbrev pub IsUniform : List ControlState → Type 0
IsUniform cs = All (λ c. first_status cs c.control_id ≡ some c.status) cs

state-control_states :
    (seen cs : List ControlState) (id : String)
    → state_of_control (control_states seen cs) id
      ≡ (if any (λ s. s.control_id == id) seen then none else first_status cs id)
unfolding state_of_control control_states
state-control_states seen [] id = ground arith
state-control_states seen (c ∷ cs) id =
    ground (arith, eq_iff c.control_id id, state-control_states (c ∷ seen) cs id)

not_both : (s : String) → (s == "PASS" && s == "FAIL") ≡ false
not_both s = elim (Bool-cases (s == "PASS")) [
  | inl e ↦ rw ((eq_iff s "PASS").0 e) refl
  | inr e ↦ rw e refl
]

same_status :
    (previous : List ControlState) (c : ControlState)
    → state_of_control previous c.control_id ≡ some c.status
    → has_regressed previous c ≡ false
same_status previous c e = rw e (not_both c.status)

no_regression :
    (cs rows : List ControlState)
    → All (λ c. first_status cs c.control_id ≡ some c.status) rows
    → regression_alerts (control_states [] cs) rows ≡ []
unfolding regression_alerts
no_regression cs [] h = refl
no_regression cs (c ∷ rows) (k, h) =
    let now_ = state-control_states [] cs c.control_id ∙ k in
    rw (same_status (control_states [] cs) c now_) (no_regression cs rows h)

-- The alert is not to a regressed control.
abbrev IsOther : EvaluatedAlert → Type 0
IsOther e = (e.dedupe_key.rule_key == RuleKey.compliance_control_regressed) ≡ false

All-if :
    (c : Bool) (e : EvaluatedAlert) (es : List EvaluatedAlert)
    → IsOther e
    → All IsOther es
    → All IsOther (if c then e ∷ es else es)
All-if true e es k h = (k, h)
All-if false e es k h = h

connectivity-AllOther :
    (previous : List AccountState) (accounts : List MonitoredAccount)
    → All IsOther (connectivity_alerts previous accounts)
unfolding connectivity_alerts rule_code
connectivity-AllOther previous [] = tt
connectivity-AllOther previous (a ∷ accounts) =
    All-if (is_failing_status a.connection_status && was_usable previous a) _ _ refl
      (connectivity-AllOther previous accounts)

freshness-IsOther :
    (a : MonitoredAccount) (at : Option ℕ) (now : ℕ) → All IsOther (freshness_alert a at now)
unfolding rule_code
freshness-IsOther a none now = tt
freshness-IsOther a (some at) now = All-if (ltb (at + day_ms) now) _ [] refl tt

freshness-AllOther :
    (accounts : List MonitoredAccount) (now : ℕ) → All IsOther (freshness_alerts accounts now)
unfolding freshness_alerts
freshness-AllOther [] now = tt
freshness-AllOther (a ∷ accounts) now =
    All-append IsOther (freshness_alert a a.last_scan_at now) _
      (freshness-IsOther a a.last_scan_at now) (freshness-AllOther accounts now)

findings-AllOther :
    (rule : RuleKey) (findings : List MonitoredFinding)
    → (rule == RuleKey.compliance_control_regressed) ≡ false
    → All IsOther (map (finding_alert rule) findings)
findings-AllOther rule [] h = tt
findings-AllOther rule (f ∷ findings) h = (h, findings-AllOther rule findings h)

scan-AllOther : (scans : List FailedScan) (now : ℕ) → All IsOther (scan_alerts scans now)
unfolding scan_alerts rule_code
scan-AllOther [] now = tt
scan-AllOther (s ∷ scans) now =
    All-if (leb now (s.created_at + day_ms)) _ _ refl (scan-AllOther scans now)

exposure-AllOther : (findings : List MonitoredFinding) → All IsOther (exposure_alerts findings)
unfolding exposure_alerts rule_code
exposure-AllOther findings = findings-AllOther RuleKey.public_exposure_detected _ refl

critical-AllOther : (findings : List MonitoredFinding) → All IsOther (critical_alerts findings)
unfolding critical_alerts rule_code
critical-AllOther findings = findings-AllOther RuleKey.critical_security_finding findings refl

state_alerts-AllOther : (input : EvaluationInput) (now : ℕ) → All IsOther (state_alerts input now)
unfolding state_alerts
state_alerts-AllOther input now =
    All-append IsOther _ _
      (All-append IsOther _ _
        (All-append IsOther _ _
          (All-append IsOther _ _
            (connectivity-AllOther (previous_accounts input.previous_snapshot) input.accounts)
            (freshness-AllOther input.accounts now))
          (critical-AllOther (critical_findings input.open_findings)))
        (exposure-AllOther input.open_findings))
      (scan-AllOther input.failed_scans now)

-- If the rules do not throw, no alert is to a regressed control.
abbrev IsOtherIfAny : Option (List EvaluatedAlert) → Type 0
IsOtherIfAny none = Unit
IsOtherIfAny (some es) = All IsOther es

increase-IsOtherIfAny :
    (n : Option ℕ) (f : Fingerprints) (findings : List MonitoredFinding)
    → IsOtherIfAny (increase_alerts n f findings)
unfolding increase_alerts rule_code
increase-IsOtherIfAny none f findings = tt
increase-IsOtherIfAny (some n) f findings = elim (Bool-cases (ltb n (length findings))) [
  | inr e ↦ rw e tt
  | inl e ↦ rw e (elim (Option-cases (high_ids f)) [
    | inl thrown ↦ rw thrown tt
    | inr (known, found) ↦ rw found (refl, tt)
  ])
]

then_all-IsOtherIfAny :
    (o : Option (List EvaluatedAlert)) (f : List EvaluatedAlert → List EvaluatedAlert)
    → ((es : List EvaluatedAlert) → All IsOther es → All IsOther (f es))
    → IsOtherIfAny o
    → IsOtherIfAny (then_all o f)
then_all-IsOtherIfAny none f keep h = tt
then_all-IsOtherIfAny (some es) f keep h = keep es h

transition-IsOtherIfAny :
    (s : Snapshot) (findings : List MonitoredFinding) (cs : List ControlState)
    → regression_alerts s.compliance_states cs ≡ []
    → IsOtherIfAny (transition_alerts (some s) findings cs)
unfolding transition_alerts
transition-IsOtherIfAny s findings cs e =
    then_all-IsOtherIfAny (increase_alerts s.high_finding_count s.finding_fingerprints findings)
      (λ alerts. alerts ++ regression_alerts s.compliance_states cs)
      (λ es h. All-append IsOther es _ h (rw e tt))
      (increase-IsOtherIfAny s.high_finding_count s.finding_fingerprints findings)

evaluate-IsOtherIfAny :
    (input : EvaluationInput) (now : ℕ)
    → IsOtherIfAny (
        transition_alerts input.previous_snapshot
          (high_findings input.open_findings)
          input.current_compliances)
    → IsOtherIfAny (evaluate_rules input now)
unfolding evaluate_rules
evaluate-IsOtherIfAny input now h =
    then_all-IsOtherIfAny
      (transition_alerts input.previous_snapshot (high_findings input.open_findings)
        input.current_compliances)
      (λ transitions. state_alerts input now ++ transitions)
      (λ es k. All-append IsOther _ es (state_alerts-AllOther input now) k) h

-- An alert of the organisation to a regressed control is resolved.
abbrev pub is_settled : String → SecurityAlert → Bool
is_settled organization a =
    not (
      a.organization_id == organization
      && a.dedupe_key.rule_key == RuleKey.compliance_control_regressed)
    || is_resolved a.status

unexpected :
    (k : SecurityAlert) (es : List EvaluatedAlert)
    → All IsOther es
    → k.dedupe_key.rule_key == RuleKey.compliance_control_regressed ≡ true
    → any (λ e. has_key e.dedupe_key k.dedupe_key) es ≡ false
unexpected k [] h r = refl
unexpected k (e ∷ es) (o, h) r =
    ground
      (arith, rule_eq.same_iff k.dedupe_key.rule_key e.dedupe_key.rule_key, unexpected k es h r)

settled :
    (appends : EvaluatedAlert → Bool) (organization : String) (now : ℕ) (es : List EvaluatedAlert)
    (alerts : List SecurityAlert)
    → All IsOther es
    → All (λ a. is_expected appends organization now es a ≡ true) alerts
    → All (λ a. is_settled organization a ≡ true) alerts
settled appends organization now es [] o h = tt
settled appends organization now es (a ∷ alerts) o (k, h) =
    (ground (arith, unexpected a es o), settled appends organization now es alerts o h)

-- A completed run over the compliance evidence that the last snapshot was built from, in which the rows of
-- a control agree on its status, leaves every alert of the organisation to a regressed control resolved,
-- although the controls still fail.
pub evaluate_monitoring-settles :
    (appends : EvaluatedAlert → Bool) (organization : String) (now : ℕ) (db db' : MonitoringDb)
    (before p : Observed) (evaluated : List EvaluatedAlert)
    → db.latest_snapshot ≡ some (build_snapshot before)
    → p.current_compliances ≡ before.current_compliances
    → IsUniform before.current_compliances
    → evaluated_alerts organization now db p ≡ some evaluated
    → evaluate_monitoring appends organization now db p ≡ some db'
    → has_completed db'.run ≡ true
    → All (λ a. is_settled organization a ≡ true) db'.alerts
unfolding build_snapshot
evaluate_monitoring-settles appends organization now db db' before p evaluated built same uniform e
      run completed =
    let cs = before.current_compliances in
    let none_regressed : regression_alerts (control_states [] cs) p.current_compliances ≡ [] =
      subst (λ (rows : List ControlState). regression_alerts (control_states [] cs) rows ≡ [])
        (sym same) (no_regression cs cs uniform) in
    let other : IsOtherIfAny (evaluated_alerts organization now db p) =
      evaluate-IsOtherIfAny (input_of organization now p db.latest_snapshot) now (
        subst
          (λ (o : Option Snapshot).
            IsOtherIfAny
              (transition_alerts o (high_findings p.open_findings) p.current_compliances))
          (sym built)
          (transition-IsOtherIfAny (build_snapshot before) (high_findings p.open_findings)
            p.current_compliances none_regressed)) in
    settled appends organization now evaluated db'.alerts (subst IsOtherIfAny e other)
      (evaluate_monitoring-follows appends organization now db db' p evaluated e run completed).1
