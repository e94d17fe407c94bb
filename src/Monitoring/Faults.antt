-- ===== src/Monitoring/Faults.antt =====
-- Where the engine does not tell what it is meant to tell.
use mathlib.Core.Path.{subst}
use mathlib.Core.Option.{some-injective}
use cloudshield_enterprise.Prelude.{
  String, ℕ, ◌<◌, ◌≡◌, ◌↔◌, refl, sym, ◌∙◌, inl, inr, ◌⊎◌, Bool, true, false, not, Option, none,
  some, List, [], ◌∷◌, ◌++◌, map, any, All, includes, length, ◌==◌, string_eq, nat_eq, arith,
  eq_iff, Bool-cases,
}
use cloudshield_enterprise.Monitoring.{
  MonitoredFinding, Fingerprint, ControlState, Snapshot, EvaluationInput, EvaluatedAlert,
  Fingerprints,
}
use cloudshield_enterprise.Monitoring.Engine.{
  high_findings, high_ids, increase_alerts, transition_alerts, regression_alerts, state_alerts,
  evaluate_rules, exposure_alerts, public_exposure_rule_keys,
}
use cloudshield_enterprise.Monitoring.Alerts.{
  starting, save_alerts, finish_failed, finish_completed, build_snapshot, input_of, conclude,
  evaluated_alerts, evaluate_monitoring,
}
use cloudshield_enterprise.Monitoring.Schemas.{is_accepted}
use cloudshield_enterprise.Monitoring.Stored.{
  AlertCounts, MonitoringRun, MonitoringDb, Observed, RunStatus,
}
use cloudshield_enterprise.Monitoring.Follow.{concluded}
use cloudshield_enterprise.Posture.Rules.{SecurityRule, security_rule_catalog}

abbrev pub has_failed : Option MonitoringRun → Bool
has_failed none = false
has_failed (some run) = elim run.status [ RunStatus.failed ↦ true | _ ↦ false ]

abbrev pub high_count : Observed → ℕ
high_count p = length (high_findings p.open_findings)

increase-throws :
    (n : ℕ) (fs : List Fingerprint) (findings : List MonitoredFinding)
    → (increase_alerts (some n) (Fingerprints.keyed fs) findings ≡ none) ↔ (n < length findings)
unfolding increase_alerts high_ids
increase-throws n fs findings = (λ h. ground arith, λ h. ground arith)

abbrev pub then_all :
    Option (List EvaluatedAlert)
    → (List EvaluatedAlert → List EvaluatedAlert)
    → Option (List EvaluatedAlert)
then_all o f = elim o [ none ↦ none | some alerts ↦ some (f alerts) ]

then_all-none :
    (o : Option (List EvaluatedAlert)) (f : List EvaluatedAlert → List EvaluatedAlert)
    → (then_all o f ≡ none) ↔ (o ≡ none)
then_all-none none f = (λ h. h, λ h. h)
then_all-none (some alerts) f = (λ h. cc, λ h. cc)

transition-none :
    (s : Snapshot) (findings : List MonitoredFinding) (cs : List ControlState)
    → (transition_alerts (some s) findings cs ≡ none)
      ↔ (increase_alerts s.high_finding_count s.finding_fingerprints findings ≡ none)
unfolding transition_alerts
transition-none s findings cs =
    then_all-none (increase_alerts s.high_finding_count s.finding_fingerprints findings)
      (λ alerts. alerts ++ regression_alerts s.compliance_states cs)

evaluate-none :
    (input : EvaluationInput) (now : ℕ)
    → (evaluate_rules input now ≡ none) ↔ (
        transition_alerts input.previous_snapshot
          (high_findings input.open_findings)
          input.current_compliances
        ≡ none)
unfolding evaluate_rules
evaluate-none input now = then_all-none _ (λ transitions. state_alerts input now ++ transitions)

-- The rules throw on a built snapshot exactly where the high findings have become more.
throws_iff :
    (organization : String) (now : ℕ) (db : MonitoringDb) (before p : Observed)
    → db.latest_snapshot ≡ some (build_snapshot before)
    → (evaluated_alerts organization now db p ≡ none) ↔ (high_count before < high_count p)
unfolding build_snapshot
throws_iff organization now db before p e =
    let (a, b) = evaluate-none (input_of organization now p db.latest_snapshot) now in
    let (c, d) =
      transition-none (build_snapshot before) (high_findings p.open_findings)
        p.current_compliances in
    let (x, y) =
      increase-throws (high_count before)
        (map (λ f. record { finding_id = f.id; severity = f.severity }) before.open_findings)
        (high_findings p.open_findings) in
    (λ h. x (c (rw (← e) (a h))), λ h. b (rw e (d (y h))))

-- The loop over the alerts is left exactly where the evidence of one is refused.
abbrev pub is_refused : (EvaluatedAlert → Bool) → List EvaluatedAlert → Bool
is_refused appends es = any (λ e. not (is_accepted appends e)) es

saved_unless_refused :
    (appends : EvaluatedAlert → Bool) (organization : String) (now : ℕ) (es : List EvaluatedAlert)
    (c : AlertCounts)
    → (save_alerts appends organization now es c).1 ≡ not (is_refused appends es)
unfolding save_alerts
saved_unless_refused appends organization now [] c = refl
saved_unless_refused appends organization now (e ∷ es) c =
    elim (Bool-cases (is_accepted appends e)) [
      | inl ok ↦ rw ok (saved_unless_refused appends organization now es _)
      | inr thrown ↦ rw thrown refl
    ]

-- The rules threw, or the evidence of an alert is refused.
abbrev Throws : (EvaluatedAlert → Bool) → Option (List EvaluatedAlert) → Type 0
Throws appends o =
    (o ≡ none) ⊎ ((es : List EvaluatedAlert) × (o ≡ some es) × (is_refused appends es ≡ true))

conclude-failed :
    (appends : EvaluatedAlert → Bool) (organization : String) (now : ℕ) (db : MonitoringDb)
    (p : Observed) (evaluated : Option (List EvaluatedAlert))
    → (has_failed (conclude appends organization now db p evaluated).run ≡ true)
      ↔ Throws appends evaluated
unfolding conclude finish_failed finish_completed
conclude-failed appends organization now db p none = (λ h. inl refl, λ h. refl)
conclude-failed appends organization now db p (some es) =
    let saved = saved_unless_refused appends organization now es (starting db) in
    elim (Bool-cases (is_refused appends es)) [
      | inl refused ↦ (λ h. inr (es, refl, refused), λ h. rw (saved, refused) refl)
      | inr fine ↦ (
        λ h. let k = rw (saved, fine) at h in cc,
        λ h. elim h [ inl e ↦ cc | inr (fs, e, refused) ↦ let same = some-injective es fs e in cc ],
      )
    ]

-- After a snapshot that a run has built, a queued run fails exactly where there are more open findings of
-- high severity than the snapshot counts, whose increase it should alert to, or the evidence of one of
-- the alerts that the rules raise does not parse or is not appended.
pub evaluate_monitoring-failed_iff :
    (appends : EvaluatedAlert → Bool) (organization : String) (now : ℕ) (db db' : MonitoringDb)
    (before p : Observed)
    → db.latest_snapshot ≡ some (build_snapshot before)
    → evaluate_monitoring appends organization now db p ≡ some db'
    → (has_failed db'.run ≡ true) ↔ (
        (high_count before < high_count p)
        ⊎ ((es : List EvaluatedAlert) × (evaluated_alerts organization now db p ≡ some es)
            × (is_refused appends es ≡ true)))
evaluate_monitoring-failed_iff appends organization now db db' before p built e =
    let ran = concluded appends organization now db db' p _ refl e in
    let (thrown, throws) = throws_iff organization now db before p built in
    let (to, from) =
      conclude-failed appends organization now db p (evaluated_alerts organization now db p) in
    rw (← ran) (
      λ h. elim (to h) [ inl k ↦ inl (thrown k) | inr k ↦ inr k ],
      λ h. elim h [ inl k ↦ from (inl (throws k)) | inr k ↦ from (inr k) ],
    )

-- A run that has just been queued.
abbrev pub queued_run : MonitoringRun
queued_run = record {
  status = RunStatus.queued;
  completed_at = none;
  evaluated_count = 0;
  alerts_created = 0;
  alerts_updated = 0;
  alerts_resolved = 0;
}

abbrev pub requeued : MonitoringDb → MonitoringDb
requeued db = record db { run = some queued_run }

module _ (appends : EvaluatedAlert → Bool) (organization : String) where
  -- A run is queued and evaluated at a time and on what it reads then; runs follow each other.
  abbrev pub run_again : MonitoringDb → ℕ × Observed → MonitoringDb
  run_again db r = elim (evaluate_monitoring appends organization r.0 (requeued db) r.1) [
    | none ↦ db
    | some db' ↦ db'
  ]

  abbrev pub run_all : List (ℕ × Observed) → MonitoringDb → MonitoringDb
  run_all [] db = db
  run_all (r ∷ rs) db = run_all rs (run_again db r)

  -- The last run has failed, and the alerts and the snapshot are those of `db`.
  pub record HasStuck (db d : MonitoringDb) : Type 0 where
    pub last_failed : has_failed d.run ≡ true
    pub same_alerts : d.alerts ≡ db.alerts
    pub same_snapshot : d.latest_snapshot ≡ db.latest_snapshot

  run_again-HasStuck :
      (db d : MonitoringDb) (before : Observed) (r : ℕ × Observed)
      → db.latest_snapshot ≡ some (build_snapshot before)
      → d.alerts ≡ db.alerts
      → d.latest_snapshot ≡ db.latest_snapshot
      → high_count before < high_count r.1
      → HasStuck db (run_again d r)
  unfolding evaluate_monitoring conclude finish_failed
  run_again-HasStuck db d before r built alerts snapshot more =
      let (_, throws) = throws_iff organization r.0 (requeued d) before r.1 (snapshot ∙ built) in
      subst
        (λ (o : Option (List EvaluatedAlert)).
          HasStuck db (conclude appends organization r.0 (requeued d) r.1 o))
        (sym (throws more))
        (record { last_failed = refl; same_alerts = alerts; same_snapshot = snapshot })

  run_all-HasStuck :
      (db d : MonitoringDb) (before : Observed) (rs : List (ℕ × Observed))
      → db.latest_snapshot ≡ some (build_snapshot before)
      → HasStuck db d
      → All (λ r. high_count before < high_count r.1) rs
      → HasStuck db (run_all rs d)
  run_all-HasStuck db d before [] built h more = h
  run_all-HasStuck db d before (r ∷ rs) built h (m, more) =
      run_all-HasStuck db (run_again d r) before rs built
        (run_again-HasStuck db d before r built h.same_alerts h.same_snapshot m) more

  -- A failure lasts: of any number of runs that follow each other and that all see more findings of high
  -- severity than the last snapshot counts, the last one fails, as each before did, and the alerts and
  -- the snapshot are still those from before the first.
  pub evaluate_monitoring-failure_lasts :
      (db : MonitoringDb) (before : Observed) (first : ℕ × Observed) (rest : List (ℕ × Observed))
      → db.latest_snapshot ≡ some (build_snapshot before)
      → All (λ r. high_count before < high_count r.1) (first ∷ rest)
      → HasStuck db (run_all (first ∷ rest) db)
  evaluate_monitoring-failure_lasts db before first rest built (m, more) =
      run_all-HasStuck db (run_again db first) before rest built
        (run_again-HasStuck db db before first built refl refl m) more

-- A test that every text of a list passes is passed by each text that is in the list.
of_some :
    (q : String → Bool) (ids : List String) (id : String)
    → All (λ i. q i ≡ true) ids
    → any (λ i. i == id) ids ≡ true
    → q id ≡ true
of_some q [] id h e = cc
of_some q (i ∷ ids) id (k, h) e = elim (Bool-cases (i == id)) [
  | inl own ↦ subst (λ (j : String). q j ≡ true) ((eq_iff i id).0 own) k
  | inr other ↦ of_some q ids id h (ground arith)
]

abbrev pub is_catalog_rule : (String → String) → MonitoredFinding → Bool
is_catalog_rule to_lower_case f =
    any (λ i. i == f.rule_id)
      (map (λ (r : SecurityRule). r.rule_id) (security_rule_catalog to_lower_case))

-- No finding of the posture engine's catalog raises an alert of public exposure: the engine of the
-- monitoring looks for the names of other rules.
pub exposure_alerts-none :
    (to_lower_case : String → String) (findings : List MonitoredFinding)
    → All (λ f. is_catalog_rule to_lower_case f ≡ true) findings
    → exposure_alerts findings ≡ []
unfolding exposure_alerts
exposure_alerts-none to_lower_case [] h = refl
exposure_alerts-none to_lower_case (f ∷ findings) (k, h) =
    let private_ : not (includes public_exposure_rule_keys f.rule_id) ≡ true =
      of_some (λ id. not (includes public_exposure_rule_keys id))
        (map (λ (r : SecurityRule). r.rule_id) (security_rule_catalog to_lower_case)) f.rule_id
        (refl, (refl, (refl, (refl, (refl, (refl, (refl, (refl, tt)))))))) k in
    ground (arith, exposure_alerts-none to_lower_case findings h)
