-- ===== src/Monitoring/Bounds.antt =====
-- How much evidence the row of an alert keeps.
use mathlib.Core.Path.{subst}
use cloudshield_enterprise.Prelude.{
  String, ℕ, ◌≤◌, ◌≡◌, refl, inl, inr, Bool, Option, none, some, List, [], ◌∷◌, ◌++◌, any, All,
  All-append, length, length-last_of, arith, Bool-cases,
}
use cloudshield_enterprise.Store.Listed.{update_first}
use cloudshield_enterprise.Monitoring.{EvaluatedAlert}
use cloudshield_enterprise.Monitoring.Alerts.{
  is_alert, created_alert, observe, save_alert, save_alerts, is_over, resolve_alerts, finish_failed,
  finish_completed, starting, conclude, evaluate_monitoring,
}
use cloudshield_enterprise.Monitoring.Schemas.{is_accepted}
use cloudshield_enterprise.Monitoring.Stored.{SecurityAlert, AlertCounts, MonitoringDb, Observed}
use cloudshield_enterprise.Monitoring.Follow.{concluded}

-- The column `mappedEvidence` has ten entries at most.
abbrev pub IsBounded : SecurityAlert → Type 0
IsBounded a = length a.mapped_evidence ≤ 10

abbrev AllBounded : List SecurityAlert → Type 0
AllBounded = All IsBounded

module _ (appends : EvaluatedAlert → Bool) (organization : String) (now : ℕ) where
  observe-IsBounded : (e : EvaluatedAlert) (a : SecurityAlert) → IsBounded (observe now e a)
  unfolding observe
  observe-IsBounded e a = length-last_of 10 (a.mapped_evidence ++ (e.evidence ∷ []))

  update_first-AllBounded :
      (where_ : SecurityAlert → Bool) (e : EvaluatedAlert) (as_ : List SecurityAlert)
      → AllBounded as_
      → AllBounded (update_first where_ (observe now e) as_)
  unfolding update_first
  update_first-AllBounded where_ e [] h = tt
  update_first-AllBounded where_ e (a ∷ as_) (k, h) = elim (Bool-cases (where_ a)) [
    | inl c ↦ rw c (observe-IsBounded e a, h)
    | inr c ↦ rw c (k, update_first-AllBounded where_ e as_ h)
  ]

  save_alert-AllBounded :
      (e : EvaluatedAlert) (c : AlertCounts)
      → AllBounded c.alerts
      → AllBounded (save_alert organization now e c).alerts
  unfolding save_alert
  save_alert-AllBounded e c h =
      elim (Bool-cases (any (is_alert organization e.dedupe_key) c.alerts)) [
        | inl found ↦
            rw found (update_first-AllBounded (is_alert organization e.dedupe_key) e c.alerts h)
        | inr absent ↦ rw absent (
            All-append IsBounded c.alerts (created_alert organization now e ∷ []) h
              (omega arith, tt))
      ]

  save_alerts-AllBounded :
      (es : List EvaluatedAlert) (c : AlertCounts)
      → AllBounded c.alerts
      → AllBounded (save_alerts appends organization now es c).0.alerts
  unfolding save_alerts
  save_alerts-AllBounded [] c h = h
  save_alerts-AllBounded (e ∷ es) c h = elim (Bool-cases (is_accepted appends e)) [
    | inl ok ↦ rw ok (save_alerts-AllBounded es _ (save_alert-AllBounded e c h))
    | inr thrown ↦ rw thrown h
  ]

  resolve_alerts-AllBounded :
      (evaluated : List EvaluatedAlert) (as_ : List SecurityAlert)
      → AllBounded as_
      → AllBounded (resolve_alerts organization now evaluated as_)
  unfolding resolve_alerts
  resolve_alerts-AllBounded evaluated [] h = tt
  resolve_alerts-AllBounded evaluated (a ∷ as_) (k, h) =
      let rest = resolve_alerts-AllBounded evaluated as_ h in
      elim (Bool-cases (is_over organization now evaluated a)) [
        | inl c ↦ rw c (k, rest)
        | inr c ↦ rw c (k, rest)
      ]

  conclude-AllBounded :
      (db : MonitoringDb) (p : Observed) (evaluated : Option (List EvaluatedAlert))
      → AllBounded db.alerts
      → AllBounded (conclude appends organization now db p evaluated).alerts
  unfolding conclude finish_failed finish_completed
  conclude-AllBounded db p none h = h
  conclude-AllBounded db p (some es) h =
      let saved = save_alerts-AllBounded es (starting db) h in
      elim (Bool-cases (save_alerts appends organization now es (starting db)).1) [
        | inl done ↦ rw done (resolve_alerts-AllBounded es _ saved)
        | inr left ↦ rw left saved
      ]

  -- A run, whether it completes or fails, leaves no alert with more than ten entries in its column
  -- `mappedEvidence`, where no alert had more before.
  pub evaluate_monitoring-AllBounded :
      (db db' : MonitoringDb) (p : Observed)
      → All IsBounded db.alerts
      → evaluate_monitoring appends organization now db p ≡ some db'
      → All IsBounded db'.alerts
  evaluate_monitoring-AllBounded db db' p h e =
      subst (λ (d : MonitoringDb). AllBounded d.alerts)
        (concluded appends organization now db db' p _ refl e) (conclude-AllBounded db p _ h)
