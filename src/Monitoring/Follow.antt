-- ===== src/Monitoring/Follow.antt =====
-- After a run, the open alerts are the evaluated ones.
use mathlib.Core.Path.{subst}
use text.Mathlib.TextPositions.{eq_refl}
use cloudshield_enterprise.Prelude.{
  All-map₂, All-any, String, ℕ, ◌≡◌, refl, sym, inl, inr, Bool, true, false, ◌&&◌, ◌||◌, not,
  Option, none, some, List, [], ◌∷◌, any, All, if◌then◌else◌, ◌==◌, string_eq, nat_eq, arith,
  Bool-cases,
}
use cloudshield_enterprise.Store.Listed.{
  any-append, any-append_last, any-behind, any-update_first, any-updated,
}
use cloudshield_enterprise.Monitoring.{DedupeKey, EvaluatedAlert}
use cloudshield_enterprise.Monitoring.Alerts.{
  is_alert, created_alert, observe, save_alert, save_alerts, starting, is_over, resolve_alert,
  resolve_alerts, finish_failed, finish_completed, conclude, evaluated_alerts, evaluate_monitoring,
}
use cloudshield_enterprise.Monitoring.Schemas.{is_accepted}
use cloudshield_enterprise.Monitoring.Stored.{
  RunStatus, MonitoringRun, SecurityAlert, AlertCounts, MonitoringDb, Observed, rule_eq, same_ids,
  has_key, is_resolved,
}

same_ids_refl : (ids : List String) → same_ids ids ids ≡ true
same_ids_refl [] = refl
same_ids_refl (a ∷ ids) = rw (eq_refl a) (same_ids_refl ids)

has_key_refl : (k : DedupeKey) → has_key k k ≡ true
has_key_refl k = rw ((rule_eq.same_iff k.rule_key k.rule_key).1 refl) (same_ids_refl k.ids)

abbrev pub has_completed : Option MonitoringRun → Bool
has_completed none = false
has_completed (some run) = elim run.status [ RunStatus.completed ↦ true | _ ↦ false ]

abbrev pub is_open_alert : String → DedupeKey → SecurityAlert → Bool
is_open_alert organization k a = is_alert organization k a && not (is_resolved a.status)

module _ (appends : EvaluatedAlert → Bool) (organization : String) (now : ℕ) where
  observe-open :
      (k : DedupeKey) (e : EvaluatedAlert) (a : SecurityAlert)
      → is_alert organization k a ≡ true
      → is_open_alert organization k (observe now e a) ≡ true
  unfolding observe
  observe-open k e a h = elim (Bool-cases (is_resolved a.status)) [
    | inl again ↦ rw again (ground arith)
    | inr still ↦ rw still (ground arith)
  ]

  save_alert-keeps :
      (k : DedupeKey) (e : EvaluatedAlert) (c : AlertCounts)
      → any (is_open_alert organization k) c.alerts ≡ true
      → any (is_open_alert organization k) (save_alert organization now e c).alerts ≡ true
  unfolding save_alert
  save_alert-keeps k e c h = elim (Bool-cases (any (is_alert organization e.dedupe_key) c.alerts)) [
    | inl found ↦ rw found (
        any-update_first (is_open_alert organization k) (is_alert organization e.dedupe_key)
          (observe now e) c.alerts (λ a open_. observe-open k e a (ground arith)) h)
    | inr absent ↦ rw absent (any-append (is_open_alert organization k) c.alerts _ h)
  ]

  save_alert-opens :
      (e : EvaluatedAlert) (c : AlertCounts)
      → any (is_open_alert organization e.dedupe_key) (save_alert organization now e c).alerts
        ≡ true
  unfolding save_alert
  save_alert-opens e c = elim (Bool-cases (any (is_alert organization e.dedupe_key) c.alerts)) [
    | inl found ↦ rw found (
        any-updated (is_open_alert organization e.dedupe_key) (is_alert organization e.dedupe_key)
          (observe now e) c.alerts (observe-open e.dedupe_key e) found)
    | inr absent ↦ rw absent (
        any-append_last (is_open_alert organization e.dedupe_key) c.alerts
          (created_alert organization now e)
          (rw (eq_refl organization, has_key_refl e.dedupe_key) refl))
  ]

  -- A loop that is not left saves what the transactions save one after another.
  saved_all :
      (e : EvaluatedAlert) (es : List EvaluatedAlert) (c : AlertCounts)
      → (save_alerts appends organization now (e ∷ es) c).1 ≡ true
      → (save_alerts appends organization now (e ∷ es) c
          ≡ save_alerts appends organization now es (save_alert organization now e c))
        × ((save_alerts appends organization now es (save_alert organization now e c)).1 ≡ true)
  unfolding save_alerts
  saved_all e es c h = elim (Bool-cases (is_accepted appends e)) [
    | inl ok ↦ rw ok (refl, rw ok at h)
    | inr thrown ↦ let k = rw thrown at h in cc
  ]

  save_alerts-keep :
      (k : DedupeKey) (es : List EvaluatedAlert) (c : AlertCounts)
      → any (is_open_alert organization k) c.alerts ≡ true
      → any (is_open_alert organization k) (save_alerts appends organization now es c).0.alerts
        ≡ true
  unfolding save_alerts
  save_alerts-keep k [] c h = h
  save_alerts-keep k (e ∷ es) c h = elim (Bool-cases (is_accepted appends e)) [
    | inl ok ↦ rw ok (save_alerts-keep k es _ (save_alert-keeps k e c h))
    | inr thrown ↦ rw thrown h
  ]

  save_alerts-open :
      (es : List EvaluatedAlert) (c : AlertCounts)
      → (save_alerts appends organization now es c).1 ≡ true
      → All
          (λ e.
            any
              (is_open_alert organization e.dedupe_key)
              (save_alerts appends organization now es c).0.alerts
            ≡ true)
          es
  unfolding save_alerts
  save_alerts-open [] c h = tt
  save_alerts-open (e ∷ es) c h =
      let (same, rest) = saved_all e es c h in
      subst
        (λ (saved : AlertCounts × Bool).
          All (λ d. any (is_open_alert organization d.dedupe_key) saved.0.alerts ≡ true) (e ∷ es))
        (sym same)
        (save_alerts-keep e.dedupe_key es _ (save_alert-opens e c), save_alerts-open es _ rest)

  resolve_alerts-keep :
      (k : DedupeKey) (evaluated : List EvaluatedAlert) (alerts : List SecurityAlert)
      → ((a : SecurityAlert)
          → has_key k a.dedupe_key ≡ true
          → any (λ e. has_key e.dedupe_key a.dedupe_key) evaluated ≡ true)
      → any (is_open_alert organization k) alerts ≡ true
      → any (is_open_alert organization k) (resolve_alerts organization now evaluated alerts) ≡ true
  unfolding resolve_alerts
  resolve_alerts-keep k evaluated [] wanted h = h
  resolve_alerts-keep k evaluated (a ∷ alerts) wanted h =
      elim (Bool-cases (is_open_alert organization k a)) [
        | inr other ↦
            any-behind (is_open_alert organization k)
              (if is_over organization now evaluated a then resolve_alert organization now a else a)
              (resolve_alerts organization now evaluated alerts)
              (resolve_alerts-keep k evaluated alerts wanted (rw other at h))
        | inl own ↦
            let kept : is_over organization now evaluated a ≡ false = ground (arith, wanted a) in
            rw kept (rw own refl)
      ]

  abbrev pub is_expected : List EvaluatedAlert → SecurityAlert → Bool
  is_expected evaluated a =
      not (a.organization_id == organization && not (is_resolved a.status))
      || any (λ e. has_key e.dedupe_key a.dedupe_key) evaluated

  resolve_alerts-expected :
      (evaluated : List EvaluatedAlert) (alerts : List SecurityAlert)
      → All (λ a. is_expected evaluated a ≡ true) (resolve_alerts organization now evaluated alerts)
  unfolding resolve_alerts
  resolve_alerts-expected evaluated [] = tt
  resolve_alerts-expected evaluated (a ∷ alerts) =
      let rest = resolve_alerts-expected evaluated alerts in
      elim (Bool-cases (is_over organization now evaluated a)) [
        | inl over ↦ rw over (ground arith, rest)
        | inr kept ↦ rw kept (ground arith, rest)
      ]

  pub concluded :
      (db db' : MonitoringDb) (p : Observed) (evaluated : Option (List EvaluatedAlert))
      → evaluated_alerts organization now db p ≡ evaluated
      → evaluate_monitoring appends organization now db p ≡ some db'
      → conclude appends organization now db p evaluated ≡ db'
  unfolding evaluate_monitoring
  concluded db db' p evaluated e h = rw (← e) (ground arith)

  abbrev HasFollowed : List EvaluatedAlert → MonitoringDb → Type 0
  HasFollowed evaluated d =
      All (λ e. any (is_open_alert organization e.dedupe_key) d.alerts ≡ true) evaluated
      × All (λ a. is_expected evaluated a ≡ true) d.alerts

  conclude-HasFollowed :
      (db : MonitoringDb) (p : Observed) (evaluated : List EvaluatedAlert)
      → has_completed (conclude appends organization now db p (some evaluated)).run ≡ true
      → HasFollowed evaluated (conclude appends organization now db p (some evaluated))
  unfolding conclude finish_failed finish_completed
  conclude-HasFollowed db p evaluated h =
      elim (Bool-cases (save_alerts appends organization now evaluated (starting db)).1) [
        | inr left ↦ let k = rw left at h in cc
        | inl done ↦ rw done (
          All-map₂ (λ e wanted opened. resolve_alerts-keep e.dedupe_key evaluated _ wanted opened)
              evaluated
              (All-any
                (λ (a : SecurityAlert) (e : EvaluatedAlert). has_key e.dedupe_key a.dedupe_key)
                evaluated)
              (save_alerts-open evaluated (starting db) done),
          resolve_alerts-expected evaluated _,
        )
      ]

  -- A run that completes leaves an unresolved alert of the organisation for each alert that the rules
  -- raise, and no other unresolved alert of the organisation.
  pub evaluate_monitoring-follows :
      (db db' : MonitoringDb) (p : Observed) (evaluated : List EvaluatedAlert)
      → evaluated_alerts organization now db p ≡ some evaluated
      → evaluate_monitoring appends organization now db p ≡ some db'
      → has_completed db'.run ≡ true
      → All (λ e. any (is_open_alert organization e.dedupe_key) db'.alerts ≡ true) evaluated
        × All (λ a. is_expected evaluated a ≡ true) db'.alerts
  evaluate_monitoring-follows db db' p evaluated e h completed =
      let ran = concluded db db' p (some evaluated) e h in
      subst (HasFollowed evaluated) ran (
        conclude-HasFollowed db p evaluated
          (subst (λ (d : MonitoringDb). has_completed d.run ≡ true) (sym ran) completed))
