-- ===== src/Supervisor/Alerts.antt =====
-- FeatureSupervisor::applyChanges and TelemetryAdvisor::evaluate: the active alert.
use Prim.Native.String.{String}
use text.Mathlib.Text.{◌==◌}
use text.Mathlib.TextEquality.{eq_iff}
use fatp_balancer.Base.{
  ◌≡◌, refl, sym, subst, ◌⊎◌, inl, inr, true, false, ◌||◌, if◌then◌else◌, ok, err, has_value, arith,
  Bool-cases,
}
use fatp_balancer.Floats.{Floats}
use fatp_balancer.Metrics.{ClusterMetrics}
use fatp_balancer.Supervisor.Defs.{
  Outcome, FeatureManager, FeatureSupervisor, TelemetryThresholds, alert_none, alert_or_none,
  after_replace, apply_changes, determine_alert, advise,
}

-- What is kept of an alert stands for the same alert.
kept : String → String
kept alert = if alert == "" || alert_or_none alert == alert_none then "" else alert_or_none alert

alert_or_none-kept : (alert : String) → alert_or_none (kept alert) ≡ alert_or_none alert
unfolding alert_or_none kept
alert_or_none-kept alert = elim (Bool-cases (alert == "")) [
  | inl e ↦ subst (λ a. alert_or_none (kept a) ≡ alert_or_none a) (sym ((eq_iff alert "").0 e)) refl
  | inr e ↦ elim (Bool-cases (alert == alert_none)) [
    | inl n ↦
        subst (λ a. alert_or_none (kept a) ≡ alert_or_none a) (sym ((eq_iff alert alert_none).0 n))
          refl
    | inr n ↦ ground arith
  ]
]

module _ {G : Type 0} (features : FeatureManager G) where
  after_replace_cases :
      (s : FeatureSupervisor G) (alert : String) (r : G × Outcome)
      → let r' = after_replace features s alert r in
        ((has_value r'.1 ≡ true) × (alert_or_none r'.0.active_alert ≡ alert_or_none alert))
        ⊎ ((has_value r'.1 ≡ false) × (r'.0.active_alert ≡ s.active_alert))
  unfolding after_replace kept
  after_replace_cases s alert (g, ok _) = inl (refl, alert_or_none-kept alert)
  after_replace_cases s alert (g, err e) = inr (refl, refl)

  -- A transition that succeeds leaves the alert that was asked for, where "" and "alert.none" are
  -- one; a transition that the feature manager refuses leaves the alert of before.
  pub apply_changes_cases :
      (s : FeatureSupervisor G) (alert : String)
      → let r = apply_changes features s alert in
        ((has_value r.1 ≡ true) × (alert_or_none r.0.active_alert ≡ alert_or_none alert))
        ⊎ ((has_value r.1 ≡ false) × (r.0.active_alert ≡ s.active_alert))
  unfolding apply_changes
  apply_changes_cases s alert =
      elim (Bool-cases (alert_or_none s.active_alert == alert_or_none alert)) [
        | inl e ↦ rw e (inl (refl, (eq_iff _ _).0 e))
        | inr e ↦ rw e (after_replace_cases s alert _)
      ]

  apply_changes_same :
      (s : FeatureSupervisor G) (alert : String)
      → alert_or_none s.active_alert ≡ alert_or_none alert
      → apply_changes features s alert ≡ (s, ok tt)
  unfolding apply_changes
  apply_changes_same s alert e =
      let same : (alert_or_none s.active_alert == alert_or_none alert) ≡ true =
        (eq_iff (alert_or_none s.active_alert) (alert_or_none alert)).1 e in
      rw same refl

  -- To ask for an alert again after it was set changes nothing and does not reach the feature
  -- manager.
  pub apply_changes_again :
      (s : FeatureSupervisor G) (alert : String)
      → has_value (apply_changes features s alert).1 ≡ true
      → let s' = (apply_changes features s alert).0 in apply_changes features s' alert ≡ (s', ok tt)
  apply_changes_again s alert h = elim (apply_changes_cases s alert) [
    | inr (f, _) ↦ absurd (ground arith)
    | inl (_, e) ↦ apply_changes_same (apply_changes features s alert).0 alert e
  ]

module _ {F G : Type 0} ⦃fl : Floats F⦄ (features : FeatureManager G)
    (th : TelemetryThresholds F) where
  -- Once an evaluation has succeeded the supervisor's alert is the one of the metrics, and the same
  -- metrics change nothing any more, so that a steady cluster makes no transition.
  pub advise_steady :
      (s : FeatureSupervisor G) (m : ClusterMetrics F)
      → has_value (advise features th s m).1 ≡ true
      → let s' = (advise features th s m).0 in
        (alert_or_none s'.active_alert ≡ alert_or_none (determine_alert th m))
        × (advise features th s' m ≡ (s', ok tt))
  unfolding advise
  advise_steady s m h = elim (apply_changes_cases features s (determine_alert th m)) [
    | inr (f, _) ↦ absurd (ground arith)
    | inl (_, e) ↦ (e, apply_changes_again features s (determine_alert th m) h)
  ]
