-- ===== src/Optimization/Impact.antt =====
-- app/optimization/apply.py: measure what a recommendation saved. `get_history` reads the live data;
-- what it returns is an argument.
use khalij_intelligent_energ.Base.{
  ℕ, String, Bool, true, false, Option, none, some, List, [], ◌∷◌, foldl, length, if◌then◌else◌,
}
use khalij_intelligent_energ.Base.Float.{FloatOps}
use khalij_intelligent_energ.Base.Result.{◌>>=◌, ◌>>◌, pure, guard, modify}
use khalij_intelligent_energ.Base.Table.{Dict, get}
use khalij_intelligent_energ.Config.{Settings}
use khalij_intelligent_energ.Optimization.Model.{
  Status, Recommendation, EventType, AuditDetail, not_tracked,
}
use khalij_intelligent_energ.Optimization.Store.{Call, append_audit, save, load}

abbrev pub is_applied : Status → Bool
is_applied Status.applied = true
is_applied _ = false

-- `rec.status in {"applied", "approved", "accepted"}`
abbrev pub is_tracked : Status → Bool
is_tracked Status.applied = true
is_tracked Status.approved = true
is_tracked Status.accepted = true
is_tracked _ = false

pub data ImpactDetail : Type 0 where
  insufficient_post_apply_samples realized_from_history : ImpactDetail
  using_estimate_until_plant_samples : ImpactDetail

pub record ImpactOutcome (F : Type 0) : Type 0 where
  pub recommendation_id : ℕ
  pub plant_code : String
  pub status : Status
  pub baseline_intensity : Option F
  pub current_intensity : Option F
  pub baseline_efficiency : Option F
  pub current_efficiency : Option F
  pub estimated_saving_kwh_per_h : Option F
  pub realized_saving_kwh_per_h : Option F
  pub window_minutes : ℕ
  pub samples : ℕ
  pub detail : ImpactDetail

-- A row of the sensor history, as far as `measure_impact` reads it.
pub record Sample (F : Type 0) : Type 0 where
  pub energy_intensity_kgoe_ton : Option F
  pub energy_efficiency_percent : Option F

module _ {F : Type 0} ⦃fl : FloatOps F⦄ where
  open fl use {eq, add, sub, mul, div, lit, round_to}

  -- `sum(xs) / len(xs) if xs else None`
  unfoldable pub mean : List F → Option F
  mean [] = none
  mean (x ∷ xs) = some (div (foldl add (lit 0 0) (x ∷ xs)) (lit (length (x ∷ xs)) 0))

  unfoldable pub present : {A : Type 0} → (A → Option F) → List A → List F
  present f [] = []
  present f (a ∷ rows) = let rest = present f rows in elim (f a) [ none ↦ rest | some v ↦ v ∷ rest ]

  -- app/ml/features.py
  unfoldable pub intensity_to_energy_kwh : F → F → F → F
  intensity_to_energy_kwh intensity feed horizon =
      mul (mul (mul intensity feed) (div horizon (lit 60 0))) (lit 1163 2)

  -- `float(proposed.get("feed_flow_tonh") or 100.0)`
  unfoldable pub feed_or_default : Dict F → F
  feed_or_default proposed = elim (get "feed_flow_tonh" proposed) [
    | none ↦ lit 100 0
    | some v ↦ if eq v (lit 0 0) then lit 100 0 else v
  ]

  unfoldable pub realized_saving : F → F → F → F
  unfolding intensity_to_energy_kwh
  realized_saving before after feed =
      round_to
        (sub (intensity_to_energy_kwh before feed (lit 60 0))
          (intensity_to_energy_kwh after feed (lit 60 0)))
        2

  -- `rec.baseline_intensity`, or else what the advice recorded
  unfoldable pub recorded_baseline : Recommendation F → Option F
  recorded_baseline rec = elim rec.baseline_intensity [
    | none ↦ get "energy_intensity_kgoe_ton" rec.current
    | some v ↦ some v
  ]

  unfoldable pub impact_of :
      Settings F
      → List (Sample F)
      → ℕ
      → Recommendation F
      → Option F
      → ImpactDetail
      → ImpactOutcome F
  unfolding recorded_baseline present mean
  impact_of cfg history id rec realized detail =
      let intensities = present (λ (r : Sample F). r.energy_intensity_kgoe_ton) history in
      record {
        recommendation_id = id;
        plant_code = rec.plant_code;
        status = rec.status;
        baseline_intensity = recorded_baseline rec;
        current_intensity = mean intensities;
        baseline_efficiency = rec.baseline_efficiency;
        current_efficiency = mean (present (λ (r : Sample F). r.energy_efficiency_percent) history);
        estimated_saving_kwh_per_h = rec.estimated_energy_saving_kwh_per_h;
        realized_saving_kwh_per_h = realized;
        window_minutes = cfg.opt_impact_window_minutes;
        samples = length intensities;
        detail = detail;
      }

  -- Both intensities are known: the saving is computed from them.
  unfoldable pub record_realized :
      Settings F
      → List (Sample F)
      → ℕ
      → ℕ
      → String
      → Recommendation F
      → F
      → F
      → Call F (ImpactOutcome F)
  unfolding realized_saving feed_or_default present impact_of save append_audit
  record_realized cfg history now id actor rec before after = do
    let realized = realized_saving before after (feed_or_default rec.proposed)
    let samples = length (present (λ (r : Sample F). r.energy_intensity_kgoe_ton) history)
    modify (save id (record rec { realized_saving_kwh_per_h = some realized }))
    modify (
        append_audit id EventType.impact actor
          (AuditDetail.impact_detail before after realized cfg.opt_impact_window_minutes samples)
          now)
    pure (impact_of cfg history id rec (some realized) realized_from_history)

  -- No samples yet: an applied recommendation is tracked by its estimate.
  unfoldable pub record_estimate :
      Settings F
      → List (Sample F)
      → ℕ
      → ℕ
      → String
      → Recommendation F
      → Option F
      → Call F (ImpactOutcome F)
  unfolding impact_of save append_audit
  record_estimate cfg history now id actor rec none =
      pure (impact_of cfg history id rec none insufficient_post_apply_samples)
  record_estimate cfg history now id actor rec (some estimate) = do
    modify (save id (record rec { realized_saving_kwh_per_h = some estimate }))
    modify (append_audit id EventType.impact actor (AuditDetail.estimate_detail estimate) now)
    pure (impact_of cfg history id rec (some estimate) using_estimate_until_plant_samples)

  unfoldable pub record_impact :
      Settings F
      → List (Sample F)
      → ℕ
      → ℕ
      → String
      → Recommendation F
      → Option F
      → Option F
      → Call F (ImpactOutcome F)
  record_impact cfg history now id actor rec (some before) (some after) =
      record_realized cfg history now id actor rec before after
  record_impact cfg history now id actor rec _ _ =
      record_estimate cfg history now id actor rec
        (if is_applied rec.status then rec.estimated_energy_saving_kwh_per_h else none)

  unfoldable pub measure_impact :
      Settings F → List (Sample F) → ℕ → ℕ → String → Call F (ImpactOutcome F)
  unfolding load
  measure_impact cfg history now id actor = do
    rec ← load id
    guard (is_tracked rec.status) (not_tracked rec.status)
    record_impact cfg history now id actor rec (recorded_baseline rec)
        (mean (present (λ (r : Sample F). r.energy_intensity_kgoe_ton) history))
