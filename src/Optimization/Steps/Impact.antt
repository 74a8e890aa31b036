-- ===== src/Optimization/Steps/Impact.antt =====
-- `measure_impact` of app/optimization/apply.py is a step of the workflow.
use khalij_intelligent_energ.Base.{
  ℕ, String, true, ◌≡◌, refl, inl, inr, Option, none, some, List, [], arith, Option-cases,
  Bool-cases, if◌then◌else◌,
}
use khalij_intelligent_energ.Base.Float.{FloatOps}
use khalij_intelligent_energ.Base.Table.{lookup}
use khalij_intelligent_energ.Config.{Settings}
use khalij_intelligent_energ.Ingestion.TagMap.{TagMap}
use khalij_intelligent_energ.Optimization.Model.{Recommendation, EventType, AuditDetail, World}
use khalij_intelligent_energ.Optimization.Store.{append_audit, save}
use khalij_intelligent_energ.Optimization.Impact.{
  is_applied, is_tracked, Sample, recorded_baseline, present, mean, record_realized,
  record_estimate, record_impact, measure_impact,
}
use khalij_intelligent_energ.Optimization.Steps.{Step, stay}
use khalij_intelligent_energ.Optimization.Steps.Calls.{saved-Step, no_writes}

module _ {F : Type 0} (cfg : Settings F) (plants : TagMap F) where
  -- A measurement that is recorded leaves the status as it is.
  recorded-Step :
      (id : ℕ) (rec : Recommendation F) (realized : Option F) (actor : String)
      (detail : AuditDetail F) (now : ℕ) (w : World F)
      → lookup id w.recs ≡ some rec
      → is_tracked rec.status ≡ true
      → Step cfg plants w (
          append_audit id EventType.impact actor detail now
            (save id (record rec { realized_saving_kwh_per_h = realized }) w))
  recorded-Step id rec realized actor detail now w found t =
      saved-Step cfg plants id rec _ EventType.impact actor detail now [] w w found (ground arith)
        refl (inl refl) refl refl refl (no_writes cfg plants id w w refl)

module _ {F : Type 0} ⦃fl : FloatOps F⦄ (cfg : Settings F) (plants : TagMap F)
    (history : List (Sample F)) (now id : ℕ) (actor : String) (rec : Recommendation F) (w : World F)
    (found : lookup id w.recs ≡ some rec) (tracked : is_tracked rec.status ≡ true) where
  record_estimate-Step :
      (estimate : Option F)
      → Step cfg plants w (record_estimate cfg history now id actor rec estimate w).1
  unfolding record_estimate
  record_estimate-Step none = stay refl
  record_estimate-Step (some estimate) =
      recorded-Step cfg plants id rec _ actor _ now w found tracked

  record_impact-Step :
      (before after : Option F)
      → Step cfg plants w (record_impact cfg history now id actor rec before after w).1
  unfolding record_impact record_realized
  record_impact-Step (some before) (some after) =
      recorded-Step cfg plants id rec _ actor _ now w found tracked
  record_impact-Step _ _ =
      record_estimate-Step
        (if is_applied rec.status then rec.estimated_energy_saving_kwh_per_h else none)

module _ {F : Type 0} ⦃fl : FloatOps F⦄ (cfg : Settings F) (plants : TagMap F) where
  pub measure_impact-Step :
      (history : List (Sample F)) (now id : ℕ) (actor : String) (w : World F)
      → Step cfg plants w (measure_impact cfg history now id actor w).1
  unfolding measure_impact
  measure_impact-Step history now id actor w = elim (Option-cases (lookup id w.recs)) [
    | inl e ↦ stay (ground arith)
    | inr (rec, e) ↦ elim (Bool-cases (is_tracked rec.status)) [
      | inr f ↦ stay (ground arith)
      | inl t ↦
          let before = recorded_baseline rec in
          let after = mean (present (λ (r : Sample F). r.energy_intensity_kgoe_ton) history) in
          let runs : measure_impact cfg history now id actor w
              ≡ record_impact cfg history now id actor rec before after w =
            ground arith in
          rw runs (record_impact-Step cfg plants history now id actor rec w e t before after)
    ]
  ]
