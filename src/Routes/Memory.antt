-- ===== src/Routes/Memory.antt =====
-- app/api/routes/optimization.py: what the routes do on a recommendation of the demo memory.
use khalij_intelligent_energ.Base.{
  ℕ, String, Bool, true, Option, none, some, List, [], ◌∷◌, or_else, if◌then◌else◌,
}
use khalij_intelligent_energ.Base.Float.{FloatOps}
use khalij_intelligent_energ.Base.Result.{◌>>=◌, ◌>>◌, pure, gets, or_raise, guard, modify}
use khalij_intelligent_energ.Base.Table.{Dict, lookup}
use khalij_intelligent_energ.Plant.Live.{LiveReading}
use khalij_intelligent_energ.Optimization.Model.{
  ApplyMode, AdviceSimulation, Status, Recommendation, Decision, bad_decision, not_open,
  not_accepted, not_approved,
}
use khalij_intelligent_energ.Optimization.Store
use khalij_intelligent_energ.Optimization.Store.{
  get_recommendation, persist_recommendations, submit_feedback, record_simulation, is_open,
  is_rejected,
}
use khalij_intelligent_energ.Optimization.Apply.{is_accepted, is_approved}
use khalij_intelligent_energ.Demo.MemoryRecs.{Extra, put_row, set_status}
use khalij_intelligent_energ.Routes.Outputs.{
  missing, bad_request, conflict, SetpointAdviceOut, FeedbackOut, PlannedOut, ApplyDetail, ApplyOut,
  ImpactText, ImpactOut, row_to_advice,
}
use khalij_intelligent_energ.Routes.Stores.{
  ApiState, Route, is_decision, status_of, decision_text, on_memory,
}

-- `"dry_run" if dry_run else "write"`
abbrev pub memory_mode_of : Bool → ApplyMode
memory_mode_of dry_run = if dry_run then ApplyMode.dry_run else ApplyMode.write

module _ {F : Type 0} where
  -- `memory_recs.get(recommendation_id)`, or 404
  abbrev pub memory_rec : ℕ → Route F (Recommendation F)
  memory_rec id = do or_raise (← gets (λ (st : ApiState F). lookup id st.memory.recs)) missing

  unfoldable pub memory_feedback : ℕ → ℕ → Decision → String → Option String → Route F FeedbackOut
  memory_feedback now id decision operator comment = do
    rec ← memory_rec id
    guard (is_decision decision) (bad_request (bad_decision (decision_text decision)))
    guard (is_open rec.status) (bad_request (not_open rec.status))
    let status = status_of decision
    on_memory (
        set_status id status operator
          (Extra.resolved_at (if is_rejected status then some now else none) ∷ []))
    pure (record {
      recommendation_id = id;
      decision = decision;
      operator = operator;
      comment = comment;
      status = status;
      created_at = now;
    })

module _ {F : Type 0} ⦃fl : FloatOps F⦄ where
  open fl use {add, mul, lit, round_to}

  unfoldable pub memory_approve : ℕ → ℕ → String → Route F (SetpointAdviceOut F)
  memory_approve now id actor = do
    rec ← memory_rec id
    guard (is_accepted rec.status) (conflict (not_accepted rec.status))
    on_memory
        (set_status id Status.approved actor (Extra.approved_by actor ∷ Extra.approved_at now ∷ []))
    updated ← memory_rec id
    pure (row_to_advice id updated)

  abbrev pub setpoints : Dict F → List (PlannedOut F)
  setpoints [] = []
  setpoints ((field, value) ∷ rest) = PlannedOut.setpoint field value ∷ setpoints rest

  unfoldable pub memory_apply : ℕ → ℕ → String → Option Bool → Route F (ApplyOut F)
  memory_apply now id actor dry = do
    rec ← memory_rec id
    guard (is_approved rec.status) (conflict (not_approved rec.status))
    let dry_run = or_else dry true
    let planned = setpoints rec.proposed
    on_memory (
        set_status id Status.applied actor (
          Extra.apply_mode (memory_mode_of dry_run)
          ∷ Extra.applied_by actor
          ∷ Extra.applied_at now
          ∷ []))
    pure (record {
      recommendation_id = id;
      status = Status.applied;
      apply_mode = memory_mode_of dry_run;
      dry_run = dry_run;
      planned = planned;
      written = if dry_run then [] else planned;
      skipped = [];
      detail = ApplyDetail.demo_memory_apply;
      baseline_intensity = none;
      baseline_efficiency = none;
    })

  unfoldable pub memory_impact : ℕ → LiveReading F → String → Route F (ImpactOut F)
  memory_impact id live actor = do
    rec ← memory_rec id
    let est = or_else rec.estimated_energy_saving_kwh_per_h (lit 0 0)
    let realized = mul est (lit 85 2)
    on_memory (set_status id rec.status actor (Extra.realized_saving_kwh_per_h realized ∷ []))
    pure (record {
      recommendation_id = id;
      plant_code = rec.plant_code;
      status = rec.status;
      baseline_intensity = rec.baseline_intensity;
      current_intensity = some live.energy_intensity_kgoe_ton;
      baseline_efficiency = rec.baseline_efficiency;
      current_efficiency = some live.energy_efficiency_percent;
      estimated_saving_kwh_per_h = some est;
      realized_saving_kwh_per_h = some realized;
      window_minutes = 15;
      samples = 1;
      detail = ImpactText.demo_memory_impact;
    })

  -- Without an event. Both stores set the two columns of the row.
  unfoldable pub memory_simulate : ℕ → AdviceSimulation F → Route F (AdviceSimulation F)
  memory_simulate id sim = do
    rec ← memory_rec id
    on_memory (modify (put_row id (Store.with_simulation sim rec)))
    pure sim
